-- ===== src/Instance/Reasons.antt =====
-- The reasons of the conditions that are copied from a database.
use mathlib.Core.Path.{subst}
use rds_dbaas_operator.Prelude.{
  ◌≤◌, ℕ, Char, code, sym, ap, ◌∙◌, distinct_bools, String, ◌≡◌, ◌⊎◌, inl, inr, refl, Bool, true,
  false, eqb, eq_iff, ◌||◌, Bool-cases, Option, none, some, arith,
}
use rds_dbaas_operator.Ack.Shared.{AckCondition}
use rds_dbaas_operator.Instance.Patterns.{is_letter, is_alnum, reason_tail, is_reason}
use rds_dbaas_operator.Instance.Conditions.{
  reason_db_instance, reason_and_message, described, condition_for,
}

-- The number of a letter of ASCII, and of a letter, a digit or an underscore.
abbrev pub IsLetter : ℕ → Type 0
IsLetter c = ((65 ≤ c) × (c ≤ 90)) ⊎ ((97 ≤ c) × (c ≤ 122))

abbrev pub IsWord : ℕ → Type 0
IsWord c = IsLetter c ⊎ ((48 ≤ c) × (c ≤ 57)) ⊎ (c ≡ 95)

-- Behind the first character: letters, digits, underscores, commas (44) and colons (58), of which a
-- comma or a colon is not the last.
pub data IsTail : String → Type 0 where
  ended : IsTail String.[]
  last : (c : Char) → IsWord (code c) → IsTail (String.◌∷◌ c String.[])
  next :
      (c d : Char) (s : String)
      → IsWord (code c) ⊎ (code c ≡ 44) ⊎ (code c ≡ 58)
      → IsTail (String.◌∷◌ d s)
      → IsTail (String.◌∷◌ c (String.◌∷◌ d s))

-- The pattern of a reason: a letter in front.
pub data IsReason : String → Type 0 where
  reason_form : (c : Char) (s : String) → IsLetter (code c) → IsTail s → IsReason (String.◌∷◌ c s)

read-IsLetter : (c : ℕ) → is_letter c ≡ true → IsLetter c
unfolding is_letter
read-IsLetter c h = ground arith

read-IsWord : (c : ℕ) → (is_alnum c || eqb c 95) ≡ true → IsWord c
unfolding is_alnum is_letter
read-IsWord c h = ground arith

IsLetter-letter : (c : ℕ) → IsLetter c → is_letter c ≡ true
unfolding is_letter
IsLetter-letter c h = ground (arith, h)

IsWord-word : (c : ℕ) → IsWord c → (is_alnum c || eqb c 95) ≡ true
unfolding is_alnum is_letter
IsWord-word c h = ground (arith, h)

read-IsTail : (done : Bool) (s : String) → reason_tail done s ≡ true → IsTail s
unfolding reason_tail
read-IsTail done String.[] h = ended
read-IsTail done (String.◌∷◌ c String.[]) h = last c (read-IsWord (code c) (ground arith))
read-IsTail done (String.◌∷◌ c (String.◌∷◌ d s)) h =
    next c d s (allowed (Bool-cases (is_alnum (code c) || eqb (code c) 95)))
      (read-IsTail (is_alnum (code c) || eqb (code c) 95) (String.◌∷◌ d s) (ground arith))
  where
    allowed :
        ((is_alnum (code c) || eqb (code c) 95) ≡ true)
          ⊎ ((is_alnum (code c) || eqb (code c) 95) ≡ false)
        → IsWord (code c) ⊎ (code c ≡ 44) ⊎ (code c ≡ 58)
    allowed (inl word) = inl (read-IsWord (code c) word)
    allowed (inr other) = inr (ground arith)

may_stand :
    (c : ℕ)
    → IsWord c ⊎ (c ≡ 44) ⊎ (c ≡ 58)
    → (is_alnum c || eqb c 95 || eqb c 44 || eqb c 58) ≡ true
may_stand c (inl word) = ground (arith, IsWord-word c word)
may_stand c (inr h) = ground (arith, h)

IsTail-tail : (s : String) → IsTail s → (done : Bool) → (done ≡ true) → reason_tail done s ≡ true
unfolding reason_tail
IsTail-tail _ ended done h = h
IsTail-tail _ (last c word) done h = ground (arith, IsWord-word (code c) word)
IsTail-tail _ (next c d s allowed rest) done h =
    ground (arith, may_stand (code c) allowed, IsTail-tail (String.◌∷◌ d s) rest true refl)

is_reason-IsReason : (s : String) → is_reason s ≡ true → IsReason s
unfolding is_reason
is_reason-IsReason String.[] h = ground arith
is_reason-IsReason (String.◌∷◌ c s) h =
    reason_form c s (read-IsLetter (code c) (ground arith)) (read-IsTail true s (ground arith))

IsReason-is_reason : (s : String) → IsReason s → is_reason s ≡ true
unfolding is_reason
IsReason-is_reason _ (reason_form c s letter tail) =
    ground (arith, IsLetter-letter (code c) letter, IsTail-tail s tail true refl)

not_empty : (s : String) → is_reason s ≡ true → (s ≡ "") → ⊥
unfolding is_reason
not_empty s h e = distinct_bools (sym h ∙ ap is_reason e)

default-IsReason : IsReason reason_db_instance
unfolding is_reason
default-IsReason = is_reason-IsReason reason_db_instance refl

-- What becomes of a database's reason: one that has the pattern stays, and for any other, or for
-- none, there is the default.
abbrev pub Copied : Option String → String → Type 0
Copied none new = new ≡ reason_db_instance
Copied (some old) new = (IsReason old × (new ≡ old)) ⊎ (¬ IsReason old × (new ≡ reason_db_instance))

kept_or_default :
    (old : String) (message : Option String) → Copied (some old) (described (some old) message).0
unfolding described reason_and_message
kept_or_default old message = elim (Bool-cases (is_reason old)) [
  | inl good ↦ inl (is_reason-IsReason old good, ground (arith, eq_iff old "", not_empty old good))
  | inr bad ↦ inr (λ h. distinct_bools (sym (IsReason-is_reason old h) ∙ bad), ground arith)
]

described-Copied : (old message : Option String) → Copied old (described old message).0
unfolding described
described-Copied none message = refl
described-Copied (some old) message = kept_or_default old message

Copied-IsReason : (old : Option String) (new : String) → Copied old new → IsReason new
Copied-IsReason none new e = subst IsReason (sym e) default-IsReason
Copied-IsReason (some old) new (inl (good, e)) = subst IsReason (sym e) good
Copied-IsReason (some old) new (inr (_, e)) = subst IsReason (sym e) default-IsReason

-- The reason of a copied condition has the pattern that Kubernetes asks of a reason: a letter, and
-- behind it letters, digits, underscores, commas and colons, of which a comma or a colon is not the
-- last. A reason of the database that has the pattern stays, and any other one, or none, becomes
-- "DBInstance". The length of a reason is not looked at.
pub condition_for-IsReason :
    (c : AckCondition)
    → IsReason (condition_for c).reason × Copied c.reason (condition_for c).reason
unfolding condition_for
condition_for-IsReason c = (
  Copied-IsReason c.reason _ (described-Copied c.reason c.message),
  described-Copied c.reason c.message,
)
