-- ===== src/Prelude/Maps.antt =====
-- Go's maps with string keys, as association lists. The program never depends on their order.
use Prim.Native.String.{String}
use mathlib.Core.Path.{◌≡◌, refl}
use mathlib.Core.Option.{Option, none, some}
use mathlib.Core.List.{List, [], ◌∷◌}
use native.Mathlib.Omega.{arith}
use text.Mathlib.Text.{◌==◌}
use text.Mathlib.TextEquality.{eq_iff}
use rds_dbaas_operator.Prelude.Tests.{if◌then◌else◌}

abbrev pub Dict {ℓ} : Type ℓ → Type ℓ
Dict V = List (String × V)

module _ {ℓ} {V : Type ℓ} where
  -- `v, ok := m[k]`
  unfoldable pub lookup : String → Dict V → Option V
  lookup k [] = none
  lookup k ((j, v) ∷ m) = if j == k then some v else lookup k m

  -- `m[k] = v`
  unfoldable pub insert : String → V → Dict V → Dict V
  insert k v [] = (k, v) ∷ []
  insert k v ((j, w) ∷ m) = if j == k then (k, v) ∷ m else (j, w) ∷ insert k v m

  -- One entry in front of the rest, where both maps are looked up and written.
  insert_step :
      (key wanted here : String) (new old : V) (rest : Dict V)
      → lookup wanted (insert key new rest)
        ≡ (if key == wanted then some new else lookup wanted rest)
      → lookup wanted (insert key new ((here, old) ∷ rest))
        ≡ (if key == wanted then some new else lookup wanted ((here, old) ∷ rest))
  unfolding lookup insert
  insert_step key wanted here new old rest ih =
      ground (arith, ih, eq_iff here key, eq_iff here wanted, eq_iff key wanted)

  -- A lookup behind a write finds the written value under its key, and what was there elsewhere.
  pub lookup-insert :
      (key wanted : String) (new : V) (entries : Dict V)
      → lookup wanted (insert key new entries)
        ≡ (if key == wanted then some new else lookup wanted entries)
  unfolding lookup insert
  lookup-insert key wanted new [] = refl
  lookup-insert key wanted new ((here, old) ∷ rest) =
      insert_step key wanted here new old rest (lookup-insert key wanted new rest)

  -- `m[k] = v`, where there is an entry to write.
  abbrev pub insert_entry : Option (String × V) → Dict V → Dict V
  insert_entry none m = m
  insert_entry (some (k, v)) m = insert k v m

  -- `for _, x := range xs { … m[k] = v }`, where an item gives an entry or is left out.
  unfoldable pub index {κ} : {A : Type κ} → (A → Option (String × V)) → List A → Dict V → Dict V
  index entry [] m = m
  index entry (x ∷ xs) m = index entry xs (insert_entry (entry x) m)
