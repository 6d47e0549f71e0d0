-- ===== src/RdsUtils/Passwords.antt =====
-- The master password behind setCredentials: one that was there stays, and another one is generated.
use mathlib.Core.Path.{subst}
use rds_dbaas_operator.Prelude.{
  String, ◌≡◌, refl, sym, ap, ◌∙◌, ◌⊎◌, inl, inr, Option, none, some, List, ℕ, [], ◌∷◌, Dict,
  lookup, insert, lookup-insert, Option-cases, Bool-cases, arith,
}
use rds_dbaas_operator.DbUtils.Password.{RandomLaws, and_then, generate_password}
use rds_dbaas_operator.DbUtils.Password.Strength.{IsStrong, generate_password-IsStrong}
use rds_dbaas_operator.K8s.{Result, ok, err, is_not_found, Secret}
use rds_dbaas_operator.RdsUtils.Bytes.{text_of}
use rds_dbaas_operator.RdsUtils.Credentials.{
  Owner, SecretClient, password_key, credentials_name, data_of, new_password, blank_secret,
  create_credentials, get_or_create, ensure_password, or_return, answered, set_credentials,
}

-- The server answers an update with the data that was written.
pub record SecretLaws {S : Type 0} (client : SecretClient S) : Type 0 where
  pub update_secret-entries :
      (secret : Secret) (s : S) {secret' : Secret} {t : S}
      → client.update_secret secret s ≡ (ok secret', t)
      → secret'.entries ≡ secret.entries

-- It answers a creation so as well, and the numbers that are drawn respect their bounds.
pub record PasswordLaws {S : Type 0} (client : SecretClient S) : Type 0 where
  pub secret_laws : SecretLaws client
  pub create_secret-entries :
      (secret : Secret) (s : S) {secret' : Secret} {t : S}
      → client.create_secret secret s ≡ (ok secret', t)
      → secret'.entries ≡ secret.entries
  pub random_laws : RandomLaws client.random

-- The text of a strong password.
abbrev pub Strong : String → Type 0
Strong password = (bytes : List ℕ) × (password ≡ text_of bytes) × IsStrong bytes

module _ {S : Type 0} (client : SecretClient S) where
  -- The chains of setCredentials that went on.
  or_return-ok :
      {A B : Type 0} (x : Option (Result A) × S) (f : A → S → Option (Result B) × S) {b : B} {t : S}
      → or_return client x f ≡ (some (ok b), t)
      → (a : A) × (s : S) × (x ≡ (some (ok a), s)) × (f a s ≡ (some (ok b), t))
  or_return-ok (none, s) f h = ground arith
  or_return-ok (some (err e), s) f h = ground arith
  or_return-ok (some (ok a), s) f h = (a, s, refl, h)

  drawn_parts :
      {A B : Type 0} (x : Option A × S) (f : A → S → Option B × S) {b : B} {t : S}
      → and_then x f ≡ (some b, t)
      → (a : A) × (s : S) × (x ≡ (some a, s)) × (f a s ≡ (some b, t))
  drawn_parts (none, s) f h = ground arith
  drawn_parts (some a, s) f h = (a, s, refl, h)

  -- The secret has a strong password.
  abbrev HasStrong : Secret → Type 0
  HasStrong secret = (p : String) × (lookup password_key (data_of secret) ≡ some p) × Strong p

  entries_data : (secret : Secret) (m : Dict String) → secret.entries ≡ some m → data_of secret ≡ m
  entries_data secret m e = ap (λ o. elim o [ none ↦ [] | some m ↦ m ]) e

  -- The write of a new password.
  abbrev write_password : Secret → String → S → Option (Result Secret) × S
  write_password secret password s = answered client (
      client.update_secret
        (record secret { entries = some (insert password_key password (data_of secret)) }) s)

  answered_ok :
      (x : Result Secret × S) {secret : Secret} {t : S}
      → answered client x ≡ (some (ok secret), t)
      → x ≡ (ok secret, t)
  answered_ok x h = ap unwrap h
    where
      unwrap : Option (Result Secret) × S → Result Secret × S
      unwrap (none, s) = (x.0, s)
      unwrap (some r, s) = (r, s)

  result_parts :
      {X : Type 0} {a b : Secret} {x y : X} {s t : S}
      → ◌≡◌ {A = Option (Result (Secret × X)) × S} (some (ok (a, x)), s) (some (ok (b, y)), t)
      → (b ≡ a) × (y ≡ x) × (s ≡ t)
  result_parts h = (ground arith, ground arith, ground arith)

  some_same : {a b : String} → some a ≡ some b → a ≡ b
  some_same e = ground arith

  lookup_first : (p : String) → lookup password_key ((password_key, p) ∷ []) ≡ some p
  unfolding lookup
  lookup_first p = refl

  module _ (laws : SecretLaws client) where
    ensure_cases :
        (secret : Secret) (s : S) {secret' : Secret} {t : S}
        → ensure_password client secret s ≡ (some (ok secret'), t)
        → ((p : String) × (lookup password_key (data_of secret) ≡ some p)
            × (lookup password_key (data_of secret') ≡ some p)
            × (s ≡ t))
          ⊎ ((p : String) × (lookup password_key (data_of secret') ≡ some p)
              × (u : S) × (new_password client s ≡ (some p, u)))
    unfolding ensure_password
    ensure_cases secret s {secret' = secret'} {t = t} h =
        elim (Option-cases (lookup password_key (data_of secret))) [
          | inr (p, found) ↦ inl (p, found, ground arith, ground arith)
          | inl absent ↦
              let (p, u, e, h) =
                drawn_parts (new_password client s) (write_password secret) {b = ok secret'} {t = t}
                  (ground arith) in
              let entries =
                laws.update_secret-entries
                  (record secret { entries = some (insert password_key p (data_of secret)) }) u
                  (answered_ok _ h) in
              inr (
                p,
                ap (lookup password_key)
                      (entries_data secret' (insert password_key p (data_of secret)) entries)
                    ∙ lookup-insert password_key password_key p (data_of secret),
                u,
                e,
              )
        ]

    -- The secret of setCredentials has a password.
    pub set_credentials-present :
        {X : Type 0} (name namespace : String) (owner : Option Owner) (kind : String)
        (set_spec : String → X → X) (x : X) (s : S) {secret : Secret} {x' : X} {t : S}
        → set_credentials client name namespace owner kind set_spec x s
          ≡ (some (ok (secret, x')), t)
        → (p : String) × (lookup password_key (data_of secret) ≡ some p)
    unfolding set_credentials
    set_credentials-present name namespace owner kind set_spec x s h =
        let (first, u, e, h) =
          or_return-ok (get_or_create client (credentials_name name) namespace owner kind s) _ h in
        let (second, v, e', h) = or_return-ok (ensure_password client first u) _ h in
        let (same, _, _) = result_parts h in
        elim (ensure_cases first u e') [
          | inr (p, has, _, _) ↦ (p, ap (λ x. lookup password_key (data_of x)) same ∙ has)
          | inl (p, _, has, _) ↦ (p, ap (λ x. lookup password_key (data_of x)) same ∙ has)
        ]

  module _ (laws : PasswordLaws client) where
    new_password-Strong :
        (s : S) {password : String} {t : S}
        → new_password client s ≡ (some password, t)
        → Strong password
    unfolding new_password
    new_password-Strong s h =
        let (bytes, u, e, h) = drawn_parts (generate_password client.random s) _ h in
        elim (generate_password-IsStrong client.random laws.random_laws s) [
          | inl (bytes', e', strong) ↦
              (bytes, ground arith, subst IsStrong (ground (arith, e, e')) strong)
          | inr (panics, _) ↦ ground (arith, e, panics)
        ]

    created_of :
        (r : Result Secret) (owner : Option Owner) (blank : Secret) (s : S) {secret : Secret}
        {t : S}
        → (elim r as (λ _. Option (Result Secret) × S) [
          | err e ↦ (some (err e), s)
          | ok new ↦ and_then (new_password client s) (λ password s. answered client (
              client.create_secret
                (record new { entries = some ((password_key, password) ∷ []) })
                s))
        ])
          ≡ (some (ok secret), t)
        → HasStrong secret
    created_of (err e) owner blank s h = ground arith
    created_of (ok new) owner blank s {secret = secret} h =
        let (p, u, e, h) = drawn_parts (new_password client s) _ h in
        let entries =
          laws.create_secret-entries (record new { entries = some ((password_key, p) ∷ []) }) u
            (answered_ok _ h) in
        (
          p,
          ap (lookup password_key) (entries_data secret ((password_key, p) ∷ []) entries)
              ∙ lookup_first p,
          new_password-Strong s e,
        )

    create-HasStrong :
        (name namespace : String) (owner : Option Owner) (kind : String) (s : S) {secret : Secret}
        {t : S}
        → create_credentials client name namespace owner kind s ≡ (some (ok secret), t)
        → HasStrong secret
    unfolding create_credentials
    create-HasStrong name namespace owner kind s h =
        created_of _ owner (blank_secret client name namespace owner kind) s h

    get_or_create_of :
        (r : Result Secret) (name namespace : String) (owner : Option Owner) (kind : String) (s : S)
        {secret : Secret} {t : S}
        → (client.get_secret (record { namespace = namespace; name = name }) s).0 ≡ r
        → get_or_create client name namespace owner kind s ≡ (some (ok secret), t)
        → (client.get_secret (record { namespace = namespace; name = name }) s ≡ (ok secret, t))
          ⊎ HasStrong secret
    unfolding get_or_create
    get_or_create_of (ok found) name namespace owner kind s e h = inl (ground arith)
    get_or_create_of (err x) name namespace owner kind s {secret = secret} {t = t} e h =
        elim (Bool-cases (is_not_found x)) [
          | inl gone ↦ inr (
              create-HasStrong name namespace owner kind
                (client.get_secret (record { namespace = namespace; name = name }) s).1
                {secret = secret} {t = t} (ground arith))
          | inr other ↦ ground arith
        ]

    -- The password is that of the secret that was read, and the read was the only call.
    abbrev pub Kept : String → String → String → S → S → Type 0
    Kept name namespace password s t =
        (found : Secret) × (client.get_secret
            (record { namespace = namespace; name = credentials_name name }) s
          ≡ (ok found, t))
        × (lookup password_key (data_of found) ≡ some password)

    -- The secret has a password, which was kept or is strong.
    abbrev pub HasPassword : String → String → Secret → S → S → Type 0
    HasPassword name namespace secret s t =
        (password : String) × (lookup password_key (data_of secret) ≡ some password)
        × (Kept name namespace password s t ⊎ Strong password)

    -- Where the server answers a write with the data that was written, and the numbers that are
    -- drawn respect their bounds: when setCredentials returns a secret, the caller's object has the
    -- secret's name, and the secret has a password. The password is that of a secret that was there
    -- (which may be any text, the empty one included), and the read of that secret was the only
    -- call; or it is a generated one, the text of twelve bytes of which there is a letter, a digit
    -- and a special.
    pub set_credentials-Password :
        {X : Type 0} (name namespace : String) (owner : Option Owner) (kind : String)
        (set_spec : String → X → X) (x : X) (s : S) {secret : Secret} {x' : X} {t : S}
        → set_credentials client name namespace owner kind set_spec x s
          ≡ (some (ok (secret, x')), t)
        → (x' ≡ set_spec (credentials_name name) x) × HasPassword name namespace secret s t
    unfolding set_credentials
    set_credentials-Password name namespace owner kind set_spec x s {secret = secret} {t = t} h =
        let (first, u, e, h) =
          or_return-ok (get_or_create client (credentials_name name) namespace owner kind s) _ h in
        let (second, v, e', h) = or_return-ok (ensure_password client first u) _ h in
        let (same, same_x, same_state) = result_parts h in
        let (p, has, from) : HasPassword name namespace secret s t =
          elim (ensure_cases laws.secret_laws first u e') [
            | inr (p, has, w, made) ↦ (
              p,
              ap (λ x. lookup password_key (data_of x)) same ∙ has,
              inr (new_password-Strong u made),
            )
            | inl (p, was, has, idle) ↦ (
              p,
              ap (λ x. lookup password_key (data_of x)) same ∙ has,
              elim (get_or_create_of _ (credentials_name name) namespace owner kind s refl e) [
                | inl got ↦ inl (first, got ∙ ap (λ u. (ok first, u)) (idle ∙ same_state), was)
                | inr (p', has', strong) ↦ inr (subst Strong (some_same (sym has' ∙ was)) strong)
              ],
            )
          ] in
        (same_x, (p, has, from))
