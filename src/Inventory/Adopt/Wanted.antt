-- ===== src/Inventory/Adopt/Wanted.antt =====
-- Which databases of AWS the loop of adoptDBInstances and adoptDBClusters adopts, in terms of the
-- lists that it has read.
use mathlib.Core.List.{Memᴰ}
use rds_dbaas_operator.Prelude.{
  String, ◌≡◌, refl, sym, ap, ◌∙◌, inl, inr, true, false, Bool-cases, Option, none, some,
  Option-cases, is_some, List, [], Dict, lookup, index, index-found, index-finds, one_of, arith,
}
use rds_dbaas_operator.Inventory.Server.{Server, AwsDatabase, AdoptedResource}
use rds_dbaas_operator.Inventory.Database.{Database, arn_entry}
use rds_dbaas_operator.Inventory.Adopt.{
  Verdict, leave, wait, adopt, resource_entry, is_deleting, is_adopted, is_left_out, verdict_of,
  verdict,
}

-- The entry of an index over a list of items under a key that it does not have before.
module _ {ℓ κ} {V : Type ℓ} {A : Type κ} (entry : A → Option (String × V)) where
  -- An item of the list gives an entry under the key.
  abbrev pub Gives : List A → String → Type (ℓ ⊔ κ)
  Gives xs k = (x : A) × (v : V) × Memᴰ x xs × (entry x ≡ some (k, v))

  pub found-Gives :
      (xs : List A) (k : String) {v : V} → lookup k (index entry xs []) ≡ some v → Gives xs k
  unfolding lookup
  found-Gives xs k {v = v} h = elim (index-found entry xs k [] h) [
    | inl e ↦ ground arith
    | inr (x, at, e) ↦ (x, v, at, e)
  ]

  pub is_some-Gives :
      (xs : List A) (k : String) → is_some (lookup k (index entry xs [])) ≡ true → Gives xs k
  is_some-Gives xs k h = elim (Option-cases (lookup k (index entry xs []))) [
    | inl e ↦ ground arith
    | inr (v, e) ↦ found-Gives xs k e
  ]

  pub not_given :
      (xs : List A) (k : String) → (Gives xs k → ⊥) → lookup k (index entry xs []) ≡ none
  not_given xs k h = elim (Option-cases (lookup k (index entry xs []))) [
    | inl e ↦ e
    | inr (v, e) ↦ absurd (h (found-Gives xs k e))
  ]

  pub none-Gives : (xs : List A) (k : String) → lookup k (index entry xs []) ≡ none → Gives xs k → ⊥
  none-Gives xs k h (x, v, at, e) = let found = index-finds entry xs x k [] at e in ground arith

module _ {S D : Type 0} (server : Server S) (database : Database D) where
  -- A database of AWS that the code adopts unless it knows it: it has an ARN and an engine of its
  -- kind, is in no cluster and is not being deleted, and no database of the namespace has its ARN.
  pub record Eligible (ds : List D) (a : AwsDatabase) (arn engine : String) : Type 0 where
    pub arn_set : a.arn ≡ some arn
    pub engine_set : a.engine ≡ some engine
    pub engine_kept : one_of engine database.skipped ≡ false
    pub alone : database.aws_in_cluster a ≡ false
    pub alive : is_deleting a.status ≡ false
    pub unknown : Gives (arn_entry database) ds arn → ⊥

  -- An eligible database with no adopted resource.
  abbrev pub Wanted : List D → List AdoptedResource → AwsDatabase → String → String → Type 0
  Wanted ds rs a arn engine = Eligible ds a arn engine × (Gives resource_entry rs arn → ⊥)

  abbrev pub verdict_in : List D → List AdoptedResource → AwsDatabase → Verdict
  verdict_in ds rs a =
      verdict server database (index (arn_entry database) ds []) (index resource_entry rs []) a

  kept_parts :
      (ds : List D) (a : AwsDatabase) (arn engine : String)
      → a.arn ≡ some arn
      → a.engine ≡ some engine
      → is_left_out server database engine a ≡ false
      → is_some (lookup arn (index (arn_entry database) ds [])) ≡ false
      → Eligible ds a arn engine
  unfolding is_left_out
  kept_parts ds a arn engine ea ee kept new = record {
    arn_set = ea;
    engine_set = ee;
    engine_kept = ground arith;
    alone = ground arith;
    alive = ground arith;
    unknown = none-Gives (arn_entry database) ds arn (is_none _ new);
  }
    where
      is_none : (o : Option String) → is_some o ≡ false → o ≡ none
      is_none none h = refl
      is_none (some x) h = ground arith

  verdict_of-adopt :
      (known : Dict String) (adopted : Dict AdoptedResource) (arn engine : String) (a : AwsDatabase)
      {arn' engine' : String}
      → verdict_of server database known adopted arn engine a ≡ adopt arn' engine'
      → (is_left_out server database engine a ≡ false)
        × (is_some (lookup arn known) ≡ false)
        × (lookup arn adopted ≡ none)
        × (arn ≡ arn')
        × (engine ≡ engine')
  unfolding verdict_of
  verdict_of-adopt known adopted arn engine a h =
      (ground arith, ground arith, ground arith, ground arith, ground arith)

  -- Where the loop adopts a database, it is wanted.
  pub adopt-Wanted :
      (ds : List D) (rs : List AdoptedResource) (a : AwsDatabase) {arn engine : String}
      → verdict_in ds rs a ≡ adopt arn engine
      → Wanted ds rs a arn engine
  unfolding verdict
  adopt-Wanted ds rs a {arn = arn} {engine = engine} h = elim (Option-cases a.arn) [
    | inl e ↦ ground arith
    | inr (arn₀, ea) ↦ elim (Option-cases a.engine) [
      | inl e ↦ ground arith
      | inr (engine₀, ee) ↦
          let (kept, new, lacks, same_arn, same_engine) =
            verdict_of-adopt (index (arn_entry database) ds []) (index resource_entry rs []) arn₀
              engine₀ a {arn' = arn} {engine' = engine} (ground arith) in
          (
            kept_parts ds a arn engine (ea ∙ ap some same_arn) (ee ∙ ap some same_engine)
                (ap (λ e. is_left_out server database e a) (sym same_engine) ∙ kept)
                (ap (λ n. is_some (lookup n (index (arn_entry database) ds []))) (sym same_arn)
                  ∙ new),
            none-Gives resource_entry rs arn
                (ap (λ n. lookup n (index resource_entry rs [])) (sym same_arn) ∙ lacks),
          )
    ]
  ]

  -- The verdict on an eligible database, by its adopted resource.
  verdict_by_resource :
      (ds : List D) (rs : List AdoptedResource) (a : AwsDatabase) (arn engine : String)
      → Eligible ds a arn engine
      → verdict_in ds rs a ≡ (elim (lookup arn (index resource_entry rs [])) [
        | none ↦ adopt arn engine
        | some r ↦ elim (is_adopted server r) [ true ↦ leave | false ↦ wait ]
      ])
  unfolding verdict verdict_of is_left_out
  verdict_by_resource ds rs a arn engine e = ground (
    arith,
    e.arn_set,
    e.engine_set,
    e.engine_kept,
    e.alone,
    e.alive,
    not_given (arn_entry database) ds arn e.unknown,
  )

  -- A wanted database is adopted.
  pub Wanted-adopt :
      (ds : List D) (rs : List AdoptedResource) (a : AwsDatabase) (arn engine : String)
      → Wanted ds rs a arn engine
      → verdict_in ds rs a ≡ adopt arn engine
  Wanted-adopt ds rs a arn engine (e, lacks) =
      ground
        (arith, verdict_by_resource ds rs a arn engine e, not_given resource_entry rs arn lacks)

  -- An adopted resource of the list for an ARN, which the RDS controller has adopted.
  abbrev pub IsAdopted : List AdoptedResource → String → Type 0
  IsAdopted rs arn =
      (r : AdoptedResource) × Memᴰ r rs
      × (resource_entry r ≡ some (arn, r))
      × (is_adopted server r ≡ true)

  pub resource_entry-same :
      (x : AdoptedResource) {k : String} {r : AdoptedResource}
      → resource_entry x ≡ some (k, r)
      → x ≡ r
  unfolding resource_entry
  resource_entry-same x h = ground arith

  found-IsAdopted :
      (rs : List AdoptedResource) (arn : String) (r : AdoptedResource)
      → lookup arn (index resource_entry rs []) ≡ some r
      → is_adopted server r ≡ true
      → IsAdopted rs arn
  unfolding lookup
  found-IsAdopted rs arn r found done = elim (index-found resource_entry rs arn [] found) [
    | inl e ↦ ground arith
    | inr (x, at, e) ↦ (
      x,
      at,
      e ∙ ap (λ r. some (arn, r)) (sym (resource_entry-same x e)),
      ap (is_adopted server) (resource_entry-same x e) ∙ done,
    )
  ]

  -- An eligible database that the loop leaves alone has an adopted resource that is adopted.
  pub leave-IsAdopted :
      (ds : List D) (rs : List AdoptedResource) (a : AwsDatabase) (arn engine : String)
      → verdict_in ds rs a ≡ leave
      → Eligible ds a arn engine
      → IsAdopted rs arn
  leave-IsAdopted ds rs a arn engine h e =
      elim (Option-cases (lookup arn (index resource_entry rs []))) [
        | inl lacks ↦ ground (arith, verdict_by_resource ds rs a arn engine e)
        | inr (r, found) ↦ elim (Bool-cases (is_adopted server r)) [
          | inr not_yet ↦ ground (arith, verdict_by_resource ds rs a arn engine e)
          | inl done ↦ found-IsAdopted rs arn r found done
        ]
      ]
