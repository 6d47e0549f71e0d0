-- ===== src/Inventory/Adopt/Adoptions.antt =====
-- The calls with which adoptDBInstances and adoptDBClusters adopt databases of AWS.
use mathlib.Core.Path.{subst}
use mathlib.Core.List.{Memᴰ}
use rds_dbaas_operator.Prelude.{
  String, ◌≡◌, refl, sym, ap, ◌∙◌, ◌↔◌, ◌⊎◌, inl, inr, Bool, true, Option, none, some, List, [],
  ◌∷◌, index, arith,
}
use rds_dbaas_operator.K8s.{Result, ok, err, ObjectMeta, go, Exec}
use rds_dbaas_operator.K8s.Steps.{continue-go}
use rds_dbaas_operator.Inventory.Run.{Run}
use rds_dbaas_operator.Inventory.Server.{Server, AwsDatabase, AdoptedResource}
use rds_dbaas_operator.Inventory.Attempts.{attempt-go}
use rds_dbaas_operator.Inventory.Database.{Database, arn_entry}
use rds_dbaas_operator.Inventory.Adopt.{
  Verdict, leave, wait, adopt, resource_entry, create_adopted_resource, create_owned,
  create_adoption, adopt_each,
}
use rds_dbaas_operator.Inventory.Adopt.Wanted.{Wanted, verdict_in, adopt-Wanted, Wanted-adopt}

pub Verdict-cases :
    (v : Verdict)
    → (v ≡ leave) ⊎ (v ≡ wait) ⊎ ((arn : String) × (engine : String) × (v ≡ adopt arn engine))
Verdict-cases leave = inl refl
Verdict-cases wait = inr (inl refl)
Verdict-cases (adopt arn engine) = inr (inr (arn, engine, refl))

-- The databases on which the verdict is to adopt.
abbrev pub put_adopted : Verdict → AwsDatabase → List AwsDatabase → List AwsDatabase
put_adopted leave a rest = rest
put_adopted wait a rest = rest
put_adopted (adopt arn engine) a rest = a ∷ rest

abbrev pub selected : (AwsDatabase → Verdict) → List AwsDatabase → List AwsDatabase
selected judge [] = []
selected judge (a ∷ rest) = put_adopted (judge a) a (selected judge rest)

in_put :
    (v : Verdict) (a : AwsDatabase) (xs : List AwsDatabase) {x : AwsDatabase}
    → Memᴰ x (put_adopted v a xs)
    → ((x ≡ a) × (arn : String) × (engine : String) × (v ≡ adopt arn engine)) ⊎ Memᴰ x xs
in_put leave a xs m = inr m
in_put wait a xs m = inr m
in_put (adopt arn engine) a xs (Memᴰ.head e) = inl (e, arn, engine, refl)
in_put (adopt arn engine) a xs (Memᴰ.tail m) = inr m

put_head :
    (v : Verdict) (a x : AwsDatabase) (xs : List AwsDatabase) {arn engine : String}
    → v ≡ adopt arn engine
    → x ≡ a
    → Memᴰ x (put_adopted v a xs)
put_head leave a x xs h e = ground arith
put_head wait a x xs h e = ground arith
put_head (adopt _ _) a x xs h e = Memᴰ.head e

put_tail :
    (v : Verdict) (a : AwsDatabase) (xs : List AwsDatabase) {x : AwsDatabase}
    → Memᴰ x xs
    → Memᴰ x (put_adopted v a xs)
put_tail leave a xs m = m
put_tail wait a xs m = m
put_tail (adopt _ _) a xs m = Memᴰ.tail m

module _ (judge : AwsDatabase → Verdict) where
  selected_sound :
      (listed : List AwsDatabase) {a : AwsDatabase}
      → Memᴰ a (selected judge listed)
      → Memᴰ a listed × (arn : String) × (engine : String) × (judge a ≡ adopt arn engine)
  selected_sound [] m = elim m [ ]
  selected_sound (x ∷ rest) m = elim (in_put (judge x) x (selected judge rest) m) [
    | inl (same, arn, engine, e) ↦ (Memᴰ.head same, arn, engine, ap judge same ∙ e)
    | inr m ↦ let (at, arn, engine, e) = selected_sound rest m in (Memᴰ.tail at, arn, engine, e)
  ]

  selected_complete :
      (listed : List AwsDatabase) {a : AwsDatabase} {arn engine : String}
      → Memᴰ a listed
      → judge a ≡ adopt arn engine
      → Memᴰ a (selected judge listed)
  selected_complete [] m e = elim m [ ]
  selected_complete (x ∷ rest) {a = a} (Memᴰ.head same) e =
      put_head (judge x) x a (selected judge rest) (ap judge (sym same) ∙ e) same
  selected_complete (x ∷ rest) (Memᴰ.tail at) e =
      put_tail (judge x) x (selected judge rest) (selected_complete rest at e)

module _ {S D : Type 0} (server : Server S) (database : Database D) (run : Run) where
  -- The adoption of one database: an adopted resource with its identifier, its ARN and a new
  -- suffix, annotated with the inventory as its owner, is created.
  pub record Adopted (a : AwsDatabase) (s t : S) : Type 0 where
    pub identifier : String
    pub arn : String
    pub engine : String
    pub uuid : String
    pub u : S
    pub meta : ObjectMeta
    pub identified : a.identifier ≡ some identifier
    pub named : a.arn ≡ some arn
    pub of_engine : a.engine ≡ some engine
    pub suffixed : server.new_uuid s ≡ (uuid, u)
    pub owned :
        server.set_owner_annotations run.inventory.kind run.inventory.meta
          (create_adopted_resource server.rds_group uuid identifier arn engine
            database.resource_kind run.inventory).meta
        ≡ ok meta
    pub created :
        server.create_adopted_resource
          (record (create_adopted_resource server.rds_group uuid identifier arn engine
            database.resource_kind run.inventory) { meta = meta })
          u
        ≡ (none, t)

  -- The adoptions of a list of databases, one behind the other.
  pub data Calls : List AwsDatabase → S → S → Type 0 where
    idle : {s t : S} → s ≡ t → Calls [] s t
    call :
        {a : AwsDatabase} {rest : List AwsDatabase} {s u t : S}
        → Adopted a s u
        → Calls rest u t
        → Calls (a ∷ rest) s t

  create_owned-go :
      (r : AdoptedResource) (m : Result ObjectMeta) (s : S) {u : Unit {0}} {t : S}
      → create_owned server database r m run s ≡ (go u, t)
      → (meta : ObjectMeta) × (m ≡ ok meta)
        × (server.create_adopted_resource (record r { meta = meta }) s ≡ (none, t))
  unfolding create_owned
  create_owned-go r (err e) s h = ground arith
  create_owned-go r (ok meta) s {u = u} {t = t} h =
      (meta, refl, attempt-go server run database.adopt_error _ {u = u} {t = t} h)

  create_adoption-Adopted :
      (o : Option String) (a : AwsDatabase) (arn engine : String) (s : S) {u : Unit {0}} {t : S}
      → a.identifier ≡ o
      → a.arn ≡ some arn
      → a.engine ≡ some engine
      → create_adoption server database o arn engine run s ≡ (go u, t)
      → Adopted a s t
  unfolding create_adoption
  create_adoption-Adopted none a arn engine s ei ea ee h = ground arith
  create_adoption-Adopted (some identifier) a arn engine s ei ea ee h =
      let (meta, owned, created) = create_owned-go _ _ _ h in
      record {
        identifier = identifier;
        arn = arn;
        engine = engine;
        uuid = (server.new_uuid s).0;
        u = (server.new_uuid s).1;
        meta = meta;
        identified = ei;
        named = ea;
        of_engine = ee;
        suffixed = refl;
        owned = owned;
        created = created;
      }

  module _ (ds : List D) (rs : List AdoptedResource) where
    abbrev pub loop : List AwsDatabase → Bool → Exec S Run Bool
    loop listed b s =
        adopt_each server database (index (arn_entry database) ds []) (index resource_entry rs [])
          listed b run s

    abbrev pub judge : AwsDatabase → Verdict
    judge = verdict_in server database ds rs

    -- The loop makes the calls of the selected databases, and no others.
    pub adopt_each-Calls :
        (listed : List AwsDatabase) (b : Bool) (s : S) {b' : Bool} {t : S}
        → loop listed b s ≡ (go b', t)
        → Calls (selected judge listed) s t
    unfolding adopt_each
    adopt_each-Calls [] b s h = idle (ground arith)
    adopt_each-Calls (a ∷ rest) b s {b' = b'} {t = t} h = elim (Verdict-cases (judge a)) [
      | inl e ↦
          subst (λ v. Calls (put_adopted v a (selected judge rest)) s t) (sym e)
            (adopt_each-Calls rest b s {b' = b'} {t = t} (ground arith))
      | inr (inl e) ↦
          subst (λ v. Calls (put_adopted v a (selected judge rest)) s t) (sym e)
            (adopt_each-Calls rest true s {b' = b'} {t = t} (ground arith))
      | inr (inr (arn, engine, e)) ↦
          let (_, u, h, h') =
            continue-go (create_adoption server database a.identifier arn engine run s)
              (λ _. loop rest true) {b = b'} {s = t} (ground arith) in
          let wanted = (adopt-Wanted server database ds rs a e).0 in
          subst (λ v. Calls (put_adopted v a (selected judge rest)) s t) (sym e)
            (call (create_adoption-Adopted _ a arn engine s refl wanted.arn_set wanted.engine_set h)
              (adopt_each-Calls rest true u h'))
    ]

    -- The selected databases are the wanted ones of the list.
    pub selected-Wanted :
        (listed : List AwsDatabase) (a : AwsDatabase)
        → Memᴰ a (selected judge listed) ↔ (
            Memᴰ a listed
            × (arn : String) × (engine : String) × Wanted server database ds rs a arn engine)
    selected-Wanted listed a = (
      λ m.
          let (at, arn, engine, e) = selected_sound judge listed m in
          (at, arn, engine, adopt-Wanted server database ds rs a e),
      λ (at, arn, engine, wanted).
          selected_complete judge listed at
            (Wanted-adopt server database ds rs a arn engine wanted),
    )
