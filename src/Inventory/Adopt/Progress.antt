-- ===== src/Inventory/Adopt/Progress.antt =====
-- When adoptDBInstances and adoptDBClusters have nothing left to adopt or to wait for.
use mathlib.Core.Path.{subst}
use mathlib.Core.List.{Memᴰ}
use rds_dbaas_operator.Prelude.{
  String, ◌≡◌, refl, sym, ap, ◌∙◌, inl, inr, true, false, distinct_bools, some, Option-cases, List,
  [], ◌∷◌, Dict, lookup, index, index-found, arith,
}
use rds_dbaas_operator.K8s.{ok, go}
use rds_dbaas_operator.Inventory.Run.{Run}
use rds_dbaas_operator.Inventory.Server.{
  Server, DatabaseClient, AwsDatabase, AdoptedResource, AwsIdentifiers,
}
use rds_dbaas_operator.Inventory.Database.{Database, arn_entry}
use rds_dbaas_operator.Inventory.Adopt.{
  leave, wait, resource_entry, is_adopted, verdict_of, verdict, adopt_each, requeue_adopting,
  or_get_error, adopt_databases, create_adopted_resource,
}
use rds_dbaas_operator.Inventory.Adopt.Wanted.{
  Gives, Eligible, verdict_in, adopt-Wanted, resource_entry-same, found-Gives, none-Gives,
}
use rds_dbaas_operator.Inventory.Adopt.Adoptions.{
  Verdict-cases, loop, judge, Adopted, Calls, idle, call,
}
use rds_dbaas_operator.Inventory.Adopt.Adopting.{Made}

module _ {S D : Type 0} (server : Server S) (database : Database D) where
  verdict_of-wait :
      (known : Dict String) (adopted : Dict AdoptedResource) (arn engine : String) (a : AwsDatabase)
      → verdict_of server database known adopted arn engine a ≡ wait
      → (r : AdoptedResource) × (lookup arn adopted ≡ some r) × (is_adopted server r ≡ false)
  unfolding verdict_of
  verdict_of-wait known adopted arn engine a h = elim (Option-cases (lookup arn adopted)) [
    | inl e ↦ ground arith
    | inr (r, e) ↦ (r, e, ground arith)
  ]

  listed_resource :
      (rs : List AdoptedResource) (arn : String) {r : AdoptedResource}
      → lookup arn (index resource_entry rs []) ≡ some r
      → Memᴰ r rs
  unfolding lookup
  listed_resource rs arn h = elim (index-found resource_entry rs arn [] h) [
    | inl e ↦ ground arith
    | inr (x, at, e) ↦ subst (λ r. Memᴰ r rs) (resource_entry-same server database x e) at
  ]

  -- A verdict to wait is for a resource of the list that is not adopted yet.
  wait_resource :
      (ds : List D) (rs : List AdoptedResource) (a : AwsDatabase)
      → verdict_in server database ds rs a ≡ wait
      → (r : AdoptedResource) × Memᴰ r rs × (is_adopted server r ≡ false)
  unfolding verdict
  wait_resource ds rs a h = elim (Option-cases a.arn) [
    | inl e ↦ ground arith
    | inr (arn, ea) ↦ elim (Option-cases a.engine) [
      | inl e ↦ ground arith
      | inr (engine, ee) ↦
          let (r, found, pending) =
            verdict_of-wait (index (arn_entry database) ds []) (index resource_entry rs []) arn
              engine a (ground arith) in
          (r, listed_resource rs arn found, pending)
    ]
  ]

  -- All the resources of the list are adopted, and each eligible database of AWS has one.
  record AllAdopted (ds : List D) (rs : List AdoptedResource) (listed : List AwsDatabase)
      : Type 0 where
    pub adopted : (r : AdoptedResource) → Memᴰ r rs → is_adopted server r ≡ true
    pub resources :
        (a : AwsDatabase) (arn engine : String)
        → Memᴰ a listed
        → Eligible server database ds a arn engine
        → Gives resource_entry rs arn

  all_left :
      (ds : List D) (rs : List AdoptedResource) (listed : List AwsDatabase) (a : AwsDatabase)
      → AllAdopted ds rs listed
      → Memᴰ a listed
      → verdict_in server database ds rs a ≡ leave
  all_left ds rs listed a all at = elim (Verdict-cases (verdict_in server database ds rs a)) [
    | inl e ↦ e
    | inr (inl e) ↦
        let (r, at, pending) = wait_resource ds rs a e in
        absurd (distinct_bools (sym (all.adopted r at) ∙ pending))
    | inr (inr (arn, engine, e)) ↦
        let (eligible, lacks) = adopt-Wanted server database ds rs a e in
        absurd (lacks (all.resources a arn engine at eligible))
  ]

  module _ (run : Run) where
    loop_left :
        (ds : List D) (rs : List AdoptedResource) (listed : List AwsDatabase) (s : S)
        → ((a : AwsDatabase) → Memᴰ a listed → judge server database run ds rs a ≡ leave)
        → loop server database run ds rs listed false s ≡ (go false, s)
    unfolding adopt_each
    loop_left ds rs [] s all = refl
    loop_left ds rs (a ∷ rest) s all =
        ground (arith, all a (Memᴰ.head refl), loop_left ds rs rest s (λ x m. all x (Memᴰ.tail m)))

    -- Where AWS lists a database, the databases and the adopted resources of the namespace are
    -- listed without an error, all of these resources are adopted, and each eligible database of
    -- AWS has one of them, the code goes on and makes no other call.
    adopt_databases-AllAdopted :
        (client : DatabaseClient S D) (a : AwsDatabase) (rest : List AwsDatabase) (s : S)
        {ds : List D} {rs : List AdoptedResource} {u v : S}
        → client.list run.inventory.meta.namespace s ≡ (ok ds, u)
        → server.list_adopted_resources run.inventory.meta.namespace u ≡ (ok rs, v)
        → AllAdopted ds rs (a ∷ rest)
        → adopt_databases server database client (a ∷ rest) run s ≡ (go tt, v)
    unfolding adopt_databases or_get_error requeue_adopting
    adopt_databases-AllAdopted client a rest s {ds = ds} {rs = rs} {v = v} e e' all =
        ground
          (arith, e, e', loop_left ds rs (a ∷ rest) v (λ x m. all_left ds rs (a ∷ rest) x all m))

  -- The adopted resource that is created for a database.
  abbrev pub resource_of :
      {run : Run} {a : AwsDatabase} {s t : S} → Adopted server database run a s t → AdoptedResource
  resource_of {run = run} c =
      record (create_adopted_resource server.rds_group c.uuid c.identifier c.arn c.engine
        database.resource_kind run.inventory) { meta = c.meta }

  -- The adopted resources that are created, in their order.
  abbrev pub resources_of :
      {run : Run} {made : List AwsDatabase} {s t : S}
      → Calls server database run made s t
      → List AdoptedResource
  resources_of (idle e) = []
  resources_of (call c cs) = resource_of c ∷ resources_of cs

  -- The resource names a database by this ARN.
  abbrev NamesArn : AdoptedResource → String → Type 0
  NamesArn r arn = (ids : AwsIdentifiers) × (r.aws ≡ some ids) × (ids.arn ≡ some arn)

  given_NamesArn :
      (r : AdoptedResource) (arn : String) {v : AdoptedResource}
      → resource_entry r ≡ some (arn, v)
      → NamesArn r arn
  unfolding resource_entry
  given_NamesArn r arn h = elim (Option-cases r.aws) [
    | inl e ↦ ground arith
    | inr (ids, e) ↦ (ids, e, ground arith)
  ]

  NamesArn-entry :
      (r : AdoptedResource) (arn : String) → NamesArn r arn → resource_entry r ≡ some (arn, r)
  unfolding resource_entry
  NamesArn-entry r arn (ids, e, e') = ground (arith, e, e')

  created_NamesArn :
      {run : Run} {a : AwsDatabase} {s t : S} (c : Adopted server database run a s t) (arn : String)
      → a.arn ≡ some arn
      → NamesArn (resource_of c) arn
  unfolding create_adopted_resource
  created_NamesArn c arn e =
      (record { name_or_id = c.identifier; arn = some c.arn }, refl, sym c.named ∙ e)

  resource_for :
      {run : Run} {made : List AwsDatabase} {s t : S} (cs : Calls server database run made s t)
      (a : AwsDatabase) (arn : String)
      → Memᴰ a made
      → a.arn ≡ some arn
      → (r : AdoptedResource) × Memᴰ r (resources_of cs) × NamesArn r arn
  resource_for (idle e) a arn m h = elim m [ ]
  resource_for (call c cs) a arn (Memᴰ.head same) h =
      (resource_of c, Memᴰ.head refl, created_NamesArn c arn (ap (λ a. a.arn) (sym same) ∙ h))
  resource_for (call c cs) a arn (Memᴰ.tail at) h =
      let (r, m, named) = resource_for cs a arn at h in (r, Memᴰ.tail m, named)

  still_there :
      (rs : List AdoptedResource) (r : AdoptedResource) (arn : String)
      → NamesArn r arn
      → (r' : AdoptedResource) × Memᴰ r' rs × (r'.aws ≡ r.aws)
      → Gives resource_entry rs arn
  still_there rs r arn (ids, e, e') (r', at, same) =
      (r', r', at, NamesArn-entry r' arn (ids, same ∙ e, e'))

  module _ {run : Run} {client : DatabaseClient S D} {listed : List AwsDatabase} {s t : S} where
    -- What is listed once the RDS controller has done its work behind a round of adoptions: the
    -- databases that the round found are still there, for each adopted resource that it found or
    -- created there is one of the same database of AWS, and all adopted resources are adopted.
    pub record Worked (round : Made server database run client listed s t) (ds : List D)
        (rs : List AdoptedResource) : Type 0 where
      pub databases :
          (arn : String)
          → Gives (arn_entry database) round.ds arn
          → Gives (arn_entry database) ds arn
      pub found :
          (r : AdoptedResource)
          → Memᴰ r round.rs
          → (r' : AdoptedResource) × Memᴰ r' rs × (r'.aws ≡ r.aws)
      pub created :
          (r : AdoptedResource)
          → Memᴰ r (resources_of round.calls)
          → (r' : AdoptedResource) × Memᴰ r' rs × (r'.aws ≡ r.aws)
      pub adopted : (r : AdoptedResource) → Memᴰ r rs → is_adopted server r ≡ true

    worked_resources :
        (round : Made server database run client listed s t) (ds : List D)
        (rs : List AdoptedResource)
        → Worked round ds rs
        → (a : AwsDatabase) (arn engine : String) → Memᴰ a listed
        → Eligible server database ds a arn engine
        → Gives resource_entry rs arn
    worked_resources round ds rs w a arn engine at e =
        elim (Option-cases (lookup arn (index resource_entry round.rs []))) [
          | inr (v, known) ↦
              let (r, v', here, given) = found-Gives resource_entry round.rs arn known in
              still_there rs r arn (given_NamesArn r arn given) (w.found r here)
          | inl lacks ↦
              let wanted : Eligible server database round.ds a arn engine = record {
                arn_set = e.arn_set;
                engine_set = e.engine_set;
                engine_kept = e.engine_kept;
                alone = e.alone;
                alive = e.alive;
                unknown = λ g. e.unknown (w.databases arn g);
              } in
              let made =
                (round.exact a).1
                  (at, arn, engine, (wanted, none-Gives resource_entry round.rs arn lacks)) in
              let (r, here, named) = resource_for round.calls a arn made e.arn_set in
              still_there rs r arn named (w.created r here)
        ]

    nothing_left :
        (round : Made server database run client listed s t) (ds : List D)
        (rs : List AdoptedResource)
        → Worked round ds rs
        → AllAdopted ds rs listed
    nothing_left round ds rs w = record {
      adopted = w.adopted;
      resources = worked_resources round ds rs w;
    }

  -- One round of adoptions is enough. A round of adoptDBInstances or adoptDBClusters was made; the
  -- RDS controller does its work, so that in front of a later reconciliation the databases that the
  -- round found are still there, for each adopted resource that it found or created there is one of
  -- the same database of AWS, and all adopted resources are adopted. If AWS lists the same
  -- databases and the later reconciliation's two lists have no error, it creates nothing, does not
  -- wait, and goes on.
  pub adopt_databases-Worked :
      (run later : Run) (client : DatabaseClient S D) (a : AwsDatabase) (rest : List AwsDatabase)
      (s t s' : S) {u v : S} {ds : List D} {rs : List AdoptedResource}
      (round : Made server database run client (a ∷ rest) s t)
      → Worked round ds rs
      → client.list later.inventory.meta.namespace s' ≡ (ok ds, u)
      → server.list_adopted_resources later.inventory.meta.namespace u ≡ (ok rs, v)
      → adopt_databases server database client (a ∷ rest) later s' ≡ (go tt, v)
  adopt_databases-Worked run later client a rest s t s' {ds = ds} {rs = rs} round w e e' =
      adopt_databases-AllAdopted later client a rest s' e e' (nothing_left round ds rs w)
