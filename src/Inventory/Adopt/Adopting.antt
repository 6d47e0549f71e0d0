-- ===== src/Inventory/Adopt/Adopting.antt =====
-- What the first half of adoptDBInstances and adoptDBClusters has done when it stops for a new
-- reconciliation, and what holds when it goes on.
use mathlib.Core.Path.{subst}
use mathlib.Core.List.{Memᴰ}
use rds_dbaas_operator.Prelude.{
  String, ◌≡◌, refl, sym, ap, ◌∙◌, ◌↔◌, ◌⊎◌, inl, inr, Bool, true, false, distinct_bools, Option,
  none, some, List, [], ◌∷◌, arith,
}
use rds_dbaas_operator.K8s.{Result, ok, err, ObjectMeta, stop, go}
use rds_dbaas_operator.K8s.Steps.{continue-go, continue-stop}
use rds_dbaas_operator.Inventory.Run.{Run, return_error}
use rds_dbaas_operator.Inventory.Server.{Server, DatabaseClient, AwsDatabase, AdoptedResource}
use rds_dbaas_operator.Inventory.Database.{Database}
use rds_dbaas_operator.Inventory.Adopt.{
  leave, adopt_each, create_owned, create_adoption, requeue_adopting, or_get_error, adopt_databases,
}
use rds_dbaas_operator.Inventory.Attempts.{attempt-stop, or_get_error-go, or_get_error-stop}
use rds_dbaas_operator.Inventory.Adopt.Wanted.{Wanted, Eligible, IsAdopted, leave-IsAdopted}
use rds_dbaas_operator.Inventory.Adopt.Adoptions.{
  Verdict-cases, Calls, loop, judge, adopt_each-Calls, selected, selected-Wanted,
}

module _ {S D : Type 0} (server : Server S) (database : Database D) (run : Run) where
  create_owned-stop :
      (r : AdoptedResource) (m : Result ObjectMeta) (s : S) {run' : Run} {t : S}
      → create_owned server database r m run s ≡ (stop run', t)
      → run'.sync_reset ≡ run.sync_reset
  unfolding create_owned return_error
  create_owned-stop r (err e) s h = ground arith
  create_owned-stop r (ok meta) s {run' = run'} {t = t} h =
      (attempt-stop server run database.adopt_error
        (server.create_adopted_resource (record r { meta = meta }) s) {run' = run'} {t = t}
        h).sync_reset

  create_adoption-stop :
      (o : Option String) (arn engine : String) (s : S) {run' : Run} {t : S}
      → create_adoption server database o arn engine run s ≡ (stop run', t)
      → run'.sync_reset ≡ run.sync_reset
  unfolding create_adoption
  create_adoption-stop none arn engine s h = ground arith
  create_adoption-stop (some identifier) arn engine s h = create_owned-stop _ _ _ h

  module _ (ds : List D) (rs : List AdoptedResource) where
    loop-stop :
        (listed : List AwsDatabase) (b : Bool) (s : S) {run' : Run} {t : S}
        → loop server database run ds rs listed b s ≡ (stop run', t)
        → run'.sync_reset ≡ run.sync_reset
    unfolding adopt_each
    loop-stop [] b s h = ground arith
    loop-stop (a ∷ rest) b s {run' = run'} {t = t} h =
        elim (Verdict-cases (judge server database run ds rs a)) [
          | inl e ↦ loop-stop rest b s {run' = run'} {t = t} (ground arith)
          | inr (inl e) ↦ loop-stop rest true s {run' = run'} {t = t} (ground arith)
          | inr (inr (arn, engine, e)) ↦
              elim (continue-stop (create_adoption server database a.identifier arn engine run s)
                (λ _. loop server database run ds rs rest true) {v = run'} {s = t} (ground arith)) [
                  | inl h ↦ create_adoption-stop _ arn engine s h
                  | inr (_, u, h, h') ↦ loop-stop rest true u h'
                ]
        ]

    in_head :
        (a : AwsDatabase) (rest : List AwsDatabase)
        → judge server database run ds rs a ≡ leave
        → ((x : AwsDatabase) → Memᴰ x rest → judge server database run ds rs x ≡ leave)
        → (x : AwsDatabase) → Memᴰ x (a ∷ rest)
        → judge server database run ds rs x ≡ leave
    in_head a rest e all x (Memᴰ.head same) = ap (judge server database run ds rs) same ∙ e
    in_head a rest e all x (Memᴰ.tail at) = all x at

    -- Where the loop goes on with nothing to wait for, it has made no call.
    loop-go :
        (listed : List AwsDatabase) (b : Bool) (s : S) {t : S}
        → loop server database run ds rs listed b s ≡ (go false, t)
        → (b ≡ false)
          × (s ≡ t)
          × ((a : AwsDatabase) → Memᴰ a listed → judge server database run ds rs a ≡ leave)
    unfolding adopt_each
    loop-go [] b s h = (ground arith, ground arith, λ a m. elim m [ ])
    loop-go (a ∷ rest) b s {t = t} h = elim (Verdict-cases (judge server database run ds rs a)) [
      | inl e ↦
          let (eb, es, all) = loop-go rest b s {t = t} (ground arith) in
          (eb, es, λ x m. in_head a rest e all x m)
      | inr (inl e) ↦ absurd (distinct_bools (loop-go rest true s {t = t} (ground arith)).0)
      | inr (inr (arn, engine, e)) ↦
          let (_, u, h, h') =
            continue-go (create_adoption server database a.identifier arn engine run s)
              (λ _. loop server database run ds rs rest true) {b = false} {s = t} (ground arith) in
          absurd (distinct_bools (loop-go rest true u h').0)
    ]

  module _ (client : DatabaseClient S D) where
    -- The databases and the adopted resources of the inventory's namespace, as they are read from
    -- state `s`, with `v` left.
    pub record Lists (ds : List D) (rs : List AdoptedResource) (s v : S) : Type 0 where
      pub u : S
      pub databases : client.list run.inventory.meta.namespace s ≡ (ok ds, u)
      pub resources : server.list_adopted_resources run.inventory.meta.namespace u ≡ (ok rs, v)

    -- The adoptions that a reconciliation made.
    pub record Made (listed : List AwsDatabase) (s t : S) : Type 0 where
      pub ds : List D
      pub rs : List AdoptedResource
      pub v : S
      pub read : Lists ds rs s v
      pub made : List AwsDatabase
      pub calls : Calls server database run made v t
      pub exact :
          (a : AwsDatabase)
          → Memᴰ a made ↔ (
              Memᴰ a listed
              × (arn : String) × (engine : String) × Wanted server database ds rs a arn engine)

    requeue-stop :
        (b : Bool) (s : S) {run' : Run} {t : S}
        → requeue_adopting server database run b s ≡ (stop run', t)
        → s ≡ t
    unfolding requeue_adopting
    requeue-stop true s h = ground arith
    requeue-stop false s h = ground arith

    requeue-go :
        (b : Bool) (s : S) {u : Unit {0}} {t : S}
        → requeue_adopting server database run b s ≡ (go u, t)
        → (b ≡ false) × (s ≡ t)
    unfolding requeue_adopting
    requeue-go true s h = (ground arith, ground arith)
    requeue-go false s h = (refl, ground arith)

    -- adoptDBInstances and adoptDBClusters, with the databases that AWS lists, stop to look again
    -- later (which resets the condition) only behind these calls: the databases and the adopted
    -- resources of the namespace are read, and then exactly the wanted databases of the list are
    -- adopted, one behind the other: those that have an ARN and an engine of the kind, are in no
    -- cluster and are not being deleted, where no database of the namespace and no adopted resource
    -- has the ARN.
    pub adopt_databases-Made :
        (listed : List AwsDatabase) (s : S) {run' : Run} {t : S}
        → adopt_databases server database client listed run s ≡ (stop run', t)
        → run.sync_reset ≡ false
        → run'.sync_reset ≡ true
        → Made listed s t
    unfolding adopt_databases
    adopt_databases-Made [] s h before after = ground arith
    adopt_databases-Made (a ∷ rest) s {run' = run'} {t = t} h before after =
        elim (continue-stop (or_get_error server database run _) _ h) [
          | inl e ↦ absurd (changed (or_get_error-stop server run database _ e).sync_reset)
          | inr (ds, u, e, h) ↦ elim (continue-stop (or_get_error server database run _) _ h) [
            | inl e' ↦ absurd (changed (or_get_error-stop server run database _ e').sync_reset)
            | inr (rs, v, e', h) ↦
                elim (continue-stop (loop server database run ds rs (a ∷ rest) false v) _ h) [
                  | inl e'' ↦ absurd (changed (loop-stop ds rs (a ∷ rest) false v e''))
                  | inr (b, w, e'', h) ↦ record {
                    ds = ds;
                    rs = rs;
                    v = v;
                    read = record {
                      u = u;
                      databases = or_get_error-go server run database _ e;
                      resources = or_get_error-go server run database _ e';
                    };
                    made = selected (judge server database run ds rs) (a ∷ rest);
                    calls =
                        subst
                          (λ w.
                            Calls server database run
                              (selected (judge server database run ds rs) (a ∷ rest)) v w)
                          (requeue-stop b w h)
                          (adopt_each-Calls server database run ds rs (a ∷ rest) false v e'');
                    exact = selected-Wanted server database run ds rs (a ∷ rest);
                  }
                ]
          ]
        ]
      where
        changed : run'.sync_reset ≡ run.sync_reset → ⊥
        changed same = distinct_bools (sym after ∙ same ∙ before)

    -- What holds when nothing is left to adopt.
    pub record Settled (listed : List AwsDatabase) (s t : S) : Type 0 where
      pub ds : List D
      pub rs : List AdoptedResource
      pub read : Lists ds rs s t
      pub settled :
          (a : AwsDatabase) (arn engine : String)
          → Memᴰ a listed
          → Eligible server database ds a arn engine
          → IsAdopted server database rs arn

    -- adoptDBInstances and adoptDBClusters go on with the databases that AWS lists only where there
    -- are none, or where the databases and the adopted resources of the namespace were read, no
    -- other call was made, and each database of the list that is eligible and that no database of
    -- the namespace stands for has an adopted resource that the RDS controller has adopted.
    pub adopt_databases-Settled :
        (listed : List AwsDatabase) (s : S) {u : Unit {0}} {t : S}
        → adopt_databases server database client listed run s ≡ (go u, t)
        → ((listed ≡ []) × (s ≡ t)) ⊎ Settled listed s t
    unfolding adopt_databases
    adopt_databases-Settled [] s h = inl (refl, ground arith)
    adopt_databases-Settled (a ∷ rest) s {t = t} h =
        let (ds, u, e, h) = continue-go (or_get_error server database run _) _ h in
        let (rs, v, e', h) = continue-go (or_get_error server database run _) _ h in
        let (b, w, e'', h) = continue-go (loop server database run ds rs (a ∷ rest) false v) _ h in
        let (eb, es) = requeue-go b w h in
        let (_, same, left) = loop-go ds rs (a ∷ rest) false v (e'' ∙ ap (λ b. (go b, w)) eb) in
        inr (record {
          ds = ds;
          rs = rs;
          read = record {
            u = u;
            databases = or_get_error-go server run database _ e;
            resources = or_get_error-go server run database _ e' ∙ ap (λ v. (ok rs, v)) (same ∙ es);
          };
          settled = λ a arn engine m eligible.
              leave-IsAdopted server database ds rs a arn engine (left a m) eligible;
        })
