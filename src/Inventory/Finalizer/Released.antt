-- ===== src/Inventory/Finalizer/Released.antt =====
-- When an inventory loses its finalizer.
use mathlib.Core.Path.{subst}
use rds_dbaas_operator.Prelude.{
  ap, sym, ◌∙◌, String, ◌≡◌, refl, ◌⊎◌, inl, inr, Bool, true, false, distinct_bools, Bool-cases,
  Option, none, some, List, [], ◌∷◌, All, arith,
}
use rds_dbaas_operator.K8s.{Result, ok, err, stop, go}
use rds_dbaas_operator.K8s.Steps.{continue-go, continue-stop}
use rds_dbaas_operator.Crd.{RdsInventory}
use rds_dbaas_operator.Inventory.Run.{
  Run, return_error, return_sync_reset, return_requeue_sync_reset,
}
use rds_dbaas_operator.Inventory.Controller.{stop_rds_controller}
use rds_dbaas_operator.Inventory.Server.{Server, AdoptedResource}
use rds_dbaas_operator.Inventory.Install.{
  attempt, create_or_update_secret, create_or_update_config_map,
}
use rds_dbaas_operator.Inventory.Attempts.{attempt-go, attempt-stop}
use rds_dbaas_operator.Inventory.Finalizer.{
  belongs, inventory_finalizer, delete_resource, delete_resources, removed, finalizer_updated,
  write_finalizer, release, deleted_or_release, finalize_by, finalize, check_finalizer,
}

module _ {S : Type 0} (server : Server S) where
  abbrev pub has_finalizer : RdsInventory → Bool
  has_finalizer i = server.client.meta.contains_finalizer i.meta inventory_finalizer

  delete_resource-stop_of :
      (d : Option String) (r : AdoptedResource) (run : Run) (s : S) {run' : Run} {t : S}
      → r.meta.deletion_timestamp ≡ d
      → delete_resource server r run s ≡ (stop run', t)
      → run'.inventory ≡ run.inventory
  unfolding delete_resource
  delete_resource-stop_of (some _) r run s e h = ground arith
  delete_resource-stop_of none r run s {run' = run'} {t = t} e h =
      (attempt-stop server run "Failed to delete AdoptedResource"
        (server.delete_adopted_resource r s) {run' = run'} {t = t} (ground arith)).inventory

  delete_resources-stop :
      (rs : List AdoptedResource) (b : Bool) (run : Run) (s : S) {run' : Run} {t : S}
      → delete_resources server rs b run s ≡ (stop run', t)
      → run'.inventory ≡ run.inventory
  unfolding delete_resources
  delete_resources-stop [] b run s h = ground arith
  delete_resources-stop (r ∷ rs) b run s {run' = run'} {t = t} h =
      elim (Bool-cases (belongs server run.inventory r)) [
        | inr other ↦ delete_resources-stop rs b run s {run' = run'} {t = t} (ground arith)
        | inl own ↦
            elim (continue-stop (delete_resource server r run s)
              (λ _. delete_resources server rs true run) {v = run'} {s = t} (ground arith)) [
                | inl e ↦ delete_resource-stop_of _ r run s refl e
                | inr (_, u, e, e') ↦ delete_resources-stop rs true run u e'
              ]
      ]

  -- The loop goes on with what it was given only where no resource belongs to the inventory.
  delete_resources-go :
      (rs : List AdoptedResource) (b : Bool) (run : Run) (s : S) {t : S}
      → delete_resources server rs b run s ≡ (go false, t)
      → (b ≡ false) × (s ≡ t) × All (λ r. belongs server run.inventory r ≡ false) rs
  unfolding delete_resources
  delete_resources-go [] b run s h = (ground arith, ground arith, tt)
  delete_resources-go (r ∷ rs) b run s {t = t} h =
      elim (Bool-cases (belongs server run.inventory r)) [
        | inr other ↦
            let (e, e', rest) = delete_resources-go rs b run s {t = t} (ground arith) in
            (e, e', (other, rest))
        | inl own ↦
            let (_, u, e, e') =
              continue-go (delete_resource server r run s)
                (λ _. delete_resources server rs true run) {b = false} {s = t} (ground arith) in
            absurd (distinct_bools (delete_resources-go rs true run u e').0)
      ]

  -- The calls behind the list of the adopted resources, from state `u`, when the finalizer goes.
  pub record Reset (run : Run) (u t : S) : Type 0 where
    pub v : S
    pub w : S
    pub x : S
    pub secret_reset : create_or_update_secret server none u ≡ (none, v)
    pub settings_reset : create_or_update_config_map server none v ≡ (none, w)
    pub stopped :
        stop_rds_controller server.deployments server.namespace false server.retries w ≡ (none, x)
    pub wrote : (server.update_inventory (removed server run.inventory) x).1 ≡ t

  finalizer_updated-stop :
      (run : Run) (x : Result RdsInventory × S) {run' : Run} {t : S}
      → finalizer_updated server run x ≡ (stop run', t)
      → x.1 ≡ t
  unfolding finalizer_updated
  finalizer_updated-stop run (ok i, s) h = ground arith
  finalizer_updated-stop run (err e, s) h = ground arith

  -- A handler that stopped either left the inventory alone or has made every call.
  release-Reset :
      (run : Run) (u : S) {run' : Run} {t : S}
      → release server run u ≡ (stop run', t)
      → (run'.inventory ≡ run.inventory) ⊎ Reset run u t
  unfolding release write_finalizer
  release-Reset run u h =
      elim (continue-stop (attempt server _ run (create_or_update_secret server none u)) _ h) [
        | inl e ↦ inl (attempt-stop server run _ _ e).inventory
        | inr (_, v, ev, h) ↦
            elim (continue-stop (attempt server _ run (create_or_update_config_map server none v)) _
              h) [
                | inl e ↦ inl (attempt-stop server run _ _ e).inventory
                | inr (_, w, ew, h) ↦ elim (continue-stop (attempt server _ run _) _ h) [
                  | inl e ↦ inl (attempt-stop server run _ _ e).inventory
                  | inr (_, x, ex, h) ↦ inr (record {
                    v = v;
                    w = w;
                    x = x;
                    secret_reset = attempt-go server run _ _ ev;
                    settings_reset = attempt-go server run _ _ ew;
                    stopped = attempt-go server run _ _ ex;
                    wrote = finalizer_updated-stop _ _ h;
                  })
                ]
              ]
      ]

  -- The adopted resources of the namespace are listed, none of them is the inventory's, and the
  -- controller is reset and stopped before the inventory is written.
  pub record Released (run : Run) (s t : S) : Type 0 where
    pub resources : List AdoptedResource
    pub u : S
    pub listed : server.list_adopted_resources run.inventory.meta.namespace s ≡ (ok resources, u)
    pub none_left : All (λ r. belongs server run.inventory r ≡ false) resources
    pub reset : Reset run u t

  behind_list :
      (run : Run) (x : Result (List AdoptedResource) × S) (s : S) {run' : Run} {t : S}
      → server.list_adopted_resources run.inventory.meta.namespace s ≡ x
      → finalize_by server run x ≡ (stop run', t)
      → (run'.inventory ≡ run.inventory) ⊎ Released run s t
  unfolding finalize_by deleted_or_release return_error return_requeue_sync_reset
  behind_list run (err e, u) s ex h = inl (ground arith)
  behind_list run (ok rs, u) s {t = t} ex h =
      elim (continue-stop (delete_resources server rs false run u) (deleted_or_release server run)
        h) [
          | inl e ↦ inl (delete_resources-stop rs false run u e)
          | inr (true, v, e, h) ↦ inl (ground arith)
          | inr (false, v, e, h) ↦
              let (_, same, left) = delete_resources-go rs false run u e in
              elim (release-Reset run v h) [
                | inl kept ↦ inl kept
                | inr reset ↦ inr (record {
                  resources = rs;
                  u = u;
                  listed = ex;
                  none_left = left;
                  reset = subst (λ v. Reset run v t) (sym same) reset;
                })
              ]
        ]

  check-Released_of :
      (d : Option String) (run : Run) (s : S) {run' : Run} {t : S}
      → run.inventory.meta.deletion_timestamp ≡ d
      → has_finalizer run.inventory ≡ true
      → check_finalizer server run s ≡ (stop run', t)
      → (run'.inventory ≡ run.inventory) ⊎ Released run s t
  unfolding check_finalizer finalize return_sync_reset
  check-Released_of none run s ed has h = ground arith
  check-Released_of (some _) run s {run' = run'} {t = t} ed has h =
      behind_list run (server.list_adopted_resources run.inventory.meta.namespace s) s {run' = run'}
        {t = t} refl (ground arith)

  -- Where the check of the finalizer stops with an inventory that has lost it, the adopted
  -- resources of the namespace were listed and none of them was the inventory's. Then the secret
  -- and the configmap of the RDS controller were reset, the controller was stopped, and the
  -- inventory was written without the finalizer, each call behind the success of the one in front.
  pub check_finalizer-Released :
      (run : Run) (s : S) {run' : Run} {t : S}
      → has_finalizer run.inventory ≡ true
      → check_finalizer server run s ≡ (stop run', t)
      → has_finalizer run'.inventory ≡ false
      → Released run s t
  check_finalizer-Released run s has h lost = elim (check-Released_of _ run s refl has h) [
    | inl kept ↦ absurd (distinct_bools (sym has ∙ ap has_finalizer (sym kept) ∙ lost))
    | inr released ↦ released
  ]
