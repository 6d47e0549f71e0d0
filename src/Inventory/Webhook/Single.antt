-- ===== src/Inventory/Webhook/Single.antt =====
-- How many inventories the admission lets into a cluster.
use rds_dbaas_operator.Prelude.{◌+◌, ◌≤◌, ◌≡◌, ap, none, List, [], ◌∷◌, ◌++◌, length, arith}
use rds_dbaas_operator.K8s.{Result, ok, err}
use rds_dbaas_operator.Crd.{RdsInventory}
use rds_dbaas_operator.Inventory.Webhook.{
  verify_inventory_created, validate_create, validate_update, validate_delete,
}

-- The webhook's list of inventories, by those that the cluster has: the client of the manager reads
-- from a cache, and it may fail.
abbrev pub Listing : Type 0
Listing = List RdsInventory → Result (List RdsInventory) × List RdsInventory

module _ (list : Listing) where
  -- The answers of the list are the cluster's inventories: the cache is not behind.
  abbrev pub IsCurrent : Type 0
  IsCurrent = (is js ks : List RdsInventory) → list is ≡ (ok js, ks) → js ≡ is

  -- One request that the webhook lets through, from the inventories before to those behind.
  pub data Step : List RdsInventory → List RdsInventory → Type 0 where
    created :
        {is js : List RdsInventory} (i : RdsInventory)
        → validate_create list is ≡ (none, js)
        → Step is (i ∷ is)
    updated :
        (is js : List RdsInventory) (old new : RdsInventory)
        → validate_update new old ≡ none
        → Step (is ++ (old ∷ js)) (is ++ (new ∷ js))
    deleted :
        (is js : List RdsInventory) (i : RdsInventory)
        → validate_delete i ≡ none
        → Step (is ++ (i ∷ js)) (is ++ js)

  -- The inventories that a cluster has had none in front of.
  pub data Reachable : List RdsInventory → Type 0 where
    start : Reachable []
    step : {is js : List RdsInventory} → Reachable is → Step is js → Reachable js

  length-append : (is js : List RdsInventory) → length (is ++ js) ≡ length is + length js
  length-append [] js = omega arith
  length-append (i ∷ is) js = omega (arith, length-append is js)

  listed_none :
      (x : Result (List RdsInventory) × List RdsInventory) {js : List RdsInventory}
      → verify_inventory_created x ≡ (none, js)
      → x ≡ (ok [], js)
  unfolding verify_inventory_created
  listed_none (err e, s) h = ground arith
  listed_none (ok [], s) h = ground arith
  listed_none (ok (i ∷ is), s) h = ground arith

  created_first :
      IsCurrent
      → (is : List RdsInventory) {js : List RdsInventory} → validate_create list is ≡ (none, js)
      → [] ≡ is
  unfolding validate_create
  created_first current is {js = js} h = current is [] js (listed_none (list is) h)

  step-le : IsCurrent → {is js : List RdsInventory} → Step is js → length is ≤ 1 → length js ≤ 1
  step-le current {is = is} (created i h) le = omega (arith, ap length (created_first current is h))
  step-le current (updated is js old new h) le =
      omega (arith, length-append is (old ∷ js), length-append is (new ∷ js))
  step-le current (deleted is js i h) le =
      omega (arith, length-append is (i ∷ js), length-append is js)

  -- Where each creation goes through the webhook, and where the list that the webhook reads is
  -- current when it does not fail: however inventories are created, updated and deleted, one
  -- request behind the other, a cluster that had none never has more than one.
  pub Reachable-le : IsCurrent → (is : List RdsInventory) → Reachable is → length is ≤ 1
  Reachable-le current _ start = omega arith
  Reachable-le current _ (step {is = is} r s) = step-le current s (Reachable-le current is r)
