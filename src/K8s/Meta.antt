-- ===== src/K8s/Meta.antt =====
-- apimachinery's functions on conditions and controller-runtime's on finalizers, which the program
-- calls and does not implement, with what their documentation says of them.
use rds_dbaas_operator.Prelude.{String, ◌≡◌, ◌≢◌, Bool, true, false, Option, none, some, List}
use rds_dbaas_operator.K8s.{Condition, ObjectMeta}

pub record Meta : Type 0 where
  -- apimeta.SetStatusCondition, RemoveStatusCondition and FindStatusCondition
  pub set_status_condition : List Condition → Condition → List Condition
  pub remove_status_condition : List Condition → String → List Condition
  pub find_status_condition : List Condition → String → Option Condition
  -- controllerutil.ContainsFinalizer, AddFinalizer and RemoveFinalizer
  pub contains_finalizer : ObjectMeta → String → Bool
  pub add_finalizer : ObjectMeta → String → ObjectMeta
  pub remove_finalizer : ObjectMeta → String → ObjectMeta

-- `c` says what `d` says, up to the time of its last transition.
pub record SameCondition (c d : Condition) : Type 0 where
  pub type : c.type ≡ d.type
  pub status : c.status ≡ d.status
  pub reason : c.reason ≡ d.reason
  pub message : c.message ≡ d.message

pub record MetaLaws (meta : Meta) : Type 0 where
  -- A condition that was set is found under its type.
  pub find-set :
      (cs : List Condition) (c : Condition)
      → (found : Condition) × (meta.find_status_condition (meta.set_status_condition cs c) c.type
          ≡ some found)
        × SameCondition found c
  -- Setting one condition leaves those of the other types alone.
  pub find-set_ne :
      (cs : List Condition) (c : Condition) (type : String)
      → type ≢ c.type
      → meta.find_status_condition (meta.set_status_condition cs c) type
        ≡ meta.find_status_condition cs type
  -- A condition that was removed is not found.
  pub find-remove :
      (cs : List Condition) (type : String)
      → meta.find_status_condition (meta.remove_status_condition cs type) type ≡ none
  pub contains-add :
      (o : ObjectMeta) (f : String) → meta.contains_finalizer (meta.add_finalizer o f) f ≡ true
  pub contains-remove :
      (o : ObjectMeta) (f : String) → meta.contains_finalizer (meta.remove_finalizer o f) f ≡ false
