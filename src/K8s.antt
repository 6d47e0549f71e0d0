-- ===== src/K8s.antt =====
-- What the controllers see of Kubernetes: errors of the API server, object metadata, conditions,
-- secrets and configmaps. The client itself is a parameter of each controller.
pub mod Meta
pub mod Steps
pub mod Results
use rds_dbaas_operator.Prelude.{
  String, Bool, true, false, Option, none, some, List, [], Dict, lookup,
}

-- The classes of errors that the code tells apart: errors.IsNotFound and errors.IsConflict.
pub data ErrorKind : Type 0 where
  not_found conflict other : ErrorKind

pub record Error : Type 0 where
  pub kind : ErrorKind
  pub message : String

-- fmt.Errorf
abbrev pub errorf : String → Error
errorf message = record { kind = other; message = message }

abbrev pub is_not_found : Error → Bool
is_not_found e = elim e.kind [ not_found ↦ true | conflict ↦ false | other ↦ false ]

abbrev pub is_conflict : Error → Bool
is_conflict e = elim e.kind [ not_found ↦ false | conflict ↦ true | other ↦ false ]

pub data Result {ℓ} (A : Type ℓ) : Type ℓ where
  ok : A → Result A
  err : Error → Result A

-- types.NamespacedName, and a client.ObjectKey
pub record NamespacedName : Type 0 where
  pub namespace : String
  pub name : String

-- The fields of metav1.ObjectMeta that the code reads or writes; an absent map is nil.
pub record ObjectMeta : Type 0 where
  pub name : String
  pub namespace : String
  pub labels : Option (Dict String)
  pub annotations : Option (Dict String)
  pub finalizers : List String
  pub deletion_timestamp : Option String

-- An index into a nil map finds nothing.
abbrev pub lookup_nil {ℓ} : {V : Type ℓ} → String → Option (Dict V) → Option V
lookup_nil k none = none
lookup_nil k (some m) = lookup k m

-- The metadata of an object that the code builds.
abbrev pub new_meta : String → String → ObjectMeta
new_meta name namespace = record {
  name = name;
  namespace = namespace;
  labels = none;
  annotations = none;
  finalizers = [];
  deletion_timestamp = none;
}

-- metav1.Condition; a zero transition time is absent.
pub record Condition : Type 0 where
  pub type : String
  pub status : String
  pub reason : String
  pub message : String
  pub last_transition_time : Option String

abbrev pub condition_true : String
condition_true = "True"

abbrev pub condition_false : String
condition_false = "False"

abbrev pub condition_unknown : String
condition_unknown = "Unknown"

-- v1.Secret; the bytes of a value are a text.
pub record Secret : Type 0 where
  pub meta : ObjectMeta
  pub entries : Option (Dict String)

pub record ConfigMap : Type 0 where
  pub meta : ObjectMeta
  pub entries : Option (Dict String)

pub record SecretKeyReference : Type 0 where
  pub name : String
  pub namespace : String
  pub key : String

-- controllerutil.OperationResult
pub data OperationResult : Type 0 where
  unchanged created updated : OperationResult

-- ctrl.Result, of which the code sets `Requeue` alone, and the error that goes with it.
pub record Reply : Type 0 where
  pub requeue : Bool
  pub error : Option Error

-- A handler of a reconciliation: it returns from Reconcile with the variables that it has set, it
-- panics (with the variables that the deferred function then finds), or it goes on.
pub data Step (R A : Type 0) : Type 0 where
  stop : R → Step R A
  crash : R → Step R A
  go : A → Step R A

abbrev pub Exec : Type 0 → Type 0 → Type 0 → Type 0
Exec S R A = S → Step R A × S

abbrev pub continue : {S R A B : Type 0} → Step R A × S → (A → Exec S R B) → Step R B × S
continue (stop v, s) f = (stop v, s)
continue (crash v, s) f = (crash v, s)
continue (go a, s) f = f a s

infixl 5 ◌>>=◌
abbrev pub ◌>>=◌ : {S R A B : Type 0} → Exec S R A → (A → Exec S R B) → Exec S R B
◌>>=◌ m f s = continue (m s) f
