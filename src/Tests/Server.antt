-- ===== src/Tests/Server.antt =====
-- A concrete instance of apimachinery's and controller-runtime's functions on metadata, a server
-- that stores what it is given, and a source of randomness that always draws zero.
use rds_dbaas_operator.Prelude.{
  ℕ, ◌<◌, String, ◌≡◌, ◌≢◌, refl, false, ◌==◌, eq_iff, eq_refl, Option, none, some, List, [], ◌∷◌,
  one_of, if◌then◌else◌, arith,
}
use rds_dbaas_operator.K8s.{Condition, Error, not_found}
use rds_dbaas_operator.K8s.Meta.{Meta, MetaLaws}
use rds_dbaas_operator.DbUtils.Password.{Random, RandomLaws}

unfoldable pub find_condition : List Condition → String → Option Condition
find_condition [] type = none
find_condition (c ∷ cs) type = if type == c.type then some c else find_condition cs type

unfoldable pub remove_condition : List Condition → String → List Condition
remove_condition [] type = []
remove_condition (c ∷ cs) type =
    let rest = remove_condition cs type in if type == c.type then rest else c ∷ rest

unfoldable pub remove_text : List String → String → List String
remove_text [] t = []
remove_text (u ∷ us) t = let rest = remove_text us t in if t == u then rest else u ∷ rest

abbrev pub test_meta : Meta
test_meta = record {
  set_status_condition = λ cs c. c ∷ remove_condition cs c.type;
  remove_status_condition = remove_condition;
  find_status_condition = find_condition;
  contains_finalizer = λ o f. one_of f o.finalizers;
  add_finalizer = λ o f. record o { finalizers = f ∷ o.finalizers };
  remove_finalizer = λ o f. record o { finalizers = remove_text o.finalizers f };
}

find-remove_lem :
    (cs : List Condition) (type : String) → find_condition (remove_condition cs type) type ≡ none
unfolding find_condition remove_condition
find-remove_lem [] type = refl
find-remove_lem (c ∷ cs) type = ground (arith, find-remove_lem cs type)

find-remove_ne :
    (cs : List Condition) (type type' : String)
    → type ≢ type'
    → find_condition (remove_condition cs type') type ≡ find_condition cs type
unfolding find_condition remove_condition
find-remove_ne [] type type' n = refl
find-remove_ne (c ∷ cs) type type' n =
    ground (arith, eq_iff type c.type, eq_iff type' c.type, find-remove_ne cs type type' n)

contains-remove_lem : (us : List String) (t : String) → one_of t (remove_text us t) ≡ false
unfolding remove_text one_of
contains-remove_lem [] t = refl
contains-remove_lem (u ∷ us) t = ground (arith, contains-remove_lem us t)

pub test_meta-laws : MetaLaws test_meta
unfolding find_condition one_of
test_meta-laws = record {
  find-set = λ cs c. (
    c,
    ground (arith, eq_refl c.type),
    record { type = refl; status = refl; reason = refl; message = refl },
  );
  find-set_ne = λ cs c type n. ground (arith, eq_iff type c.type, find-remove_ne cs type c.type n);
  find-remove = λ cs type. find-remove_lem cs type;
  contains-add = λ o f. ground (arith, eq_refl f);
  contains-remove = λ o f. contains-remove_lem o.finalizers f;
}

abbrev pub zero_random : Random (Unit {0})
zero_random = record { crypto_int = λ n r. (some 0, r); int31n = λ n r. (0, r) }

zero_same : {i : ℕ} → some 0 ≡ some i → i ≡ 0
zero_same e = ground arith

zero_below : {n i : ℕ} → 0 < n → some 0 ≡ some i → i < n
zero_below h e = omega (arith, h, zero_same e)

pub zero_random-laws : RandomLaws zero_random
zero_random-laws = record { crypto_int-lt = λ n r h e. zero_below h e; int31n-lt = λ n r h. h }

abbrev pub missing_object : Error
missing_object = record { kind = not_found; message = "not found" }
