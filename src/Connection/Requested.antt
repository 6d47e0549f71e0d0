-- ===== src/Connection/Requested.antt =====
-- Which connections are reconciled when a database service has changed.
use mathlib.Core.List.{Memᴰ}
use rds_dbaas_operator.Prelude.{
  sym, ap, ◌∙◌, String, ◌≡◌, refl, ◌↔◌, Bool, true, false, if◌then◌else◌, List, [], ◌∷◌, inl, inr,
  ◌⊎◌, some, arith, eq_iff, Bool-cases, ◌==◌,
}
use rds_dbaas_operator.K8s.{Result, ok, NamespacedName}
use rds_dbaas_operator.Crd.{RdsConnection}
use rds_dbaas_operator.Connection.Requests.{fits, requests_for, get_instance_connection_requests}

abbrev pub key_of : RdsConnection → NamespacedName
key_of c = record { namespace = c.meta.namespace; name = c.meta.name }

-- The inventory of the connection is in the namespace: by the reference, or by the connection's own
-- namespace where the reference has none.
abbrev pub Refers : String → RdsConnection → Type 0
Refers namespace c =
    ((c.inventory_ref.namespace ≡ "") × (c.meta.namespace ≡ namespace))
    ⊎ (¬ (c.inventory_ref.namespace ≡ "") × (c.inventory_ref.namespace ≡ namespace))

fits-Refers :
    (namespace : String) (c : RdsConnection) → fits namespace c ≡ true → Refers namespace c
unfolding fits
fits-Refers namespace c h = elim (Bool-cases (c.inventory_ref.namespace == "")) [
  | inl blank ↦ inl (
    ground (arith, eq_iff c.inventory_ref.namespace ""),
    ground (arith, eq_iff c.meta.namespace namespace),
  )
  | inr set ↦ inr (
    λ e. ground (arith, set, eq_iff c.inventory_ref.namespace "", e),
    ground (arith, eq_iff c.inventory_ref.namespace namespace),
  )
]

Refers-fits :
    (namespace : String) (c : RdsConnection) → Refers namespace c → fits namespace c ≡ true
unfolding fits
Refers-fits namespace c (inl (blank, own)) =
    ground (arith, eq_iff c.inventory_ref.namespace "", eq_iff c.meta.namespace namespace)
Refers-fits namespace c (inr (set, same)) = elim (Bool-cases (c.inventory_ref.namespace == "")) [
  | inl blank ↦ absurd (set (ground (arith, eq_iff c.inventory_ref.namespace "")))
  | inr other ↦ ground (arith, eq_iff c.inventory_ref.namespace namespace)
]

-- A connection of the list whose inventory is in the namespace, and that has the key.
abbrev pub Fitting : String → List RdsConnection → NamespacedName → Type 0
Fitting namespace cs k = (c : RdsConnection) × Memᴰ c cs × Refers namespace c × (key_of c ≡ k)

-- A key of a list with an optional head is the head, or stands behind it.
optional_head :
    (b : Bool) (x k : NamespacedName) (rest : List NamespacedName)
    → Memᴰ k (if b then x ∷ rest else rest)
    → ((b ≡ true) × (x ≡ k)) ⊎ Memᴰ k rest
optional_head true x k rest (Memᴰ.head e) = inl (refl, sym e)
optional_head true x k rest (Memᴰ.tail m) = inr m
optional_head false x k rest m = inr m

optional_tail :
    (b : Bool) (x k : NamespacedName) (rest : List NamespacedName)
    → Memᴰ k rest
    → Memᴰ k (if b then x ∷ rest else rest)
optional_tail true x k rest m = Memᴰ.tail m
optional_tail false x k rest m = m

taken_head :
    (b : Bool) (x k : NamespacedName) (rest : List NamespacedName)
    → b ≡ true
    → x ≡ k
    → Memᴰ k (if b then x ∷ rest else rest)
taken_head true x k rest h e = Memᴰ.head (sym e)
taken_head false x k rest h e = ground arith

requests_for_sound :
    (namespace : String) (cs : List RdsConnection) (k : NamespacedName)
    → Memᴰ k (requests_for namespace cs)
    → Fitting namespace cs k
unfolding requests_for
requests_for_sound namespace [] k m = elim m [ ]
requests_for_sound namespace (c ∷ cs) k m =
    elim (optional_head (fits namespace c) (key_of c) k (requests_for namespace cs) m) [
      | inl (fit, e) ↦ (c, Memᴰ.head refl, fits-Refers namespace c fit, e)
      | inr m' ↦
          let (d, at, fit, e) = requests_for_sound namespace cs k m' in (d, Memᴰ.tail at, fit, e)
    ]

requests_for_complete :
    (namespace : String) (cs : List RdsConnection) (k : NamespacedName)
    → Fitting namespace cs k
    → Memᴰ k (requests_for namespace cs)
unfolding requests_for
requests_for_complete namespace [] k (d, m, fit, key) = elim m [ ]
requests_for_complete namespace (c ∷ cs) k (d, Memᴰ.head e, fit, key) =
    taken_head (fits namespace c) (key_of c) k (requests_for namespace cs)
      (ap (fits namespace) (sym e) ∙ Refers-fits namespace d fit) (ap key_of (sym e) ∙ key)
requests_for_complete namespace (c ∷ cs) k (d, Memᴰ.tail at, fit, key) =
    optional_tail (fits namespace c) (key_of c) k (requests_for namespace cs)
      (requests_for_complete namespace cs k (d, at, fit, key))

-- Where the connections that name an identifier are listed without an error, the requests are
-- exactly the keys of those whose inventory is in the database's namespace: the namespace of the
-- reference to the inventory, or the connection's own where the reference has none.
pub get_instance_connection_requests-exact :
    {S : Type 0} (list_connections : String → S → Result (List RdsConnection) × S)
    (identifier namespace : String) (s : S) {cs : List RdsConnection} {t : S}
    → list_connections identifier s ≡ (ok cs, t)
    → (keys : List NamespacedName) × (get_instance_connection_requests list_connections
          (some identifier)
          namespace
          s
        ≡ (some keys, t))
      × ((k : NamespacedName) → Memᴰ k keys ↔ Fitting namespace cs k)
unfolding get_instance_connection_requests
get_instance_connection_requests-exact list_connections identifier namespace s {cs = cs} h = (
  requests_for namespace cs,
  ground arith,
  λ k. (requests_for_sound namespace cs k, requests_for_complete namespace cs k),
)
