-- ===== src/Prelude/Indexes.antt =====
-- What stands in a map that a loop over a list has written.
use mathlib.Core.List.{Memᴰ}
use Prim.Native.String.{String}
use mathlib.Core.Path.{◌≡◌, refl, sym, ap, ◌∙◌}
use mathlib.Core.Logic.{◌⊎◌, inl, inr}
use mathlib.Core.Bool.{true}
use mathlib.Core.Option.{Option, none, some}
use mathlib.Core.List.{List, [], ◌∷◌}
use native.Mathlib.Omega.{arith}
use text.Mathlib.TextEquality.{eq_iff}
use rds_dbaas_operator.Prelude.Tests.{is_some}
use rds_dbaas_operator.Prelude.Maps.{Dict, lookup, lookup-insert, insert_entry, index}

module _ {ℓ} {V : Type ℓ} where
  -- A value behind one write is the written one, or was there.
  entry-found :
      (e : Option (String × V)) (k : String) (m : Dict V) {v : V}
      → lookup k (insert_entry e m) ≡ some v
      → (lookup k m ≡ some v) ⊎ (e ≡ some (k, v))
  entry-found none k m h = inl h
  entry-found (some (j, w)) k m h = ground (arith, lookup-insert j k w m, eq_iff j k)

  entry-keeps :
      (e : Option (String × V)) (k : String) (m : Dict V)
      → is_some (lookup k m) ≡ true
      → is_some (lookup k (insert_entry e m)) ≡ true
  entry-keeps none k m h = h
  entry-keeps (some (j, w)) k m h = ground (arith, lookup-insert j k w m)

  entry-finds :
      (e : Option (String × V)) (k : String) (m : Dict V) {v : V}
      → e ≡ some (k, v)
      → is_some (lookup k (insert_entry e m)) ≡ true
  entry-finds none k m h = ground arith
  entry-finds (some (j, w)) k m h = ground (arith, lookup-insert j k w m, eq_iff j k)

  module _ {κ} {A : Type κ} (entry : A → Option (String × V)) where
    -- A value of an index was there before, or is that of an item of the list.
    pub index-found :
        (xs : List A) (k : String) (m : Dict V) {v : V}
        → lookup k (index entry xs m) ≡ some v
        → (lookup k m ≡ some v) ⊎ ((x : A) × Memᴰ x xs × (entry x ≡ some (k, v)))
    unfolding index
    index-found [] k m h = inl h
    index-found (x ∷ xs) k m h = elim (index-found xs k (insert_entry (entry x) m) h) [
      | inr (y, at, e) ↦ inr (y, Memᴰ.tail at, e)
      | inl before ↦ elim (entry-found (entry x) k m before) [
        | inl before ↦ inl before
        | inr e ↦ inr (x, Memᴰ.head refl, e)
      ]
    ]

    pub index-keeps :
        (xs : List A) (k : String) (m : Dict V)
        → is_some (lookup k m) ≡ true
        → is_some (lookup k (index entry xs m)) ≡ true
    unfolding index
    index-keeps [] k m h = h
    index-keeps (x ∷ xs) k m h =
        index-keeps xs k (insert_entry (entry x) m) (entry-keeps (entry x) k m h)

    -- The key of an item of the list is in the index.
    pub index-finds :
        (xs : List A) (x : A) (k : String) (m : Dict V) {v : V}
        → Memᴰ x xs
        → entry x ≡ some (k, v)
        → is_some (lookup k (index entry xs m)) ≡ true
    unfolding index
    index-finds [] x k m at e = elim at [ ]
    index-finds (y ∷ ys) x k m (Memᴰ.head same) e =
        index-keeps ys k (insert_entry (entry y) m)
          (entry-finds (entry y) k m (ap entry (sym same) ∙ e))
    index-finds (y ∷ ys) x k m (Memᴰ.tail at) e = index-finds ys x k (insert_entry (entry y) m) at e
