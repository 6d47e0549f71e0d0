-- ===== src/DbUtils/Engine/Zones.antt =====
-- The default availability zone of a region.
use rds_dbaas_operator.Prelude.{
  String, ◌≡◌, refl, Bool, true, ◌&&◌, eq_iff, none, some, List, [], ◌∷◌, Dict, lookup, one_of,
  ◌<>◌, if◌then◌else◌, arith,
}
use rds_dbaas_operator.DbUtils.Names.{availability_zones}
use rds_dbaas_operator.DbUtils.Engine.{get_default_availability_zone, find_zone, zone_of}

abbrev pub keys {ℓ} : {V : Type ℓ} → Dict V → List String
keys [] = []
keys ((k, v) ∷ m) = k ∷ keys m

-- Every row lists the zone that ends in "a".
abbrev has_a_zones : Dict (List String) → Bool
has_a_zones [] = true
has_a_zones ((region, azs) ∷ m) = one_of (region <> "a") azs && has_a_zones m

find_zone_lem :
    (zone : String) (azs : List String)
    → find_zone zone azs ≡ (if one_of zone azs then some zone else none)
unfolding find_zone one_of
find_zone_lem zone [] = refl
find_zone_lem zone (az ∷ azs) =
    ground (arith, eq_iff az zone, eq_iff zone az, find_zone_lem zone azs)

zone_in_table :
    (region : String) (m : Dict (List String))
    → has_a_zones m ≡ true
    → zone_of (region <> "a") (lookup region m)
      ≡ (if one_of region (keys m) then some (region <> "a") else none)
unfolding zone_of lookup one_of
zone_in_table region [] h = refl
zone_in_table region ((r, azs) ∷ m) h = ground (
  arith,
  eq_iff r region,
  eq_iff region r,
  find_zone_lem (region <> "a") azs,
  zone_in_table region m,
)

-- The default zone of a region of the table is the region's name followed by "a"; a region that is
-- not in the table has none.
pub default_zone :
    (region : String)
    → get_default_availability_zone region
      ≡ (if one_of region (keys availability_zones) then some (region <> "a") else none)
unfolding get_default_availability_zone one_of
default_zone region = zone_in_table region availability_zones refl
