-- ===== src/Inventory/Install/Settings.antt =====
-- What the configmap and the secret of the RDS controller hold.
use mathlib.Core.Path.{subst}
use rds_dbaas_operator.Prelude.{String, ◌≡◌, refl, Option, none, some, Dict, lookup, insert, arith}
use rds_dbaas_operator.K8s.{Result, ok, err, ObjectMeta, lookup_nil, Secret, ConfigMap}
use rds_dbaas_operator.Inventory.Controller.{Deployment}
use rds_dbaas_operator.Inventory.Server.{Server}
use rds_dbaas_operator.Inventory.Install.{
  value_of, controller_keys, override, controller_settings, controller_meta, mutate_secret,
  mutate_config_map,
}

-- `v`, or `d` where there is none.
abbrev pub value_or : String → Option String → String
value_or d none = d
value_or d (some v) = v

-- What the RDS controller finds in its environment, for the region, the log level and the tags.
pub record Settings (m : Option (Dict String)) (region level tags : String) : Type 0 where
  pub region_set : lookup_nil "AWS_REGION" m ≡ some region
  pub level_set : lookup_nil "ACK_LOG_LEVEL" m ≡ some level
  pub tags_set : lookup_nil "ACK_RESOURCE_TAGS" m ≡ some tags
  pub endpoint_set : lookup_nil "AWS_ENDPOINT_URL" m ≡ some ""
  pub namespace_set : lookup_nil "ACK_WATCH_NAMESPACE" m ≡ some ""
  pub logging_set : lookup_nil "ACK_ENABLE_DEVELOPMENT_LOGGING" m ≡ some "false"

controller_settings-Settings :
    (ref : Secret)
    → Settings
        (some (controller_settings (some ref)))
        (value_of "AWS_REGION" ref)
        (value_or "info" (lookup_nil "ACK_LOG_LEVEL" ref.entries))
        (value_or "rhoda" (lookup_nil "ACK_RESOURCE_TAGS" ref.entries))
unfolding controller_settings override lookup insert
controller_settings-Settings ref = record {
  region_set = ground arith;
  level_set = ground arith;
  tags_set = ground arith;
  endpoint_set = ground arith;
  namespace_set = ground arith;
  logging_set = ground arith;
}

reset-Settings : Settings (some (controller_settings none)) "dummy" "info" "rhoda"
unfolding controller_settings lookup insert
reset-Settings = record {
  region_set = refl;
  level_set = refl;
  tags_set = refl;
  endpoint_set = refl;
  namespace_set = refl;
  logging_set = refl;
}

-- The settings by the credentials secret of an inventory, or by none.
abbrev pub SetFor : Option Secret → Option (Dict String) → Type 0
SetFor none m = Settings m "dummy" "info" "rhoda"
SetFor (some ref) m =
    Settings m (value_of "AWS_REGION" ref)
      (value_or "info" (lookup_nil "ACK_LOG_LEVEL" ref.entries))
      (value_or "rhoda" (lookup_nil "ACK_RESOURCE_TAGS" ref.entries))

-- The two keys, likewise.
abbrev pub KeysFor : Option Secret → Option (Dict String) → Type 0
KeysFor none m =
    (lookup_nil "AWS_ACCESS_KEY_ID" m ≡ some "dummy")
    × (lookup_nil "AWS_SECRET_ACCESS_KEY" m ≡ some "dummy")
KeysFor (some ref) m =
    (lookup_nil "AWS_ACCESS_KEY_ID" m ≡ some (value_of "AWS_ACCESS_KEY_ID" ref))
    × (lookup_nil "AWS_SECRET_ACCESS_KEY" m ≡ some (value_of "AWS_SECRET_ACCESS_KEY" ref))

settings_for : (ref : Option Secret) → SetFor ref (some (controller_settings ref))
settings_for none = reset-Settings
settings_for (some ref) = controller_settings-Settings ref

keys_for : (ref : Option Secret) → KeysFor ref (some (controller_keys ref))
unfolding controller_keys lookup
keys_for none = (refl, refl)
keys_for (some ref) = (refl, refl)

module _ {S : Type 0} (server : Server S) where
  mutate_config_map-entries :
      (r : Result ObjectMeta) (d : Deployment) (ref : Option Secret) (cm : ConfigMap)
      {cm' : ConfigMap}
      → controller_meta server d cm.meta ≡ r
      → mutate_config_map server d ref cm ≡ ok cm'
      → some (controller_settings ref) ≡ cm'.entries
  unfolding mutate_config_map
  mutate_config_map-entries (err e) d ref cm er h = ground arith
  mutate_config_map-entries (ok m) d ref cm er h = ground arith

  mutate_secret-entries :
      (r : Result ObjectMeta) (d : Deployment) (ref : Option Secret) (secret : Secret)
      {secret' : Secret}
      → controller_meta server d secret.meta ≡ r
      → mutate_secret server d ref secret ≡ ok secret'
      → some (controller_keys ref) ≡ secret'.entries
  unfolding mutate_secret
  mutate_secret-entries (err e) d ref secret er h = ground arith
  mutate_secret-entries (ok m) d ref secret er h = ground arith

  -- The objects that the callbacks of CreateOrUpdate make for the RDS controller, whatever was
  -- there: the secret has the two keys of the given credentials, and the configmap their region,
  -- and their log level and tags or "info" and "rhoda"; without credentials the keys and the region
  -- are "dummy". The controller watches every namespace, at the default endpoint.
  pub mutate-Settings :
      (d : Deployment) (ref : Option Secret) (secret : Secret) (cm : ConfigMap) {secret' : Secret}
      {cm' : ConfigMap}
      → mutate_secret server d ref secret ≡ ok secret'
      → mutate_config_map server d ref cm ≡ ok cm'
      → KeysFor ref secret'.entries × SetFor ref cm'.entries
  mutate-Settings d ref secret cm h h' = (
    subst (KeysFor ref) (mutate_secret-entries _ d ref secret refl h) (keys_for ref),
    subst (SetFor ref) (mutate_config_map-entries _ d ref cm refl h') (settings_for ref),
  )
