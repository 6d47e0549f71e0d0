-- ===== src/Instance/Owners.antt =====
-- The request for the instance that owns a database.
use text.Mathlib.TextLemmas.{cons-append, nil-append}
use rds_dbaas_operator.Prelude.{String, ◌≡◌, ap, ◌∙◌, false, some, [], ◌∷◌, ◌<>◌, arith}
use rds_dbaas_operator.K8s.{ObjectMeta, lookup_nil}
use rds_dbaas_operator.Go.Strings.{is_space, is_blank}
use rds_dbaas_operator.RdsUtils.Names.{IsFree, slash-append, parse_namespaced_name-append}
use rds_dbaas_operator.Instance.Requests.{
  rds_instance_type, owner_request, get_owner_instance_requests,
}

is_blank-slash : (namespace name : String) → is_blank (namespace <> ("/" <> name)) ≡ false
unfolding is_blank is_space
is_blank-slash String.[] name = ap is_blank (nil-append ("/" <> name) ∙ slash-append name)
is_blank-slash (String.◌∷◌ c s) name =
    ap is_blank (cons-append c s ("/" <> name)) ∙ ground (arith, is_blank-slash s name)

-- A database that carries the owner's type and the text "namespace/name" of an instance, where the
-- namespace has no slash, gives exactly the request for this instance.
pub get_owner_instance_requests-owner :
    (type_annotation name_annotation : String) (o : ObjectMeta) (namespace name : String)
    → lookup_nil type_annotation o.annotations ≡ some rds_instance_type
    → lookup_nil name_annotation o.annotations ≡ some (namespace <> ("/" <> name))
    → IsFree b'/' namespace
    → get_owner_instance_requests type_annotation name_annotation o
      ≡ record { namespace = namespace; name = name } ∷ []
unfolding get_owner_instance_requests owner_request
get_owner_instance_requests-owner type_annotation name_annotation o namespace name typed named
      free =
    ground (
      arith,
      typed,
      named,
      is_blank-slash namespace name,
      parse_namespaced_name-append namespace name free,
    )
