-- ===== src/Groups.antt =====
-- pkg/ingress/group.go: the Ingresses that share a load balancer, and the identity of their group.
pub mod Members
use Prim.Native.String.{◌++◌}
use garden_extension_f5_loca.Prelude.{
  Bool, List, String, [], if◌then◌else◌, int_eq, nat_eq, sort_by, string_eq, ◌&&◌, ◌==◌, ◌∷◌,
}
use garden_extension_f5_loca.Dict.{lookup_text}
use garden_extension_f5_loca.Model.{Owner}
use garden_extension_f5_loca.Text.{trim_space}
use garden_extension_f5_loca.Text.Order.{string_order}

-- What the code reads of an Ingress here.
pub record Candidate : Type 0 where
  pub namespace : String
  pub name : String
  pub annotations : List (String × String)

abbrev vip_group_key : String
vip_group_key = "f5.extensions.gardener.cloud/vip-group"

-- The trimmed annotation.
unfoldable pub group_of : Candidate → String
group_of c = trim_space (lookup_text vip_group_key c.annotations)

-- The test of one candidate.
unfoldable pub belongs : Candidate → Candidate → Bool
belongs anchor c =
    c.namespace == anchor.namespace
    && (if group_of anchor == "" then c.name == anchor.name else group_of c == group_of anchor)

unfoldable pub select : (Candidate → Bool) → List Candidate → List Candidate
select test [] = []
select test (c ∷ candidates) =
    let rest = select test candidates in if test c then c ∷ rest else rest

abbrev pub or_anchor : Candidate → List Candidate → List Candidate
or_anchor anchor [] = anchor ∷ []
or_anchor anchor (c ∷ members) = c ∷ members

-- groupIdentity
unfoldable pub group_identity : String → String → String → String
group_identity namespace group fallback =
    if trim_space group == ""
    then "ingress/" ++ namespace ++ "/" ++ fallback
    else "ingress-group/" ++ namespace ++ "/" ++ group

-- GroupOwner
unfoldable group_owner : String → String → Owner
group_owner namespace identity = record {
  kind = "IngressGroup";
  namespace = namespace;
  name = identity;
  uid = "";
}

-- ResolveGroup, for an anchor that is not nil.
unfoldable pub resolve_group : Candidate → List Candidate → List Candidate × String
resolve_group anchor candidates = (
  sort_by string_order (λ c. c.name) (or_anchor anchor (select (belongs anchor) candidates)),
  group_identity anchor.namespace (group_of anchor) anchor.name,
)
