-- ===== src/Tests/Children.antt =====
-- Examples of the managers of pools, members, monitors and routing rules. The services answer as asked.
use garden_extension_f5_loca.Members
use garden_extension_f5_loca.Pools
use mathlib.Core.Path.{subst}
use garden_extension_f5_loca.Prelude.{
  All, List, String, [], false, int_eq, nat_eq, none, pos, refl, string_eq, true, ℕ, ◌+◌, ◌∷◌, ◌≡◌,
  ◌↔◌,
}
use garden_extension_f5_loca.Cmp.{PoolClient, PoolMemberResource, PoolMemberSpec, PoolResource}
use garden_extension_f5_loca.Dict.{contains, insert, lookup}
use garden_extension_f5_loca.Exec.{Exec, ok, ◌>>=◌}
use garden_extension_f5_loca.Members.{
  add_member, default_resource_type, delete_unwanted, existing_member, index_members, member_key,
  member_needs_update, pool_member_key, reconcile, reconcile_member, reconcile_members, spec_key,
}
use garden_extension_f5_loca.Members.Again.{ensure-answers, ensure_again}
use garden_extension_f5_loca.Members.Converged.{Agrees, AllFit, Echoes, Fits}
use garden_extension_f5_loca.Members.Deletions.{IsObsolete, deleted_ids, ensure-deleted_ids}
use garden_extension_f5_loca.Model.{Pool, ownership_for}
use garden_extension_f5_loca.Pools.{ensure_owned}
use garden_extension_f5_loca.Pools.Ownership.{StaysOurs, ensure_owned-StaysOurs}
use garden_extension_f5_loca.Tests.{differ}
use garden_extension_f5_loca.Text.{trim_space}
use garden_extension_f5_loca.Text.Decimal.{show}
use garden_extension_f5_loca.Text.Join.{join}

abbrev member_of : String → PoolMemberSpec → PoolMemberResource
member_of id spec = record {
  id = id;
  resource_id = spec.resource_id;
  resource_type = default_resource_type spec.resource_type;
  resource_ip = spec.resource_ip;
  backend_port_id = spec.backend_port_id;
  port = spec.port;
  weight = spec.weight;
}

abbrev spec_a : PoolMemberSpec
spec_a = record {
  resource_id = "node-1";
  resource_type = "compute";
  resource_ip = "10.1.0.4";
  backend_port_id = pos 9;
  port = pos 30080;
  weight = pos 1;
}

abbrev spec_b : PoolMemberSpec
spec_b = record spec_a { resource_id = "node-2"; resource_ip = "10.1.0.5" }

abbrev pool_a : PoolResource
pool_a = record {
  id = "pool-1";
  name = "web-pool";
  is_default = false;
  members = member_of "m-1" spec_a ∷ [];
}

abbrev pub pool_client : PoolClient ℕ
pool_client = record {
  list_pools = λ lb vs n. (ok (pool_a ∷ []), n + 1);
  create_pool = λ lb vs spec n. (ok pool_a, n + 1);
  delete_pool = λ lb vs id n. (ok tt, n + 1);
  set_default_pool = λ lb vs id n. (ok tt, n + 1);
  create_pool_member = λ lb vs pool spec n. (ok (member_of "m-9" spec), n + 1);
  update_pool_member = λ lb vs pool id spec n. (ok (member_of "m-1" spec), n + 1);
  delete_pool_member = λ lb vs pool id n. (ok tt, n + 1);
}

ok_injective : {A : Type 0} (a b : A) → ok a ≡ ok b → a ≡ b
ok_injective a b h = cc

pool_client-Echoes : Echoes pool_client
unfolding trim_space default_resource_type
pool_client-Echoes = record {
  created = λ lb vs pool spec n m h.
      subst (λ m. (Members.member_key m ≡ Members.spec_key spec) × Agrees spec m)
        (ok_injective (member_of "m-9" spec) m h) (refl, (refl, refl));
  updated = λ lb vs pool id spec n m h.
      subst (Fits spec) (ok_injective (member_of "m-1" spec) m h)
        (refl, (refl, refl), differ "m-1" "" refl);
}

abbrev desired_pool : Pool
desired_pool = record {
  name = "web-pool";
  service = "web";
  port_name = "http";
  port = pos 30080;
  members = [];
  monitor = none;
  ownership =
      ownership_for (record { kind = "Service"; namespace = "ns"; name = "web"; uid = "u" })
        "cluster" "pool" "";
}

-- The observed pool has a member of `spec_a`; the desired ones are `spec_a`, of another weight, and `spec_b`.
abbrev desired_members : List PoolMemberSpec
desired_members = record spec_a { weight = pos 2 } ∷ spec_b ∷ []

abbrev made_members : List PoolMemberResource
made_members = member_of "m-1" (record spec_a { weight = pos 2 }) ∷ member_of "m-9" spec_b ∷ []

ensure-answers_example : AllFit desired_members made_members
unfolding Members.ensure trim_space Members.reconcile garden_extension_f5_loca.Exec.◌>>=◌
    Members.reconcile_members Members.reconcile_member Members.existing_member
    garden_extension_f5_loca.Dict.lookup index_members Members.add_member Members.pool_member_key
    garden_extension_f5_loca.Text.Join.join garden_extension_f5_loca.Text.Decimal.show
    garden_extension_f5_loca.Dict.insert member_needs_update default_resource_type
    Members.delete_unwanted garden_extension_f5_loca.Dict.contains
ensure-answers_example =
    ensure-answers pool_client "lb-1" "vs-1" "pool-1" pool_a.members desired_members 0 made_members
      true pool_client-Echoes refl

ensure_again_example :
    (ms : List PoolMemberResource) × (Members.ensure pool_client "lb-1" "vs-1" "pool-1" made_members
        desired_members 2
      ≡ record { reply = ok (ms, false); world = 2; trace = [] })
unfolding Members.ensure trim_space Members.reconcile garden_extension_f5_loca.Exec.◌>>=◌
    Members.reconcile_members Members.reconcile_member Members.existing_member
    garden_extension_f5_loca.Dict.lookup index_members Members.add_member Members.pool_member_key
    garden_extension_f5_loca.Text.Join.join garden_extension_f5_loca.Text.Decimal.show
    garden_extension_f5_loca.Dict.insert member_needs_update default_resource_type
    Members.delete_unwanted garden_extension_f5_loca.Dict.contains
ensure_again_example =
    ensure_again pool_client "lb-1" "vs-1" "pool-1" pool_a.members desired_members 0 2 made_members
      true pool_client-Echoes refl (refl, (refl, tt))

ensure-deleted_ids_example :
    (contains "m-1" (
        deleted_ids
          (Members.ensure pool_client "lb-1" "vs-1" "pool-1" pool_a.members (spec_b ∷ []) 0).trace)
      ≡ true)
    ↔ IsObsolete pool_a.members (spec_b ∷ []) "m-1"
unfolding Members.ensure trim_space Members.reconcile garden_extension_f5_loca.Exec.◌>>=◌
    Members.reconcile_members Members.reconcile_member Members.existing_member
    garden_extension_f5_loca.Dict.lookup index_members Members.add_member Members.pool_member_key
    garden_extension_f5_loca.Text.Join.join garden_extension_f5_loca.Text.Decimal.show
    garden_extension_f5_loca.Dict.insert member_needs_update default_resource_type
    Members.delete_unwanted garden_extension_f5_loca.Dict.contains
ensure-deleted_ids_example =
    ensure-deleted_ids pool_client "lb-1" "vs-1" "pool-1" pool_a.members (spec_b ∷ []) 0
      (member_of "m-9" spec_b ∷ []) true refl "m-1"

ensure_owned-StaysOurs_example :
    All
      (StaysOurs pool_client "lb-1" "vs-1" (trim_space "pool-1") "web-pool" (pool_a ∷ []))
      (Pools.ensure_owned pool_client "lb-1" "vs-1" desired_pool
        (spec_b ∷ [])
        true
        "pool-1"
        0).trace
ensure_owned-StaysOurs_example =
    ensure_owned-StaysOurs pool_client "lb-1" "vs-1" desired_pool (spec_b ∷ []) true "pool-1" 0
