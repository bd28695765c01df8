-- ===== src/Stacks/Hashes.antt =====
-- The hashes of a listener's desired state.
use garden_extension_f5_loca.Prelude.{
  List, Perm, String, int_order, pair_order, refl, sort_by-Perm, ℤ, ◌≡◌,
}
use garden_extension_f5_loca.Model.{BackendMember, VirtualServer}
use garden_extension_f5_loca.Stacks.{
  backend_key, backend_order, backends_text, desired_backend_hash, desired_virtual_server_hash,
  virtual_server_text,
}
use garden_extension_f5_loca.Text.Order.{string_order}
-- The hash of the backends does not depend on the order in which they are given, whatever the digest.
use garden_extension_f5_loca.Prelude.{List, Perm, String, pair_order, refl, sort_by-Perm, ℤ, ◌≡◌}
use garden_extension_f5_loca.Model.{BackendMember}
use garden_extension_f5_loca.Stacks.{
  backend_key, backends_text, desired_backend_hash, desired_virtual_server_hash,
  virtual_server_text,
}
use garden_extension_f5_loca.Text.Order.{string_order}

pub desired_backend_hash-Perm :
    (sha256_hex : String → String) (frontend_port node_port : ℤ) {xs ys : List BackendMember}
    → Perm xs ys
    → desired_backend_hash sha256_hex frontend_port node_port xs
      ≡ desired_backend_hash sha256_hex frontend_port node_port ys
unfolding desired_backend_hash backends_text
desired_backend_hash-Perm sha256_hex frontend_port node_port p =
    rw (sort_by-Perm backend_order backend_key p) refl

-- Two desired listeners that differ in the order of their source ranges and of their backends only have the
-- same hash, whatever the digest.
pub desired_virtual_server_hash-Perm :
    (sha256_hex : String → String) (vs : VirtualServer) (ranges : List String)
    {xs ys : List BackendMember}
    → Perm vs.source_ranges ranges
    → Perm xs ys
    → desired_virtual_server_hash sha256_hex vs xs
      ≡ desired_virtual_server_hash sha256_hex (record vs { source_ranges = ranges }) ys
unfolding desired_virtual_server_hash virtual_server_text
desired_virtual_server_hash-Perm sha256_hex vs ranges p q =
    rw
      (
        sort_by-Perm string_order (λ s. s) p,
        desired_backend_hash-Perm sha256_hex vs.frontend_port vs.backend_node_port q,
      )
      refl
