-- ===== src/Observed.antt =====
-- pkg/model/model.go, the observed graph: the provider resources that earlier runs recorded. A Go map
-- is an association list with one entry for each key, and a nil map is the empty one.
use garden_extension_f5_loca.Prelude.{
  List, String, [], if◌then◌else◌, int_eq, nat_eq, none, some, string_eq, ◌==◌,
}
use garden_extension_f5_loca.Dict.{insert, lookup}
use garden_extension_f5_loca.Model.{Ownership}

pub record ObservedResource : Type 0 where
  pub logical_id : String
  pub external_id : String
  pub name : String
  pub address : String
  pub desired_hash : String
  pub ownership : Ownership

abbrev pub Bucket : Type 0
Bucket = List (String × ObservedResource)

pub record ObservedGraph : Type 0 where
  pub lb_services : Bucket
  pub vips : Bucket
  pub virtual_servers : Bucket
  pub pools : Bucket
  pub members : Bucket
  pub monitors : Bucket
  pub routing_rules : Bucket
  pub certificates : Bucket

-- NewObservedGraph
abbrev pub new_observed_graph : ObservedGraph
new_observed_graph = record {
  lb_services = [];
  vips = [];
  virtual_servers = [];
  pools = [];
  members = [];
  monitors = [];
  routing_rules = [];
  certificates = [];
}

pub record ObservedState : Type 0 where
  pub graph : ObservedGraph
  pub lb_service_id : String
  pub vip_port_id : String
  pub vip_address : String
  pub virtual_server_id : String
  pub virtual_server_name : String

-- The zero value of Ownership.
abbrev blank_ownership : Ownership
blank_ownership = record {
  managed_by = "";
  cluster_uid = "";
  source_kind = "";
  source_namespace = "";
  source_name = "";
  source_uid = "";
  resource_role = "";
  shared_group = "";
}

abbrev legacy : String → String → String → String → ObservedResource
legacy key id name address = record {
  logical_id = key;
  external_id = id;
  name = name;
  address = address;
  desired_hash = "";
  ownership = blank_ownership;
}

-- A scalar id is mirrored into its bucket where it is given and its key is free.
unfoldable pub mirror : ObservedResource → Bucket → Bucket
mirror r bucket =
    let mirrored = insert r.logical_id r bucket in
    if r.external_id == ""
    then bucket
    else elim (lookup r.logical_id bucket) [ none ↦ mirrored | some _ ↦ bucket ]

-- EnsureGraph
unfoldable pub ensure_graph : ObservedState → ObservedState
ensure_graph s =
    let g = s.graph in
    record s {
      graph = record g {
        lb_services = mirror (legacy "legacy/lb-service" s.lb_service_id "" "") g.lb_services;
        vips = mirror (legacy "legacy/vip" s.vip_port_id "" s.vip_address) g.vips;
        virtual_servers =
            mirror (legacy "legacy/virtual-server" s.virtual_server_id s.virtual_server_name "")
              g.virtual_servers;
      };
    }
