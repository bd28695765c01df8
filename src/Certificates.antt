-- ===== src/Certificates.antt =====
-- pkg/deploy/lbaas/certificate_manager.go: the certificates of one LB service and their binding to one
-- virtual server. Values that Go returns beside an error are dropped.
pub mod Obsolete
use garden_extension_f5_loca.Prelude.{
  Bool, List, Option, String, [], false, if◌then◌else◌, int_eq, nat_eq, none, some, string_eq, true,
  ◌==◌, ◌||◌, ◌∷◌,
}
use garden_extension_f5_loca.Dict.{insert, lookup}
use garden_extension_f5_loca.Exec.{
  Done, Exec, Result, call, errorf, pure, raise, wrapf, wrapping, ◌>>=◌, ◌>>◌,
}
use garden_extension_f5_loca.Model.{Certificate}
use garden_extension_f5_loca.Observed.{Bucket, ObservedResource}
use garden_extension_f5_loca.Text.{to_lower, trim_space}

pub record CertificateResource : Type 0 where
  pub id : String
  pub name : String
  pub fingerprint : String
  pub secret_name : String
  pub certificate : String
  pub private_key : String
  pub ca : String
  pub host_names : List String

pub record CertificateSpec : Type 0 where
  pub name : String
  pub fingerprint : String
  pub secret_name : String
  pub certificate : String
  pub private_key : String
  pub ca : String
  pub host_names : List String

-- A call and its answer, below the LB service.
pub data CertificateEvent : Type 0 where
  listed_certificates : String → Result (List CertificateResource) → CertificateEvent
  uploaded_certificate : String → CertificateSpec → Result CertificateResource → CertificateEvent
  deleted_certificate : String → String → Result Done → CertificateEvent
  bound_certificate : String → String → String → Result Done → CertificateEvent
  unbound_certificate : String → String → String → Result Done → CertificateEvent

-- CertificateClient
pub record CertificateClient (W : Type 0) : Type 0 where
  pub list_certificates : String → W → Result (List CertificateResource) × W
  pub upload_certificate : String → CertificateSpec → W → Result CertificateResource × W
  pub delete_certificate : String → String → W → Result Done × W
  pub bind_certificate : String → String → String → W → Result Done × W
  pub unbind_certificate : String → String → String → W → Result Done × W

abbrev pub CertificateRun : Type 0 → Type 0 → Type 0
CertificateRun W A = Exec CertificateEvent W A

abbrev pub CertificateMap : Type 0
CertificateMap = List (String × CertificateResource)

abbrev fold_key : String → String
fold_key s = to_lower (trim_space s)

abbrev put : String → CertificateResource → CertificateMap → CertificateMap
put key r by_key = if key == "" then by_key else insert key r by_key

-- byFingerprint and byName
unfoldable pub index_certificates :
    List CertificateResource → CertificateMap → CertificateMap → CertificateMap × CertificateMap
index_certificates [] by_fingerprint by_name = (by_fingerprint, by_name)
index_certificates (r ∷ resources) by_fingerprint by_name =
    let skip = index_certificates resources by_fingerprint by_name in
    let take =
      index_certificates resources (put (fold_key r.fingerprint) r by_fingerprint)
        (put (fold_key r.name) r by_name) in
    if trim_space r.id == "" then skip else take

unfoldable pub certificate_spec : Certificate → CertificateSpec
certificate_spec cert = record {
  name = if trim_space cert.name == "" then cert.secret_name else cert.name;
  fingerprint = trim_space cert.fingerprint;
  secret_name = cert.secret_name;
  certificate = cert.certificate;
  private_key = cert.private_key;
  ca = cert.ca;
  host_names = cert.hosts;
}

abbrev with_certificate_id : Option CertificateResource → Option CertificateResource
with_certificate_id none = none
with_certificate_id (some r) = if trim_space r.id == "" then none else some r

-- The listed or uploaded certificate of the fingerprint, or else of the name.
unfoldable pub find_certificate :
    CertificateSpec → CertificateMap → CertificateMap → Option CertificateResource
find_certificate spec by_fingerprint by_name =
    let fingerprint = fold_key spec.fingerprint in
    let found = if fingerprint == "" then none else lookup fingerprint by_fingerprint in
    elim found [
      | some r ↦ with_certificate_id (some r)
      | none ↦ with_certificate_id (lookup (fold_key spec.name) by_name)
    ]

abbrev observed_certificate : Certificate → CertificateResource → ObservedResource
observed_certificate cert r = record {
  logical_id = cert.name;
  external_id = r.id;
  name = r.name;
  address = "";
  desired_hash = "";
  ownership = cert.ownership;
}

-- Some desired certificate has the name.
unfoldable pub is_desired : String → List Certificate → Bool
is_desired key [] = false
is_desired key (cert ∷ desired) = key == cert.name || is_desired key desired

module _ {W : Type 0} (client : CertificateClient W) (lb_id vs_id : String) where
  -- bindToVirtualServer
  unfoldable pub bind_to_virtual_server : String → CertificateRun W Done
  bind_to_virtual_server id =
      if trim_space lb_id == "" || (trim_space vs_id == "" || trim_space id == "")
      then pure tt
      else call (client.bind_certificate lb_id vs_id id) (bound_certificate lb_id vs_id id)

  -- unbindFromVirtualServer
  unfoldable pub unbind_from_virtual_server : String → CertificateRun W Done
  unbind_from_virtual_server id =
      if trim_space lb_id == "" || (trim_space vs_id == "" || trim_space id == "")
      then pure tt
      else call (client.unbind_certificate lb_id vs_id id) (unbound_certificate lb_id vs_id id)

  abbrev bind_desired : Certificate → String → CertificateRun W Done
  bind_desired cert id =
      wrapping (wrapf "binding certificate %s to virtual server %s" (cert.name ∷ vs_id ∷ []))
        (bind_to_virtual_server id)

  unfoldable pub upload : Certificate → CertificateSpec → CertificateRun W CertificateResource
  upload cert spec = do
    created ←
        wrapping (wrapf "uploading certificate %s" (cert.name ∷ []))
          (call (client.upload_certificate lb_id spec) (uploaded_certificate lb_id spec))
    if trim_space created.id == ""
        then raise (errorf "CMP created certificate %s without a provider id" (cert.name ∷ []))
        else pure created

  -- One round of the loop over the desired certificates, and what follows it.
  unfoldable pub settle_certificate :
      Certificate
      → CertificateMap
      → CertificateMap
      → Option CertificateResource
      → (CertificateMap → CertificateMap → CertificateRun W (List ObservedResource × Bool))
      → CertificateRun W (List ObservedResource × Bool)
  settle_certificate cert by_fingerprint by_name (some r) rest = do
    bind_desired cert r.id
    (out, changed) ← rest by_fingerprint by_name
    pure (observed_certificate cert r ∷ out, changed)
  settle_certificate cert by_fingerprint by_name none rest = do
    let spec = certificate_spec cert
    created ← upload cert spec
    bind_desired cert created.id
    (out, changed) ←
        rest (put (fold_key created.fingerprint) created by_fingerprint)
          (insert (fold_key spec.name) created by_name)
    pure (observed_certificate cert created ∷ out, true)

  -- The loop over the desired certificates: what is observed now, and whether one was uploaded.
  unfoldable pub ensure_desired :
      List Certificate
      → CertificateMap
      → CertificateMap
      → CertificateRun W (List ObservedResource × Bool)
  ensure_desired [] by_fingerprint by_name = pure ([], false)
  ensure_desired (cert ∷ desired) by_fingerprint by_name =
      let spec = certificate_spec cert in
      let rest = ensure_desired desired in
      if fold_key spec.name == ""
      then rest by_fingerprint by_name
      else settle_certificate cert by_fingerprint by_name
          (find_certificate spec by_fingerprint by_name) rest

  unfoldable pub remove_certificate : String → CertificateRun W Done
  remove_certificate id = do
    wrapping (wrapf "unbinding certificate %s from virtual server %s" (id ∷ vs_id ∷ []))
        (unbind_from_virtual_server id)
    wrapping (wrapf "deleting unreferenced certificate %s" (id ∷ []))
        (call (client.delete_certificate lb_id id) (deleted_certificate lb_id id))

  -- The loop over the observed certificates.
  unfoldable pub delete_unreferenced : List Certificate → Bucket → CertificateRun W Bool
  delete_unreferenced desired [] = pure false
  delete_unreferenced desired ((key, r) ∷ observed) =
      let rest = delete_unreferenced desired observed in
      if trim_space r.external_id == "" || is_desired key desired
      then rest
      else do remove_certificate r.external_id; rest; pure true

-- What Ensure does with the listed certificates.
unfoldable pub reconcile :
    {W : Type 0}
    → CertificateClient W
    → String
    → String
    → List Certificate
    → Bucket
    → List CertificateResource
    → CertificateRun W (List ObservedResource × Bool)
reconcile client lb_id vs_id desired observed resources = do
  let (by_fingerprint, by_name) = index_certificates resources [] []
  (out, uploaded) ← ensure_desired client lb_id vs_id desired by_fingerprint by_name
  deleted ← delete_unreferenced client lb_id vs_id desired observed
  pure (out, uploaded || deleted)

-- CertificateManager.Ensure; `none` is a manager without a client.
unfoldable pub ensure :
    {W : Type 0}
    → Option (CertificateClient W)
    → String
    → String
    → List Certificate
    → Bucket
    → CertificateRun W (List ObservedResource × Bool)
ensure {W} manager lb_id vs_id desired observed =
    if trim_space lb_id == ""
    then raise (errorf "lb service id is required for certificate reconciliation" [])
    else elim manager [
      | none ↦ raise (errorf "certificate client is required" [])
      | some client ↦ do
        resources ←
            wrapping (wrapf "listing certificates for lb service %s" (lb_id ∷ []))
              (call (client.list_certificates lb_id) (listed_certificates lb_id))
        reconcile client lb_id vs_id desired observed resources
    ]
