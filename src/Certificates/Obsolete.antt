-- ===== src/Certificates/Obsolete.antt =====
-- CertificateManager.Ensure: which certificates a run removes.
use garden_extension_f5_loca.Prelude.{
  All, Bool, List, Option, String, [], arith, false, inl, inr, int_eq, nat_eq, none, refl, some,
  string_eq, true, ◌==◌, ◌||◌, ◌∷◌, ◌≡◌, ◌⊎◌,
}
use garden_extension_f5_loca.Certificates.{
  CertificateClient, CertificateEvent, CertificateMap, CertificateResource, CertificateRun,
  CertificateSpec, bind_to_virtual_server, bound_certificate, certificate_spec, delete_unreferenced,
  deleted_certificate, ensure, ensure_desired, is_desired, listed_certificates, reconcile,
  remove_certificate, settle_certificate, unbind_from_virtual_server, unbound_certificate, upload,
  uploaded_certificate,
}
use garden_extension_f5_loca.Exec.{Result-cases, ◌>>=◌}
use garden_extension_f5_loca.Exec.Rules.{Emits, Emits-bind, Emits-if, Emits-pure, Emits-wrapping}
use garden_extension_f5_loca.Model.{Certificate}
use garden_extension_f5_loca.Observed.{Bucket, ObservedResource}
use garden_extension_f5_loca.Text.{to_lower, trim_space}

-- The id is recorded under a key that no desired certificate has.
abbrev pub IsObsolete : List Certificate → String → Bucket → Type 0
IsObsolete desired id [] = ⊥
IsObsolete desired id ((key, r) ∷ observed) =
    ((id ≡ r.external_id) × (is_desired key desired ≡ false)) ⊎ IsObsolete desired id observed

-- Only obsolete certificates are unbound or deleted, all on the LB service and the virtual server.
abbrev pub Removes : String → String → List Certificate → Bucket → CertificateEvent → Type 0
Removes lb vs desired observed (listed_certificates on _) = on ≡ lb
Removes lb vs desired observed (uploaded_certificate on _ _) = on ≡ lb
Removes lb vs desired observed (deleted_certificate on id _) =
    (on ≡ lb) × IsObsolete desired id observed
Removes lb vs desired observed (bound_certificate on to id _) = (on ≡ lb) × (to ≡ vs)
Removes lb vs desired observed (unbound_certificate on from id _) =
    (on ≡ lb) × (from ≡ vs) × IsObsolete desired id observed

module _ {W : Type 0} (client : CertificateClient W) (lb vs : String) (desired : List Certificate)
    (observed : Bucket) where
  abbrev P : CertificateEvent → Type 0
  P = Removes lb vs desired observed

  bind-Removes : (id : String) → Emits P (bind_to_virtual_server client lb vs id)
  unfolding bind_to_virtual_server
  bind-Removes id = record { at = λ w. ground arith }

  upload-Removes :
      (cert : Certificate) (spec : CertificateSpec) → Emits P (upload client lb vs cert spec)
  unfolding upload ◌>>=◌
  upload-Removes cert spec = record { at = λ w. ground arith }

  settle_certificate-Removes :
      (cert : Certificate) (by_fingerprint by_name : CertificateMap)
      (found : Option CertificateResource)
      (rest : CertificateMap → CertificateMap → CertificateRun W (List ObservedResource × Bool))
      → ((f n : CertificateMap) → Emits P (rest f n))
      → Emits P (settle_certificate client lb vs cert by_fingerprint by_name found rest)
  unfolding settle_certificate
  settle_certificate-Removes cert by_fingerprint by_name (some r) rest h =
      Emits-bind _ _ (Emits-wrapping _ _ (bind-Removes r.id))
        λ a. Emits-bind _ _ (h by_fingerprint by_name) λ b. Emits-pure _
  settle_certificate-Removes cert by_fingerprint by_name none rest h =
      Emits-bind _ _ (upload-Removes cert (certificate_spec cert)) λ c.
        Emits-bind _ _ (Emits-wrapping _ _ (bind-Removes c.id))
          λ a. Emits-bind _ _ (h _ _) λ b. Emits-pure _

  ensure_desired-Removes :
      (certs : List Certificate) (by_fingerprint by_name : CertificateMap)
      → Emits P (ensure_desired client lb vs certs by_fingerprint by_name)
  unfolding ensure_desired
  ensure_desired-Removes [] by_fingerprint by_name = Emits-pure ([], false)
  ensure_desired-Removes (cert ∷ certs) by_fingerprint by_name =
      let rest = ensure_desired-Removes certs in
      Emits-if (to_lower (trim_space (certificate_spec cert).name) == "") _ _
        (λ e. rest by_fingerprint by_name)
        λ e. settle_certificate-Removes cert by_fingerprint by_name _ _ rest

  remove-Removes :
      (id : String) → IsObsolete desired id observed → Emits P (remove_certificate client lb vs id)
  unfolding remove_certificate unbind_from_virtual_server ◌>>=◌
  remove-Removes id o = record { at = λ w. ground arith }

  delete_unreferenced-Removes :
      (bucket : Bucket)
      → ((id : String) → IsObsolete desired id bucket → IsObsolete desired id observed)
      → Emits P (delete_unreferenced client lb vs desired bucket)
  unfolding delete_unreferenced
  delete_unreferenced-Removes [] h = Emits-pure false
  delete_unreferenced-Removes ((key, r) ∷ bucket) h =
      let rest = delete_unreferenced-Removes bucket (λ id o. h id (inr o)) in
      Emits-if (trim_space r.external_id == "" || is_desired key desired) _ _ (λ e. rest)
        λ e.
          Emits-bind _ _ (remove-Removes r.external_id (h r.external_id (inl (refl, ground arith))))
            λ a. Emits-bind _ _ rest λ b. Emits-pure true

  reconcile-Removes :
      (resources : List CertificateResource)
      → Emits P (reconcile client lb vs desired observed resources)
  unfolding reconcile
  reconcile-Removes resources =
      Emits-bind _ _ (ensure_desired-Removes desired _ _)
        λ a. Emits-bind _ _ (delete_unreferenced-Removes observed (λ id o. o)) λ b. Emits-pure _

-- Whatever CMP answers, every call of a run is on the LB service, every binding is to the virtual
-- server, and a certificate is unbound or deleted only if the graph records its id under a key that is
-- not the name of a desired certificate.
pub ensure-Removes :
    {W : Type 0} (manager : Option (CertificateClient W)) (lb vs : String)
    (desired : List Certificate) (observed : Bucket) (w : W)
    → All (Removes lb vs desired observed) (ensure manager lb vs desired observed w).trace
unfolding ensure ◌>>=◌
ensure-Removes none lb vs desired observed w = ground arith
ensure-Removes (some client) lb vs desired observed w =
    elim (Result-cases (client.list_certificates lb w).0) [
      | inl (resources, q) ↦ ground (
        arith,
        (reconcile-Removes client lb vs desired observed resources).at
            (client.list_certificates lb w).1,
      )
      | inr (e, q) ↦ ground arith
    ]
