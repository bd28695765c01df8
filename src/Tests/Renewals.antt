-- ===== src/Tests/Renewals.antt =====
-- An example of the certificate manager: one certificate is bound, an older one removed.
use garden_extension_f5_loca.Prelude.{All, [], some, ℕ, ◌+◌, ◌∷◌}
use garden_extension_f5_loca.Certificates.{CertificateClient, CertificateResource, ensure}
use garden_extension_f5_loca.Certificates.Obsolete.{Removes, ensure-Removes}
use garden_extension_f5_loca.Exec.{ok}
use garden_extension_f5_loca.Model.{Certificate, Ownership, ownership_for}
use garden_extension_f5_loca.Observed.{Bucket}

abbrev listed_certificate : CertificateResource
listed_certificate = record {
  id = "cert-1";
  name = "web-tls";
  fingerprint = "AB";
  secret_name = "web-tls";
  certificate = "";
  private_key = "";
  ca = "";
  host_names = [];
}

abbrev certificate_client : CertificateClient ℕ
certificate_client = record {
  list_certificates = λ lb n. (ok (listed_certificate ∷ []), n + 1);
  upload_certificate = λ lb spec n. (ok listed_certificate, n + 1);
  delete_certificate = λ lb id n. (ok tt, n + 1);
  bind_certificate = λ lb vs id n. (ok tt, n + 1);
  unbind_certificate = λ lb vs id n. (ok tt, n + 1);
}

abbrev certificate_owner : Ownership
certificate_owner =
    ownership_for (record { kind = "Ingress"; namespace = "ns"; name = "web"; uid = "u" }) "cluster"
      "certificate" ""

abbrev desired_certificate : Certificate
desired_certificate = record {
  name = "web-tls";
  secret_name = "web-tls";
  hosts = [];
  fingerprint = "ab";
  certificate = "";
  private_key = "";
  ca = "";
  ownership = certificate_owner;
}

abbrev recorded_certificates : Bucket
recorded_certificates =
    (
      "old-tls",
      record {
        logical_id = "old-tls";
        external_id = "cert-0";
        name = "old-tls";
        address = "";
        desired_hash = "";
        ownership = certificate_owner;
      },
    )
    ∷ []

ensure-Removes_example :
    All
      (Removes "lb-1" "vs-1" (desired_certificate ∷ []) recorded_certificates)
      (ensure
        (some certificate_client)
        "lb-1"
        "vs-1"
        (desired_certificate ∷ [])
        recorded_certificates
        0).trace
ensure-Removes_example =
    ensure-Removes (some certificate_client) "lb-1" "vs-1" (desired_certificate ∷ [])
      recorded_certificates 0
