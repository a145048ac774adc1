-- ===== src/Authd/Service.antt =====
-- The service that `connect_authd` asks for (`nfcssl_service_name`, openvixdisklib/nfc_auth.py).
use open_vix_disk_lib.Prelude.{
  ◌+◌, ◌-◌, ◌≡◌, refl, inl, inr, arith, true, ◌++◌, codes, length, drop, length-append,
  drop-append_exact, le→leb, text_eq_refl, Bool-cases,
}
use open_vix_disk_lib.Text.{Text, ends_with}
use open_vix_disk_lib.Authd.{nfcssl_service_name}

ends_with_append : (s suffix : Text) → ends_with (s ++ suffix) suffix ≡ true
unfolding ends_with
ends_with_append s suffix =
    let l : length (s ++ suffix) ≡ length s + length suffix = length-append s suffix in
    let d : drop (length (s ++ suffix) - length suffix) (s ++ suffix) ≡ suffix =
      drop-append_exact s suffix (length (s ++ suffix) - length suffix) (omega arith) in
    rw (le→leb (length suffix) (length (s ++ suffix)) (omega arith), d) (text_eq_refl suffix)

-- The service name that `nfcssl_service_name` returns ends with `ssl`, and a second call returns it
-- unchanged.
ends_with-nfcssl_service_name :
    (service : Text)
    → (ends_with (nfcssl_service_name service) (codes "ssl") ≡ true)
      × (nfcssl_service_name (nfcssl_service_name service) ≡ nfcssl_service_name service)
unfolding nfcssl_service_name
ends_with-nfcssl_service_name service = elim (Bool-cases (ends_with service (codes "ssl"))) [
  | inl secure ↦ rw secure (secure, rw secure refl)
  | inr plain ↦
      let e : ends_with (service ++ codes "ssl") (codes "ssl") ≡ true =
        ends_with_append service (codes "ssl") in
      rw plain (e, rw e refl)
]
