-- ===== src/Registry/Certs.antt =====
-- pkg/registry/registry.go: the certificates of a registry. The file system and the TLS library are an
-- argument. A pool of certificates is the list of the data that it was given.
use deviced.Base.{
  List, [], ◌∷◌, ◌++◌, Option, none, some, Bool, true, false, not, ◌&&◌, ◌||◌, ◌-◌, Bytes, codes,
  beq, has_suffix, if◌then◌else◌, take, length, ◌≡◌, ap, ◌∙◌, All, Option-cases, inl, inr, arith,
}

-- What the program sets of `tls.Config`.
pub record ClientTls : Type 0 where
  pub insecure_skip_verify : Bool
  pub root_cas : List Bytes
  pub certificates : List Bytes

pub data Listing : Type 0 where
  missing : Listing
  unreadable : Listing
  entries : List Bytes → Listing

-- A directory comes before the names of files in it; `server_default` is the TLS library's.
pub record CertStore : Type 0 where
  pub server_default : ClientTls
  pub join_path : Bytes → Bytes → Bytes
  pub read_dir : Bytes → Listing
  pub read_file : Bytes → Bytes → Option Bytes
  pub load_key_pair : Bytes → Bytes → Bytes → Option Bytes

abbrev pub certs_dir : Bytes
certs_dir = codes "/etc/docker/certs.d"

unfoldable pub has_file : List Bytes → Bytes → Bool
has_file [] name = false
has_file (f ∷ files) name = beq f name || has_file files name

-- `certName[:len(certName)-5] + ".key"`
unfoldable pub key_of_cert : Bytes → Bytes
key_of_cert name = take (length name - 5) name ++ codes ".key"

-- `keyName[:len(keyName)-4] + ".cert"`
unfoldable pub cert_of_key : Bytes → Bytes
cert_of_key name = take (length name - 4) name ++ codes ".cert"

module _ (store : CertStore) (directory : Bytes) where
  open store use {read_file, load_key_pair}

  -- The three parts of the loop's body; `none` is an error.
  unfoldable pub add_root : Bytes → ClientTls → Option ClientTls
  add_root f tls =
      if has_suffix (codes ".crt") f
      then elim (read_file directory f) [
        | none ↦ none
        | some dat ↦ some (record tls { root_cas = tls.root_cas ++ (dat ∷ []) })
      ]
      else some tls

  unfoldable pub add_pair : List Bytes → Bytes → ClientTls → Option ClientTls
  add_pair files f tls =
      if not (has_suffix (codes ".cert") f)
      then some tls
      else if not (has_file files (key_of_cert f))
      then none
      else elim (load_key_pair directory f (key_of_cert f)) [
        | none ↦ none
        | some cert ↦ some (record tls { certificates = tls.certificates ++ (cert ∷ []) })
      ]

  unfoldable pub check_key : List Bytes → Bytes → ClientTls → Option ClientTls
  check_key files f tls =
      if has_suffix (codes ".key") f && not (has_file files (cert_of_key f)) then none else some tls

  unfoldable pub add_cert_file : List Bytes → Bytes → ClientTls → Option ClientTls
  add_cert_file files f tls = elim (add_root f tls) [
    | none ↦ none
    | some tls1 ↦ elim (add_pair files f tls1) [ none ↦ none | some tls2 ↦ check_key files f tls2 ]
  ]

  unfoldable pub add_cert_files : List Bytes → List Bytes → ClientTls → Option ClientTls
  add_cert_files files [] tls = some tls
  add_cert_files files (f ∷ fs) tls = elim (add_cert_file files f tls) [
    | none ↦ none
    | some tls' ↦ add_cert_files files fs tls'
  ]

  unfoldable pub add_listing : Listing → ClientTls → Option ClientTls
  add_listing missing tls = some tls
  add_listing unreadable tls = none
  add_listing (entries files) tls = add_cert_files files files tls

unfoldable pub read_certs_directory : CertStore → ClientTls → Bytes → Option ClientTls
read_certs_directory store tls directory =
    add_listing store directory (store.read_dir directory) tls

-- `certs_dir` is not empty; on this platform `cleanPath` changes nothing.
unfoldable pub new_tls_config : CertStore → Bytes → Bool → Option ClientTls
new_tls_config store hostname is_secure =
    let tls = record (store.server_default) { insecure_skip_verify = not is_secure } in
    if is_secure
    then read_certs_directory store tls (store.join_path certs_dir hostname)
    else some tls

-- A certificate has its key among the files, and a key has its certificate.
pub record HasPartner (files : List Bytes) (f : Bytes) : Type 0 where
  pub cert : has_suffix (codes ".cert") f ≡ true → has_file files (key_of_cert f) ≡ true
  pub key : has_suffix (codes ".key") f ≡ true → has_file files (cert_of_key f) ≡ true

module _ (store : CertStore) (directory : Bytes) (files : List Bytes) where
  add_root-flag :
      (f : Bytes) (tls : ClientTls) {after : ClientTls}
      → add_root store directory f tls ≡ some after
      → after.insecure_skip_verify ≡ tls.insecure_skip_verify
  unfolding add_root
  add_root-flag f tls {after} e = ground arith

  add_pair-partner :
      (f : Bytes) (tls : ClientTls) {after : ClientTls}
      → add_pair store directory files f tls ≡ some after
      → (after.insecure_skip_verify ≡ tls.insecure_skip_verify)
        × (has_suffix (codes ".cert") f ≡ true → has_file files (key_of_cert f) ≡ true)
  unfolding add_pair
  add_pair-partner f tls {after} e = (ground arith, ground arith)

  check_key-partner :
      (f : Bytes) (tls : ClientTls) {after : ClientTls}
      → check_key store directory files f tls ≡ some after
      → (after ≡ tls) × (has_suffix (codes ".key") f ≡ true → has_file files (cert_of_key f) ≡ true)
  unfolding check_key
  check_key-partner f tls {after} e = (ground arith, ground arith)

  add_cert_file-partner :
      (f : Bytes) (tls : ClientTls) {after : ClientTls}
      → add_cert_file store directory files f tls ≡ some after
      → (after.insecure_skip_verify ≡ tls.insecure_skip_verify) × HasPartner files f
  unfolding add_cert_file
  add_cert_file-partner f tls {after} e = elim (Option-cases (add_root store directory f tls)) [
    | inl n ↦ absurd (cc)
    | inr (tls1, r) ↦ elim (Option-cases (add_pair store directory files f tls1)) [
      | inl n ↦ absurd (no_pair tls1 n (rw (r, add_cert_file) at e))
      | inr (tls2, q) ↦
          let (same, checked) =
            check_key-partner f tls2 (with_pair tls1 tls2 q (rw (r, add_cert_file) at e)) in
          let (kept, paired) = add_pair-partner f tls1 q in
          (
            ap (λ (t : ClientTls). t.insecure_skip_verify) same ∙ (kept ∙ add_root-flag f tls r),
            record { cert = paired; key = checked },
          )
    ]
  ]
    where
      rest : ClientTls → Option ClientTls
      rest tls1 = elim (add_pair store directory files f tls1) [
        | none ↦ none
        | some tls2 ↦ check_key store directory files f tls2
      ]

      no_pair :
          (tls1 : ClientTls)
          → add_pair store directory files f tls1 ≡ none
          → rest tls1 ≡ some after
          → ⊥
      no_pair tls1 n h = ground arith

      with_pair :
          (tls1 tls2 : ClientTls)
          → add_pair store directory files f tls1 ≡ some tls2
          → rest tls1 ≡ some after
          → check_key store directory files f tls2 ≡ some after
      with_pair tls1 tls2 q h = ground arith

  pub add_cert_files-partner :
      (fs : List Bytes) (tls : ClientTls) {after : ClientTls}
      → add_cert_files store directory files fs tls ≡ some after
      → (after.insecure_skip_verify ≡ tls.insecure_skip_verify) × All (HasPartner files) fs
  unfolding add_cert_files
  add_cert_files-partner [] tls {after} e = (ground arith, tt)
  add_cert_files-partner (f ∷ fs) tls {after} e =
      elim (Option-cases (add_cert_file store directory files f tls)) [
        | inl n ↦ absurd (ground arith)
        | inr (mid, q) ↦
            let (kept, partner) = add_cert_file-partner f tls q in
            let (keeps, partners) = add_cert_files-partner fs mid (rw (q, add_cert_files) at e) in
            (keeps ∙ kept, (partner, partners))
      ]
