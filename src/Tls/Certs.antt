-- ===== src/Tls/Certs.antt =====
-- tls/certs.rs: the certificates of a directory.
use xx_url.Common.{
  Bool, Bytes, List, [], ◌∷◌, ◌++◌, Result, ok, err, panic, stuck, M, ◌>>=◌, pure, lift,
  bind_result, if◌then◌else◌,
}

-- An entry of a directory: its path, and whether it is a directory.
pub record Entry (Name : Type 0) : Type 0 where
  pub path : Name
  pub is_dir : Bool

-- The file system, the parser of PEM files and the store of rustls.
pub record CertLib (W Name Cert Store : Type 0) : Type 0 where
  pub root_certs_path : Name
  pub read : Name → M W Bytes
  pub read_dir : Name → M W (List (Result (Entry Name)))
  -- each certificate of a text, or an error
  pub certs : Bytes → List (Result Cert)
  pub empty : Store
  pub add_parsable_certificates : List Cert → Store → Store

-- `collect` of results: the first error, if there is one.
unfoldable pub collect : {A : Type 0} → List (Result A) → Result (List A)
collect [] = ok []
collect (r ∷ rs) =
    let rest = collect rs in bind_result r (λ a. bind_result rest (λ more. ok (a ∷ more)))

module _ {W Name Cert Store : Type 0} (lib : CertLib W Name Cert Store) where
  unfoldable pub try_load_certs : Name → M W (List Cert)
  unfolding collect
  try_load_certs path = do content ← lib.read path; lift (collect (lib.certs content))

  -- `if let Ok(mut loaded)`: what cannot be loaded is left out.
  abbrev pub or_nothing : Result (List Cert) × W → Result (List Cert) × W
  or_nothing (ok loaded, w) = (ok loaded, w)
  or_nothing (err _, w) = (ok [], w)
  or_nothing (panic, w) = (panic, w)
  or_nothing (stuck, w) = (stuck, w)

  unfoldable pub load_entries : List (Result (Entry Name)) → List Cert → M W (List Cert)
  unfolding try_load_certs
  load_entries [] certs = pure certs
  load_entries (next ∷ rest) certs = do
    entry ← lift next
    if entry.is_dir then load_entries rest certs else (do
      loaded ← (λ w. or_nothing (try_load_certs entry.path w))
      load_entries rest (certs ++ loaded))

  unfoldable pub try_load_ca_path : Name → Store → M W Store
  unfolding load_entries
  try_load_ca_path path store = do
    entries ← lib.read_dir path
    certs ← load_entries entries []
    pure (lib.add_parsable_certificates certs store)

  unfoldable pub load_system_certs : M W Store
  unfolding try_load_ca_path
  load_system_certs = try_load_ca_path lib.root_certs_path lib.empty
