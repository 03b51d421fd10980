-- ===== src/Credential.antt =====
-- crates/tributary/src/credential.rs: the client certificate, validated before it replaces the one in
-- use. PEM, X.509 and the client that is built to try a pair are libraries', as arguments; a file that
-- cannot be read is none. What stands behind locks and atomics is a field of the state.
pub mod Live
mod Examples
use tributary.Prelude.{
  ℕ, Bool, true, false, List, [], ◌∷◌, ◌++◌, Option, none, some, Text, text_eq, text_has_eq,
  if◌then◌else◌, ◌&&◌, ◌==◌, u64_add, strip_suffix,
}
use tributary.Prelude.Int.{ℤ, leb_ℤ}

pub record Identity : Type 0 where
  pub pem : Text
  pub not_after_epoch : ℤ
  pub common_name : Option Text

pub data CredentialError : Type 0 where
  io invalid no_certificate no_key : CredentialError
  expired : ℤ → CredentialError

pub data Loaded : Type 0 where
  ok : Identity → Loaded
  err : CredentialError → Loaded

-- `certs` and `private_key` of rustls_pemfile; the end of a certificate's validity and its name by
-- x509_parser; whether a client with the pair can be built, and the identity read from its PEM at all.
pub record Library (Cert Key : Type 0) : Type 0 where
  pub certs : Text → Option (List Cert)
  pub private_key : Text → Option (Option Key)
  pub parse : Cert → Option (ℤ × Option Text)
  pub builds : Text → Bool

-- A newline between the certificate and the key.
unfoldable pub with_newline : Text → Text
unfolding strip_suffix
with_newline pem = elim (strip_suffix (b'\n' ∷ []) pem) [ none ↦ pem ++ b'\n' ∷ [] | some s ↦ pem ]

module _ {Cert Key : Type 0} (lib : Library Cert Key) (now : ℤ) where
  -- The expiry of the leaf, and the trial client.
  unfoldable pub check_leaf : Text → Text → Option (ℤ × Option Text) → Loaded
  unfolding with_newline
  check_leaf cert_pem key_pem none = err invalid
  check_leaf cert_pem key_pem (some (not_after, cn)) =
      let pem = with_newline cert_pem ++ key_pem in
      if leb_ℤ not_after now
      then err (expired not_after)
      else if lib.builds pem
      then ok (record { pem = pem; not_after_epoch = not_after; common_name = cn })
      else err invalid

  unfoldable pub check_key : Text → Text → Cert → Option (Option Key) → Loaded
  unfolding check_leaf
  check_key cert_pem key_pem leaf none = err invalid
  check_key cert_pem key_pem leaf (some none) = err no_key
  check_key cert_pem key_pem leaf (some (some key)) = check_leaf cert_pem key_pem (lib.parse leaf)

  unfoldable pub check_certs : Text → Text → Option (List Cert) → Loaded
  unfolding check_key
  check_certs cert_pem key_pem none = err invalid
  check_certs cert_pem key_pem (some []) = err no_certificate
  check_certs cert_pem key_pem (some (leaf ∷ chain)) =
      check_key cert_pem key_pem leaf (lib.private_key key_pem)

  -- The two files, read one after the other.
  unfoldable pub load_pair : Option Text → Option Text → Loaded
  unfolding check_certs
  load_pair none key = err io
  load_pair (some cert_pem) none = err io
  load_pair (some cert_pem) (some key_pem) = check_certs cert_pem key_pem (lib.certs cert_pem)

-- The modification times of the files with their paths.
abbrev pub CredentialToken : Type 0
CredentialToken = List (Text × ℕ)

abbrev pub token_eq : CredentialToken → CredentialToken → Bool
token_eq [] [] = true
token_eq [] (y ∷ ys) = false
token_eq (x ∷ xs) [] = false
token_eq ((p, t) ∷ xs) ((q, u) ∷ ys) = text_eq p q && (t == u) && token_eq xs ys

-- `changed_token` of the files, by their paths and their times if they can be had.
abbrev pub changed_token : Text × Option ℕ → Text × Option ℕ → Option CredentialToken
changed_token (cert, some t) (key, some u) = some ((cert, t) ∷ (key, u) ∷ [])
changed_token (cert, some t) (key, none) = none
changed_token (cert, none) key = none

-- What a `CredentialSource` answers at one time.
pub record Source : Type 0 where
  pub token : Option CredentialToken
  pub loaded : Loaded

pub record RotatingIdentity : Type 0 where
  pub has_source : Bool
  pub current : Option Identity
  pub token : Option CredentialToken
  pub last_reload_ok : Bool
  pub reloads_refused : ℕ

-- `RotatingIdentity::load`, which fails hard, and the deployment without a client certificate.
abbrev pub begin : Source → Option RotatingIdentity
begin src = elim src.loaded [
  | err e ↦ none
  | ok identity ↦ some (record {
    has_source = true;
    current = some identity;
    token = src.token;
    last_reload_ok = true;
    reloads_refused = 0;
  })
]

abbrev pub without : RotatingIdentity
without = record {
  has_source = false;
  current = none;
  token = none;
  last_reload_ok = true;
  reloads_refused = 0;
}

pub data Reloaded : Type 0 where
  changed : Bool → Reloaded
  refused : CredentialError → Reloaded

-- Whether the files are those that were seen; with no token they may always have changed.
abbrev pub is_seen : Option CredentialToken → Option CredentialToken → Bool
is_seen none seen = false
is_seen (some t) none = false
is_seen (some t) (some u) = token_eq u t

unfoldable pub adopt : Source → RotatingIdentity → Reloaded × RotatingIdentity
adopt src r = elim src.loaded [
  | ok identity ↦
      (changed true, record r { current = some identity; token = src.token; last_reload_ok = true })
  | err e ↦ (
    refused e,
    record r { last_reload_ok = false; reloads_refused = u64_add r.reloads_refused 1 },
  )
]

unfoldable pub reload : Source → RotatingIdentity → Reloaded × RotatingIdentity
unfolding adopt
reload src r =
    if r.has_source
    then (if is_seen src.token r.token then (changed false, r) else adopt src r)
    else (changed false, r)
