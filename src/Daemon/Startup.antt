-- ===== src/Daemon/Startup.antt =====
-- The files of a start: `load_or_generate_cookie` of crates/pmd/src/daemon/mod.rs, and
-- `generate_self_signed_cert`, `load_or_generate_identity`, `build_acceptor` and `build_connector` of
-- crates/pmd/src/tls.rs. Random bytes and the success of a write are arguments.
pub mod Again
pub mod Run
use pmd.Prelude.{ℕ, Bool, true, false, not, ◌||◌, Option, none, some, List, [], ◌∷◌, if◌then◌else◌}

-- What stands at a path: nothing, a file that cannot be read, or bytes.
pub data File : Type 0 where
  absent unreadable : File
  bytes : List ℕ → File

abbrev pub exists : File → Bool
exists absent = false
exists unreadable = true
exists (bytes b) = true

-- The files at `cookie_path`, `cert_path` and `key_path`.
pub record Files : Type 0 where
  pub cookie : File
  pub cert : File
  pub key : File

pub data Error : Type 0 where
  read_failed write_failed permissions_failed empty_cookie bad_certificate bad_key no_key : Error
  generation_failed tls_failed dirs_failed bad_address bind_failed socket_failed pid_failed : Error

pub data Result {ℓ} (A : Type ℓ) : Type ℓ where
  ok : A → Result A
  err : Error → Result A

infixl 5 ◌>>=◌
abbrev pub ◌>>=◌ {ℓ κ} : {A : Type ℓ} {B : Type κ} → Result A → (A → Result B) → Result B
ok a >>= f = f a
err e >>= f = err e

abbrev pub read : File → Result (List ℕ)
read absent = err read_failed
read unreadable = err read_failed
read (bytes b) = ok b

unfoldable pub load_cookie : File → Result (List ℕ)
load_cookie absent = err read_failed
load_cookie unreadable = err read_failed
load_cookie (bytes []) = err empty_cookie
load_cookie (bytes (b ∷ bs)) = ok (b ∷ bs)

-- Whether a write succeeds, and whether the permissions can be set behind it.
pub record Writes : Type 0 where
  pub written : Bool
  pub restricted : Bool

-- The files afterwards, and the cookie or the error. `random` is what the generator fills the 32 bytes with.
unfoldable pub generate_cookie : List ℕ → Writes → Files → Files × Result (List ℕ)
generate_cookie random disk files =
    let kept : Files = record files { cookie = bytes random } in
    if disk.written
    then (kept, if disk.restricted then ok random else err permissions_failed)
    else (files, err write_failed)

unfoldable pub load_or_generate_cookie : List ℕ → Writes → Files → Files × Result (List ℕ)
unfolding load_cookie generate_cookie
load_or_generate_cookie random disk files =
    if exists files.cookie
    then (files, load_cookie files.cookie)
    else generate_cookie random disk files

-- `rcgen` and `rustls_pemfile`: the private key's file is read for the first key in it.
pub record Pem : Type 1 where
  pub Certs : Type 0
  pub Key : Type 0
  pub certs : List ℕ → Option Certs
  pub first_key : List ℕ → Option (Option Key)

-- What the generation gives: the texts of the certificate and of the key. The writes of the two files.
pub record Generation : Type 0 where
  pub pems : Option (List ℕ × List ℕ)
  pub cert_written : Bool
  pub key_disk : Writes

-- The files afterwards, and the error if there is one.
unfoldable pub write_pems : List ℕ → List ℕ → Generation → Files → Files × Option Error
write_pems cert key g files =
    let with_cert : Files = record files { cert = bytes cert } in
    let with_key : Files = record with_cert { key = bytes key } in
    if not g.cert_written
    then (files, some write_failed)
    else if not g.key_disk.written
    then (with_cert, some write_failed)
    else (with_key, if g.key_disk.restricted then none else some permissions_failed)

unfoldable pub generate_self_signed_cert : Generation → Files → Files × Option Error
unfolding write_pems
generate_self_signed_cert g files = elim g.pems [
  | none ↦ (files, some generation_failed)
  | some pems ↦ write_pems pems.0 pems.1 g files
]

module _ (X : Pem) where
  open X use {Certs, Key, certs, first_key}

  abbrev parse_certs : List ℕ → Result Certs
  parse_certs pem = elim (certs pem) [ none ↦ err bad_certificate | some c ↦ ok c ]

  abbrev parse_key : List ℕ → Result Key
  parse_key pem = elim (first_key pem) [
    | none ↦ err bad_key
    | some found ↦ elim found [ none ↦ err no_key | some k ↦ ok k ]
  ]

  unfoldable pub load_identity : Files → Result (Certs × Key)
  load_identity files = do
    cert_pem ← read files.cert
    key_pem ← read files.key
    certs ← parse_certs cert_pem
    key ← parse_key key_pem
    ok (certs, key)

  unfoldable pub load_or_generate_identity : Generation → Files → Files × Result (Certs × Key)
  unfolding load_identity generate_self_signed_cert
  load_or_generate_identity g files =
      let (files', generated) = generate_self_signed_cert g files in
      if not (exists files.cert) || not (exists files.key)
      then (files', elim generated [ none ↦ load_identity files' | some e ↦ err e ])
      else (files, load_identity files)

  -- `build_acceptor` and `build_connector` behind each other, with the identities that they use.
  unfoldable pub build_both :
      Generation → Generation → Files → Files × Result (Certs × Key) × Result (Certs × Key)
  unfolding load_or_generate_identity
  build_both g g' files =
      let (files', acceptor) = load_or_generate_identity g files in
      let (files'', connector) = load_or_generate_identity g' files' in
      (files'', acceptor, connector)
