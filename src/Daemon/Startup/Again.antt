-- ===== src/Daemon/Startup/Again.antt =====
-- What a start leaves for the next one: crates/pmd/src/daemon/mod.rs and crates/pmd/src/tls.rs.
use pmd.Prelude.{
  not, ◌||◌, ℕ, ◌≡◌, refl, ap, Bool, true, false, Option, none, some, List, [], ◌∷◌, length, arith,
  if◌then◌else◌,
}
use pmd.Daemon.Startup.{
  Files, File, absent, unreadable, bytes, exists, Error, Writes, Result, ok, err, load_cookie,
  generate_cookie, load_or_generate_cookie, Pem, Generation, load_identity,
  load_or_generate_identity, generate_self_signed_cert, build_both,
}

-- A start that gives the cookie leaves a file that gives it.
abbrev Kept : Files × Result (List ℕ) → List ℕ → Type 0
Kept r cookie = r.1 ≡ ok cookie → load_cookie r.0.cookie ≡ ok cookie

generated-Kept :
    (random : List ℕ) (files : Files) (cookie : List ℕ)
    → length random ≡ 32
    → (written restricted : Bool)
    → Kept
        (generate_cookie random (record { written = written; restricted = restricted }) files)
        cookie
unfolding generate_cookie load_cookie
generated-Kept [] files cookie full written restricted h = absurd (omega arith)
generated-Kept (b ∷ bs) files cookie full false restricted h = absurd (ground (arith, h))
generated-Kept (b ∷ bs) files cookie full true false h = absurd (ground (arith, h))
generated-Kept (b ∷ bs) files cookie full true true h = h

load_cookie-exists :
    (file : File) (cookie : List ℕ) → load_cookie file ≡ ok cookie → exists file ≡ true
unfolding load_cookie
load_cookie-exists absent cookie h = absurd (ground (arith, h))
load_cookie-exists unreadable cookie h = refl
load_cookie-exists (bytes b) cookie h = refl

chosen-Kept :
    (b : Bool) (x y : Files × Result (List ℕ)) (cookie : List ℕ)
    → Kept x cookie
    → Kept y cookie
    → Kept (if b then x else y) cookie
chosen-Kept true x y cookie h k = h
chosen-Kept false x y cookie h k = k

pub load_or_generate_cookie-loads :
    (random : List ℕ) (disk : Writes) (files : Files) (cookie : List ℕ)
    → length random ≡ 32
    → Kept (load_or_generate_cookie random disk files) cookie
unfolding load_or_generate_cookie
load_or_generate_cookie-loads random disk files cookie full =
    chosen-Kept (exists files.cookie) (files, load_cookie files.cookie)
      (generate_cookie random disk files) cookie (λ h. h)
      (generated-Kept random files cookie full disk.written disk.restricted)

-- A start that has a cookie, read or made of 32 random bytes, leaves it on the disk: every later start
-- gives the same cookie and changes no file, whatever its random bytes and its disk are.
pub load_or_generate_cookie-again :
    (random random' : List ℕ) (disk disk' : Writes) (files : Files) (cookie : List ℕ)
    → length random ≡ 32
    → (load_or_generate_cookie random disk files).1 ≡ ok cookie
    → let after = (load_or_generate_cookie random disk files).0 in
      load_or_generate_cookie random' disk' after ≡ (after, ok cookie)
unfolding load_or_generate_cookie
load_or_generate_cookie-again random random' disk disk' files cookie full h =
    let kept = load_or_generate_cookie-loads random disk files cookie full h in
    rw (load_cookie-exists _ cookie kept, kept)

module _ (X : Pem) where
  open X use {Certs, Key}

  abbrev Loaded : Files × Result (Certs × Key) → Certs × Key → Type 0
  Loaded r id = r.1 ≡ ok id → load_identity X r.0 ≡ ok id

  chosen-Loaded :
      (b : Bool) (x y : Files × Result (Certs × Key)) (id : Certs × Key)
      → Loaded x id
      → Loaded y id
      → Loaded (if b then x else y) id
  chosen-Loaded true x y id h k = h
  chosen-Loaded false x y id h k = k

  generated-Loaded :
      (files : Files) (generated : Option Error) (id : Certs × Key)
      → Loaded (files, elim generated [ none ↦ load_identity X files | some e ↦ err e ]) id
  generated-Loaded files none id h = h
  generated-Loaded files (some e) id h = absurd (ground (arith, h))

  both_exist :
      (cookie cert key : File) (id : Certs × Key)
      → load_identity X (record { cookie = cookie; cert = cert; key = key }) ≡ ok id
      → (exists cert ≡ true) × (exists key ≡ true)
  unfolding load_identity
  both_exist cookie absent key id h = absurd (ground (arith, h))
  both_exist cookie unreadable absent id h = absurd (ground (arith, h))
  both_exist cookie unreadable unreadable id h = (refl, refl)
  both_exist cookie unreadable (bytes k) id h = (refl, refl)
  both_exist cookie (bytes c) absent id h = absurd (ground (arith, h))
  both_exist cookie (bytes c) unreadable id h = (refl, refl)
  both_exist cookie (bytes c) (bytes k) id h = (refl, refl)

  pub load_or_generate_identity-loads :
      (g : Generation) (files : Files) (id : Certs × Key)
      → Loaded (load_or_generate_identity X g files) id
  unfolding load_or_generate_identity
  load_or_generate_identity-loads g files id =
      let made = generate_self_signed_cert g files in
      chosen-Loaded (not (exists files.cert) || not (exists files.key))
        (made.0, elim made.1 [ none ↦ load_identity X made.0 | some e ↦ err e ])
        (files, load_identity X files) id (generated-Loaded made.0 made.1 id) (λ h. h)

  pub load_or_generate_identity-again :
      (g : Generation) (files : Files) (id : Certs × Key)
      → load_identity X files ≡ ok id
      → load_or_generate_identity X g files ≡ (files, ok id)
  unfolding load_or_generate_identity
  load_or_generate_identity-again g files id loaded =
      let (cert, key) = both_exist files.cookie files.cert files.key id loaded in
      rw (cert, key, loaded)

  -- Once the acceptor has an identity, read or generated, the connector has the same, and building it
  -- changes no file, whatever a generation would give by then.
  pub build_both-same :
      (g g' : Generation) (files : Files) (id : Certs × Key)
      → (build_both X g g' files).1 ≡ ok id
      → ((build_both X g g' files).2 ≡ ok id)
        × ((build_both X g g' files).0 ≡ (load_or_generate_identity X g files).0)
  unfolding build_both
  build_both-same g g' files id h =
      let after = (load_or_generate_identity X g files).0 in
      let loaded = load_or_generate_identity-loads g files id h in
      let second : load_or_generate_identity X g' after ≡ (after, ok id) =
        load_or_generate_identity-again g' after id loaded in
      (ap (λ r. r.1) second, ap (λ r. r.0) second)
