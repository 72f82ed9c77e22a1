-- ===== src/Protocol/Frame.antt =====
-- crates/pmd/src/protocol.rs: `write_frame` and `read_frame`, and the reader task of
-- `peer_message_loop` in crates/pmd/src/daemon/peer.rs. The encoding of a message (`bincode`) is the
-- interface `Codec`; a writer is the bytes written so far, a reader the bytes that are still to
-- come and how the stream ends after them.
pub mod RoundTrip
pub mod Limits
use pmd.Prelude.{
  ℕ, zero, suc, ◌+◌, ◌*◌, ◌/◌, ◌%◌, ◌^◌, ◌<◌, ◌≡◌, Bool, true, false, Option, none, some, List, [],
  ◌∷◌, ◌++◌, length, take, drop, ltb, if◌then◌else◌,
}

-- `bincode::serialize` and `bincode::deserialize`.
pub record Codec (M : Type 0) : Type 0 where
  pub serialize : M → Option (List ℕ)
  pub deserialize : List ℕ → Option M
  pub deserialize-serialize :
      (m : M) (payload : List ℕ) → serialize m ≡ some payload → deserialize payload ≡ some m

pub data Error : Type 0 where
  serialize_failed deserialize_failed unexpected_eof io_error : Error
  message_too_large frame_too_large : ℕ → Error

pub data Result {ℓ} (A : Type ℓ) : Type ℓ where
  ok : A → Result A
  err : Error → Result A

infixl 5 ◌>>=◌
abbrev pub ◌>>=◌ {ℓ κ} : {A : Type ℓ} {B : Type κ} → Result A → (A → Result B) → Result B
ok a >>= f = f a
err e >>= f = err e

abbrev pub or_err {ℓ} : {A : Type ℓ} → Option A → Error → Result A
or_err none e = err e
or_err (some a) e = ok a

-- 16 * 1024 * 1024
abbrev pub max_frame : ℕ
max_frame = 16 * 1024 * 1024

-- `len.to_be_bytes()` and `u32::from_be_bytes`.
unfoldable pub to_be_bytes : ℕ → List ℕ
to_be_bytes n = n / 2 ^ 24 % 256 ∷ n / 2 ^ 16 % 256 ∷ n / 2 ^ 8 % 256 ∷ n % 256 ∷ []

unfoldable pub from_be_bytes : List ℕ → ℕ
from_be_bytes (a ∷ b ∷ c ∷ d ∷ []) = a * 2 ^ 24 + b * 2 ^ 16 + c * 2 ^ 8 + d
from_be_bytes _ = 0

-- How a stream ends after its bytes: closed by the other side, or by another I/O error.
pub data Ending : Type 0 where
  eof broken : Ending

pub record Reader : Type 0 where
  pub bytes : List ℕ
  pub ending : Ending

-- `read_exact(&mut buf)` for a buffer of `n` bytes.
unfoldable pub read_exact : ℕ → Reader → Result (List ℕ × Reader)
read_exact n r =
    if ltb (length r.bytes) n
    then err (elim r.ending [ eof ↦ unexpected_eof | broken ↦ io_error ])
    else ok (take n r.bytes, record r { bytes = drop n r.bytes })

module _ {M : Type 0} (codec : Codec M) where
  -- The two `write_all` calls, with the payload's length as an unsigned 32-bit number.
  unfoldable pub write_frame : List ℕ → M → Result (List ℕ)
  write_frame writer msg = do
    payload ← or_err (codec.serialize msg) serialize_failed
    if ltb (length payload) (2 ^ 32)
        then ok (writer ++ (to_be_bytes (length payload) ++ payload))
        else err (message_too_large (length payload))

  -- The part of `read_frame` behind the length's four bytes.
  unfoldable pub read_payload : List ℕ → Reader → Result (Option M × Reader)
  read_payload len_buf r =
      let len = from_be_bytes len_buf in
      if ltb max_frame len then err (frame_too_large len) else do
        (payload, r') ← read_exact len r
        msg ← or_err (codec.deserialize payload) deserialize_failed
        ok (some msg, r')

  -- An end of the stream within the four bytes of the length is `Ok(None)`.
  unfoldable pub after_header : Reader → Result (List ℕ × Reader) → Result (Option M × Reader)
  after_header r (ok (len_buf, r')) = read_payload len_buf r'
  after_header r (err unexpected_eof) = ok (none, r)
  after_header r (err e) = err e

  unfoldable pub read_frame : Reader → Result (Option M × Reader)
  unfolding after_header read_payload
  read_frame r = after_header r (read_exact 4 r)

  -- The reader task: what it sends into the channel, in order. `rounds` bounds the frames read.
  unfoldable pub reader_task : ℕ → Reader → List (Result M)
  reader_task zero r = []
  reader_task (suc rounds) r = elim (read_frame r) [
    | ok (some msg, r') ↦ ok msg ∷ reader_task rounds r'
    | ok (none, r') ↦ []
    | err e ↦ err e ∷ []
  ]

  -- A writer that sends the messages one after the other.
  unfoldable pub write_frames : List ℕ → List M → Result (List ℕ)
  write_frames writer [] = ok writer
  write_frames writer (m ∷ ms) = do writer' ← write_frame writer m; write_frames writer' ms
