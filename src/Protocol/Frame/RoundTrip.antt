-- ===== src/Protocol/Frame/RoundTrip.antt =====
-- `read_frame` after `write_frame` (crates/pmd/src/protocol.rs), and the reader task over a stream of
-- frames (crates/pmd/src/daemon/peer.rs).
use pmd.Prelude.{
  ℕ, suc, ◌^◌, ◌≤◌, ◌<◌, ◌≡◌, ap, ◌∙◌, refl, some, List, [], ◌∷◌, ◌++◌, map, arith, length,
  length-append, take-append, drop-append,
}
use mathlib.Core.List.{append_assoc, append-nil}
use pmd.Protocol.Frame.{
  Codec, ok, max_frame, to_be_bytes, from_be_bytes, Ending, eof, read_exact, write_frame,
  read_payload, read_frame, reader_task, write_frames,
}

pub from_be_bytes-to_be_bytes : (n : ℕ) → n < 2 ^ 32 → from_be_bytes (to_be_bytes n) ≡ n
unfolding from_be_bytes to_be_bytes
from_be_bytes-to_be_bytes n h = omega arith

-- A read of as many bytes as stand in front takes them.
pub read_exact-append :
    (xs rest : List ℕ) (e : Ending)
    → read_exact (length xs) (record { bytes = xs ++ rest; ending = e })
      ≡ ok (xs, record { bytes = rest; ending = e })
unfolding read_exact
read_exact-append xs rest e =
    ground (arith, length-append xs rest, take-append xs rest, drop-append xs rest)

module _ {M : Type 0} (codec : Codec M) where
  -- The message has an encoding within the reader's limit.
  pub record Fits (m : M) : Type 0 where
    pub payload : List ℕ
    pub encoded : codec.serialize m ≡ some payload
    pub bounded : length payload ≤ max_frame

  abbrev pub AllFit : List M → Type 0
  AllFit [] = Unit
  AllFit (m ∷ ms) = Fits m × AllFit ms

  abbrev pub frame_of : List ℕ → List ℕ
  frame_of payload = to_be_bytes (length payload) ++ payload

  abbrev pub stream_of : (ms : List M) → AllFit ms → List ℕ
  stream_of [] h = []
  stream_of (m ∷ ms) h = frame_of h.0.payload ++ stream_of ms h.1

  pub write_frame-Fits :
      (writer : List ℕ) (m : M) (f : Fits m)
      → write_frame codec writer m ≡ ok (writer ++ frame_of f.payload)
  unfolding write_frame
  write_frame-Fits writer m f = ground (arith, f.encoded, f.bounded)

  header-frame_of :
      (payload rest : List ℕ) (e : Ending)
      → read_exact 4 (record { bytes = frame_of payload ++ rest; ending = e })
        ≡ ok (to_be_bytes (length payload), record { bytes = payload ++ rest; ending = e })
  unfolding read_exact to_be_bytes
  header-frame_of payload rest e = ground (arith, length-append payload rest)

  read_payload-Fits :
      (m : M) (f : Fits m) (rest : List ℕ) (e : Ending)
      → read_payload codec
          (to_be_bytes (length f.payload))
          (record { bytes = f.payload ++ rest; ending = e })
        ≡ ok (some m, record { bytes = rest; ending = e })
  unfolding read_payload
  read_payload-Fits m f rest e = ground (
    arith,
    f.bounded,
    from_be_bytes-to_be_bytes (length f.payload),
    read_exact-append f.payload rest e,
    codec.deserialize-serialize m f.payload f.encoded,
  )

  -- Whatever follows, the message that was written is the message that is read, and the reader
  -- stands behind its frame.
  pub read_frame-Fits :
      (m : M) (f : Fits m) (rest : List ℕ) (e : Ending)
      → read_frame codec (record { bytes = frame_of f.payload ++ rest; ending = e })
        ≡ ok (some m, record { bytes = rest; ending = e })
  unfolding read_frame
  read_frame-Fits m f rest e = rw (header-frame_of f.payload rest e) (read_payload-Fits m f rest e)

  write_frames-AllFit :
      (writer : List ℕ) (ms : List M) (h : AllFit ms)
      → write_frames codec writer ms ≡ ok (writer ++ stream_of ms h)
  unfolding write_frames
  write_frames-AllFit writer [] h = rw append-nil
  write_frames-AllFit writer (m ∷ ms) h = rw (write_frame-Fits writer m h.0) (
      write_frames-AllFit (writer ++ frame_of h.0.payload) ms h.1
      ∙ ap ok (append_assoc writer (frame_of h.0.payload) (stream_of ms h.1)))

  reader_task-nil : reader_task codec 1 (record { bytes = []; ending = eof }) ≡ []
  unfolding reader_task read_frame read_exact
  reader_task-nil = refl

  reader_task-stream :
      (ms : List M) (h : AllFit ms)
      → reader_task codec (suc (length ms)) (record { bytes = stream_of ms h; ending = eof })
        ≡ map ok ms
  unfolding reader_task
  reader_task-stream [] h = reader_task-nil
  reader_task-stream (m ∷ ms) h =
      rw (read_frame-Fits m h.0 (stream_of ms h.1) eof, reader_task)
        (ap (◌∷◌ (ok m)) (reader_task-stream ms h.1))

  -- Messages whose encodings are within the reader's limit can all be written, and the reader task
  -- at the other end of the stream delivers exactly these messages, in their order, and then stops
  -- at the end of the stream.
  pub reader_task-write_frames :
      (ms : List M)
      → AllFit ms
      → (out : List ℕ) × (write_frames codec [] ms ≡ ok out)
        × (reader_task codec (suc (length ms)) (record { bytes = out; ending = eof }) ≡ map ok ms)
  reader_task-write_frames ms h =
      (stream_of ms h, write_frames-AllFit [] ms h, reader_task-stream ms h)
