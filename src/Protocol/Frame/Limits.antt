-- ===== src/Protocol/Frame/Limits.antt =====
-- The limits of `write_frame` and `read_frame` (crates/pmd/src/protocol.rs): oversized payloads,
-- streams that end early, and how much a read takes.
use pmd.Prelude.{
  ℕ, zero, suc, ◌+◌, ◌^◌, ◌≤◌, ◌<◌, ◌≡◌, refl, ap, Option, none, some, List, [], ◌∷◌, ◌++◌, arith,
  length, length-append, length-drop,
}
use pmd.Protocol.Frame.{
  Codec, Result, ok, err, max_frame, to_be_bytes, from_be_bytes, Ending, eof, broken, Reader,
  read_exact, write_frame, read_payload, read_frame, reader_task, io_error, frame_too_large,
  after_header,
}
use pmd.Protocol.Frame.RoundTrip.{from_be_bytes-to_be_bytes, frame_of}
use native.Mathlib.Nat.{suc-add}

module _ {M : Type 0} (codec : Codec M) where
  header-of_long :
      (payload rest : List ℕ) (e : Ending)
      → read_exact 4 (record { bytes = frame_of codec payload ++ rest; ending = e })
        ≡ ok (to_be_bytes (length payload), record { bytes = payload ++ rest; ending = e })
  unfolding read_exact to_be_bytes
  header-of_long payload rest e = ground (arith, length-append payload rest)

  -- A message with an encoding longer than the reader's 16 MiB and shorter than 2^32 bytes is
  -- written without an error, and every read of that frame fails.
  pub read_frame-oversized :
      (m : M) (payload rest : List ℕ) (e : Ending)
      → codec.serialize m ≡ some payload
      → max_frame < length payload
      → length payload < 2 ^ 32
      → (write_frame codec [] m ≡ ok (frame_of codec payload))
        × (read_frame codec (record { bytes = frame_of codec payload ++ rest; ending = e })
            ≡ err (frame_too_large (length payload)))
  unfolding write_frame read_frame
  read_frame-oversized m payload rest e enc long short = (
    ground arith,
    rw (header-of_long payload rest e) (ground (arith, from_be_bytes-to_be_bytes (length payload))),
  )

  -- With fewer than four bytes left, also with one to three of a header cut short, the read gives
  -- no message and no error if the stream was closed, and an error if it broke.
  pub read_frame-short :
      (r : Reader)
      → length r.bytes < 4
      → read_frame codec r ≡ (elim r.ending [ eof ↦ ok (none, r) | broken ↦ err io_error ])
  unfolding read_frame read_exact
  read_frame-short r h = ground arith

  read_exact-consumes :
      (n : ℕ) (r : Reader) (p : List ℕ × Reader)
      → read_exact n r ≡ ok p
      → length p.1.bytes + n ≡ length r.bytes
  unfolding read_exact
  read_exact-consumes n r p h = ground (arith, length-drop n r.bytes)

  read_payload-consumes :
      (len_buf : List ℕ) (r : Reader) (m : M) (r' : Reader)
      → read_payload codec len_buf r ≡ ok (some m, r')
      → (length r'.bytes ≤ length r.bytes) × (length r.bytes ≤ length r'.bytes + max_frame)
  unfolding read_payload
  read_payload-consumes len_buf r m r' h = go (read_exact len r) refl
    where
      len : ℕ
      len = from_be_bytes len_buf

      go :
          (res : Result (List ℕ × Reader))
          → read_exact len r ≡ res
          → (length r'.bytes ≤ length r.bytes) × (length r.bytes ≤ length r'.bytes + max_frame)
      go (ok p) e = ground (arith, e, read_exact-consumes len r p e)
      go (err x) e = ground (arith, e)

  -- A read that gives a message takes the four bytes of the length and at most 16 MiB behind them.
  read_frame-consumes :
      (r : Reader) (m : M) (r' : Reader)
      → read_frame codec r ≡ ok (some m, r')
      → (length r'.bytes + 4 ≤ length r.bytes) × (length r.bytes ≤ length r'.bytes + 4 + max_frame)
  unfolding after_header read_frame
  read_frame-consumes r m r' h = go (read_exact 4 r) refl
    where
      go :
          (res : Result (List ℕ × Reader))
          → read_exact 4 r ≡ res
          → (length r'.bytes + 4 ≤ length r.bytes)
            × (length r.bytes ≤ length r'.bytes + 4 + max_frame)
      go (ok p) e =
          ground (arith, e, read_exact-consumes 4 r p e, read_payload-consumes p.0 p.1 m r')
      go (err x) e = ground (arith, e)

  -- A stream of `n` bytes needs no more than `n + 1` rounds of the reader task: more change nothing.
  pub reader_task-rounds :
      (rounds k : ℕ) (r : Reader)
      → length r.bytes < rounds
      → reader_task codec (rounds + k) r ≡ reader_task codec rounds r
  unfolding reader_task
  reader_task-rounds zero k r h = absurd (omega arith)
  reader_task-rounds (suc n) k r h =
      rw suc-add (go (λ r' bound. reader_task-rounds n k r' bound) (read_frame codec r) refl)
    where
      go :
          ((r' : Reader)
            → length r'.bytes < n
            → reader_task codec (n + k) r' ≡ reader_task codec n r')
          → (res : Result (Option M × Reader)) → read_frame codec r ≡ res
          → reader_task codec (suc (n + k)) r ≡ reader_task codec (suc n) r
      go ih (ok (some m, r')) e =
          rw (e, reader_task)
            (ap (◌∷◌ (ok m)) (ih r' (omega (arith, read_frame-consumes r m r' e))))
      go ih (ok (none, r')) e = rw (e, reader_task)
      go ih (err x) e = rw (e, reader_task)
