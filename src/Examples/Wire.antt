-- ===== src/Examples/Wire.antt =====
-- Frames, the failure detector and the configuration at concrete inputs.
use pmd.Prelude.{
  ℕ, zero, suc, ◌+◌, ◌≤◌, String, ◌≡◌, refl, ap, none, some, List, [], ◌∷◌, ◌++◌, arith, length,
}
use pmd.Protocol.Frame.{
  Codec, ok, err, max_frame, frame_too_large, eof, Reader, write_frame, read_frame, reader_task,
  write_frames, from_be_bytes, read_exact,
}
use pmd.Protocol.Frame.RoundTrip.{Fits, frame_of, reader_task-write_frames}
use pmd.Protocol.Frame.Limits.{read_frame-oversized, reader_task-rounds}
use pmd.FailureDetector.{new, run}
use pmd.FailureDetector.Window.{keep_last, gaps, run-new-window}
use pmd.Config.{
  Config, ConfigFile, FileContents, missing, parsed, or_default, empty_file, socket_of, pid_of,
  from_file_and_args,
}
use pmd.Config
use pmd.Config.Precedence.{from_file_and_args-parsed}
use pmd.Examples.Toy.{real, toy}

-- A message is a number, encoded as so many zero bytes.
unfoldable zeros : ℕ → List ℕ
zeros zero = []
zeros (suc n) = 0 ∷ zeros n

length-zeros : (n : ℕ) → length (zeros n) ≡ n
unfolding zeros
length-zeros zero = refl
length-zeros (suc n) = ap suc (length-zeros n)

decoded :
    (n : ℕ) (payload : List ℕ) → some (zeros n) ≡ some payload → some (length payload) ≡ some n
decoded n payload e = ground (arith, e, length-zeros n)

abbrev codec : Codec ℕ
codec = record {
  serialize = λ n. some (zeros n);
  deserialize = λ bytes. some (length bytes);
  deserialize-serialize = decoded;
}

fits : (n : ℕ) → n ≤ max_frame → Fits codec n
fits n h = record { payload = zeros n; encoded = refl; bounded = omega (arith, length-zeros n, h) }

reader_task-write_frames_example :
    (out : List ℕ) × (write_frames codec [] (2 ∷ 3 ∷ []) ≡ ok out)
    × (reader_task codec 3 (record { bytes = out; ending = eof }) ≡ ok 2 ∷ ok 3 ∷ [])
reader_task-write_frames_example =
    reader_task-write_frames codec (2 ∷ 3 ∷ []) (fits 2 (omega arith), (fits 3 (omega arith), tt))

abbrev huge : ℕ
huge = 16777217

read_frame-oversized_example :
    (write_frame codec [] huge ≡ ok (frame_of codec (zeros huge)))
    × (read_frame codec (record { bytes = frame_of codec (zeros huge) ++ []; ending = eof })
        ≡ err (frame_too_large (length (zeros huge))))
read_frame-oversized_example =
    read_frame-oversized codec huge (zeros huge) [] eof refl (omega (arith, length-zeros huge))
      (omega (arith, length-zeros huge))

abbrev cut_short : Reader
cut_short = record { bytes = 0 ∷ 0 ∷ 0 ∷ []; ending = eof }

abbrev two_bytes : Reader
two_bytes = record { bytes = 0 ∷ 0 ∷ 0 ∷ 2 ∷ 0 ∷ 0 ∷ 9 ∷ []; ending = eof }

abbrev nine_left : Reader
nine_left = record { bytes = 9 ∷ []; ending = eof }

reads_two : read_frame codec two_bytes ≡ ok (some 2, nine_left)
unfolding read_frame read_exact from_be_bytes
reads_two = refl

reader_task-rounds_example : reader_task codec (8 + 5) two_bytes ≡ reader_task codec 8 two_bytes
reader_task-rounds_example = reader_task-rounds codec 8 5 two_bytes (omega arith)

run-new-window_example :
    (run real (new real 2 8) (1 ∷ 2 ∷ 4 ∷ 8 ∷ [])).intervals
    ≡ keep_last 2 (gaps real (1 ∷ 2 ∷ 4 ∷ 8 ∷ []))
run-new-window_example = run-new-window real 2 8 (1 ∷ 2 ∷ 4 ∷ 8 ∷ [])

-- The file of the home directory asks for port 5000.
abbrev file : ConfigFile toy
file = record {
  port = some 5000;
  bind = some "10.0.0.9";
  sync_interval_secs = none;
  heartbeat_interval_secs = none;
  heartbeat_timeout_secs = none;
  phi_threshold = none;
  phi_window_size = none;
  phi_min_std_deviation_ms = none;
  metrics_port = none;
  ca_cert_path = none;
  discovery = [];
  metadata = [];
}

abbrev home : List String
home = "/root" ∷ []

from_file_and_args-parsed_example :
    (c : Config toy) × (found : List String) × (from_file_and_args toy
        (some home)
        (λ _. parsed file)
        none
        none
        4369
        none
        []
      ≡ Config.ok (c, [], found))
    × (c.port ≡ 5000)
    × (c.bind ≡ "10.0.0.9")
    × (c.socket_path ≡ socket_of toy (".pmd" ∷ home) c.port)
    × (c.pid_path ≡ pid_of toy (".pmd" ∷ home) c.port)
from_file_and_args-parsed_example =
    from_file_and_args-parsed toy home (λ _. parsed file) none none 4369 none [] file refl
