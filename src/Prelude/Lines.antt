-- ===== src/Prelude/Lines.antt =====
-- `AsyncBufReadExt::read_line` on a stream of characters, and `str::trim`.
use Prim.Native.String.{String, ◌++◌ as ◌^^◌}
use Prim.Native.Char.{Char, code}
use mathlib.Core.Path.{◌≡◌, ap}
use mathlib.Core.Bool.{Bool, true, false, ◌&&◌, ◌||◌}
use native.Mathlib.Omega.{arith}
use text.Mathlib.TextLemmas.{nil-append, cons-append}
use pmd.Prelude.Tests.{leb, nat_eq, if◌then◌else◌}

abbrev pub newline : String
newline = "\n"

abbrev pub is_newline : Char → Bool
is_newline c = nat_eq (code c) 10

-- The line with its end, if it has one, and the rest of the stream.
abbrev pub read_line : String → String × String
read_line String.[] = ("", "")
read_line (String.◌∷◌ c s) =
    let (line, rest) = read_line s in
    if is_newline c then (String.◌∷◌ c "", s) else (String.◌∷◌ c line, rest)

-- `char::is_whitespace`: the property White_Space of Unicode.
abbrev pub is_whitespace : Char → Bool
is_whitespace c =
    let k = code c in
    (leb 9 k && leb k 13)
    || nat_eq k 32
    || nat_eq k 133
    || nat_eq k 160
    || nat_eq k 5760
    || (leb 8192 k && leb k 8202)
    || nat_eq k 8232
    || nat_eq k 8233
    || nat_eq k 8239
    || nat_eq k 8287
    || nat_eq k 12288

abbrev pub is_empty : String → Bool
is_empty String.[] = true
is_empty (String.◌∷◌ c s) = false

abbrev pub trim_end : String → String
trim_end String.[] = ""
trim_end (String.◌∷◌ c s) =
    let r = trim_end s in if is_whitespace c && is_empty r then "" else String.◌∷◌ c r

abbrev pub trim_start : String → String
trim_start String.[] = ""
trim_start (String.◌∷◌ c s) = let r = trim_start s in if is_whitespace c then r else String.◌∷◌ c s

unfoldable pub trim : String → String
trim s = trim_start (trim_end s)

abbrev pub no_newline : String → Bool
no_newline String.[] = true
no_newline (String.◌∷◌ c s) = let rest = no_newline s in if is_newline c then false else rest

-- A text that stands on a line by itself.
abbrev pub IsLine : String → Type 0
IsLine s = (no_newline s ≡ true) × (trim s ≡ s)

pub read_line-append :
    (s rest : String)
    → no_newline s ≡ true
    → read_line (s ^^ (newline ^^ rest)) ≡ (s ^^ newline, rest)
read_line-append String.[] rest h =
    rw (nil-append (newline ^^ rest), nil-append newline, cons-append "\n" "" rest, nil-append rest)
read_line-append (String.◌∷◌ c s) rest h =
    let first : is_newline c ≡ false = ground (arith, h) in
    let tail = read_line-append s rest (ground (arith, h)) in
    rw (cons-append c s (newline ^^ rest), cons-append c s newline, tail, first)

trim_end-newline : (s : String) → trim_end (s ^^ newline) ≡ trim_end s
trim_end-newline String.[] = ap trim_end (nil-append newline)
trim_end-newline (String.◌∷◌ c s) = rw (cons-append c s newline, trim_end-newline s)

pub trim-newline : (s : String) → trim (s ^^ newline) ≡ trim s
unfolding trim
trim-newline s = ap trim_start (trim_end-newline s)
