-- ===== src/Transport/Stdio.antt =====
-- `read_stdio_message` and `run_stdio` of crates/folk-transport/src/lib.rs. The input is the bytes
-- that are left. Both loops take fuel: each round consumes a byte, so one more than the number of
-- bytes is enough. The buffer for an announced body is taken to be granted.
pub mod Framing
pub mod Lines
pub mod Fuel
pub mod Messages
pub mod Refines
pub mod Total
use folk_around.Prelude.{
  ℕ, zero, suc, ◌+◌, Bool, true, false, List, [], ◌∷◌, ◌++◌, Option, none, some, if◌then◌else◌, leb,
  ◌==◌, length, take, drop,
}
use folk_around.Text.{Text, Bytes, codes, is_empty, trim, to_ascii_lowercase, starts_with}
use folk_around.Text.Number.{parse_unsigned, usize_bound, decimal}
use folk_around.Text.Utf8.{from_utf8, as_bytes}
use folk_around.Json.{Value}
use folk_around.Effect.{Result, ok, err}
use folk_around.Mcp.{ToolTable}
use folk_around.Mcp.Handler.{Server, handle_message}

-- The next line with its newline, and what follows.
unfoldable pub split_line : Bytes → Bytes × Bytes
split_line [] = ([], [])
split_line (b ∷ bs) =
    if b == 10 then (b ∷ [], bs) else (let (line, rest) = split_line bs in (b ∷ line, rest))

-- `read_line`: a line that is not UTF-8 is an error.
abbrev pub read_line : Bytes → Option Text
read_line bs = from_utf8 (split_line bs).0

abbrev pub after_line : Bytes → Bytes
after_line bs = (split_line bs).1

pub data Frame : Type 0 where
  closed failed out_of_fuel : Frame
  message : (body rest : Bytes) → Frame

-- `read_exact`
abbrev pub read_exact : ℕ → Bytes → Frame
read_exact len bs = if leb len (length bs) then message (take len bs) (drop len bs) else failed

-- the loop up to a blank line
unfoldable pub read_after_headers : ℕ → ℕ → Bytes → Frame
read_after_headers zero len bs = out_of_fuel
read_after_headers (suc fuel) len bs = elim (is_empty bs) [
  | true ↦ closed
  | false ↦ elim (read_line bs) [
    | none ↦ failed
    | some line ↦ elim (is_empty (trim line)) [
      | true ↦ read_exact len (after_line bs)
      | false ↦ read_after_headers fuel len (after_line bs)
    ]
  ]
]

abbrev number_or_zero : Option ℕ → ℕ
number_or_zero none = 0
number_or_zero (some n) = n

abbrev pub prefix : Text
prefix = codes "content-length:"

unfoldable pub declared_length : Text → ℕ
declared_length trimmed = number_or_zero (parse_unsigned usize_bound (trim (drop 15 trimmed)))

-- The first line decides: a header, or a message of one line.
unfoldable pub read_message : ℕ → Bytes → Frame
read_message zero bs = out_of_fuel
read_message (suc fuel) bs = elim (is_empty bs) [
  | true ↦ closed
  | false ↦ elim (read_line bs) [
    | none ↦ failed
    | some line ↦ elim (is_empty (trim line)) [
      | true ↦ read_message fuel (after_line bs)
      | false ↦
          if starts_with (to_ascii_lowercase (trim line)) prefix
          then read_after_headers fuel (declared_length (trim line)) (after_line bs)
          else message (as_bytes (trim line)) (after_line bs)
    ]
  ]
]

abbrev pub read_stdio_message : Bytes → Frame
read_stdio_message bs = read_message (suc (length bs)) bs

-- what `run_stdio` writes for an answer
unfoldable pub frame : Text → Bytes
frame out =
    as_bytes (codes "Content-Length: " ++ (decimal (length (as_bytes out)) ++ codes "\r\n\r\n"))
    ++ as_bytes out

-- How the loop ended: at the end of the input, or with an error.
pub data Ending : Type 0 where
  finished broken no_fuel : Ending

module _ {W E : Type 0} (server : Server E) (parse_json : Bytes → Option Value)
    (table : ToolTable W) where
  -- The world, what was written, and how it ended.
  unfoldable pub run_loop : ℕ → Bytes → Bytes → W → W × Bytes × Ending
  run_loop zero bs out w = (w, out, no_fuel)
  run_loop (suc fuel) bs out w = elim (read_stdio_message bs) [
    | closed ↦ (w, out, finished)
    | failed ↦ (w, out, broken)
    | out_of_fuel ↦ (w, out, no_fuel)
    | message body rest ↦ elim (parse_json body) [
      | none ↦ run_loop fuel rest out w
      | some msg ↦ elim ((handle_message server table msg w).0) [
        | err e ↦ ((handle_message server table msg w).1, out, broken)
        | ok none ↦ run_loop fuel rest out (handle_message server table msg w).1
        | ok (some reply) ↦
            run_loop fuel rest (out ++ frame reply) (handle_message server table msg w).1
      ]
    ]
  ]

  unfoldable pub run_stdio : Bytes → W → W × Bytes × Ending
  run_stdio input w = run_loop (suc (length input)) input [] w
