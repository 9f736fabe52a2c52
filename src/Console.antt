-- ===== src/Console.antt =====
-- driver/ConsoleBuffer.cc and driver/ConsoleBuffer.h: a ring of 20 lines of text, each of 1024
-- characters with the null at its end. `none` is an index out of the arrays, which the code does not
-- test, or a lack of fuel.
pub mod Reserve
pub mod Lines
use cy_ph_os.Base.{
  ℕ, zero, suc, ◌+◌, ◌-◌, ◌%◌, Bool, true, false, not, ◌&&◌, Option, none, some, List, [], ◌∷◌,
  ◌==◌, ltb, if◌then◌else◌, update,
}
use cy_ph_os.Ring.{seek_free}
use cy_ph_os.Number.{put_number, put_signed, put_string, sign_extend}

abbrev pub line_length : ℕ
line_length = 1024

abbrev pub line_count : ℕ
line_count = 20

-- Line and column select a character of `buffer`.
pub record ConsoleBuffer : Type 0 where
  pub write_position : ℕ
  pub base : ℕ
  pub write_line_pos : ℕ
  pub buffer : ℕ → ℕ → ℕ
  pub line_used : ℕ → Bool

unfoldable pub reserve : ConsoleBuffer → Option ℕ
reserve s =
    seek_free line_count line_count s.line_used s.write_position
      ((s.write_position + 1) % line_count)

-- The copy of a string: the characters of the line, and where the null goes.
unfoldable pub copy_string : List ℕ → ℕ → (ℕ → ℕ) → (ℕ → ℕ) × ℕ
copy_string [] pos line = (line, pos)
copy_string (c ∷ cs) pos line =
    let rest = copy_string cs (suc pos) (update line pos c) in
    if ltb pos (line_length - 1) then rest else (line, pos)

unfoldable pub enter_at : List ℕ → ℕ → ConsoleBuffer → ConsoleBuffer
enter_at cs n s =
    let copied = copy_string cs 0 (s.buffer n) in
    record s {
      line_used = update s.line_used n true;
      buffer = update s.buffer n (update copied.0 copied.1 0);
      write_position = n;
    }

unfoldable pub enter_line : List ℕ → ConsoleBuffer → Option (ℕ × ConsoleBuffer)
enter_line cs s = elim (reserve s) [ none ↦ none | some n ↦ some (n, enter_at cs n s) ]

-- The characters from a position up to the null.
unfoldable pub string_at : ℕ → (ℕ → ℕ) → ℕ → List ℕ
string_at zero line pos = []
string_at (suc fuel) line pos =
    let rest = string_at fuel line (suc pos) in if line pos == 0 then [] else line pos ∷ rest

-- "WRONG LINE".
abbrev pub wrong_line : List ℕ
wrong_line = b'W' ∷ b'R' ∷ b'O' ∷ b'N' ∷ b'G' ∷ b' ' ∷ b'L' ∷ b'I' ∷ b'N' ∷ b'E' ∷ []

unfoldable pub read_line : ℕ → ConsoleBuffer → Option (List ℕ)
read_line n s =
    if ltb n line_count
    then some (if s.line_used n then string_at line_length (s.buffer n) 0 else wrong_line)
    else none

unfoldable pub free_line : ℕ → ConsoleBuffer → Option ConsoleBuffer
free_line n s =
    if ltb n line_count then some (record s { line_used = update s.line_used n false }) else none

-- Without CONFIG_FORCE_CPUID_OUTPUT.
unfoldable pub start_at : ℕ → ConsoleBuffer → ConsoleBuffer
start_at n s = record s {
  line_used = update s.line_used n true;
  write_line_pos = 0;
  write_position = n;
}

unfoldable pub start_line : ConsoleBuffer → Option ConsoleBuffer
start_line s = elim (reserve s) [ none ↦ none | some n ↦ some (start_at n s) ]

unfoldable pub putc : ℕ → ConsoleBuffer → ConsoleBuffer
putc c s =
    if ltb s.write_line_pos (line_length - 1)
    then record s {
      buffer =
          update s.buffer s.write_position (update (s.buffer s.write_position) s.write_line_pos c);
      write_line_pos = suc s.write_line_pos;
    }
    else s

unfoldable pub end_line : ConsoleBuffer → ConsoleBuffer
end_line s = record s {
  buffer = update s.buffer s.write_position (update (s.buffer s.write_position) s.write_line_pos 0);
}

-- `finishOutput`: the number of the line.
unfoldable pub finish_output : ConsoleBuffer → ℕ × ConsoleBuffer
finish_output s = (s.write_position, end_line s)

unfoldable pub write_string : List ℕ → ConsoleBuffer → ConsoleBuffer
write_string cs s = put_string putc cs s

unfoldable pub write_uint64 : ℕ → ConsoleBuffer → Option ConsoleBuffer
write_uint64 ival s = put_number putc s.base ival s

unfoldable pub write_int64 : ℕ → ConsoleBuffer → Option ConsoleBuffer
write_int64 ival s = put_signed putc s.base ival s

unfoldable pub write_int16 : ℕ → ConsoleBuffer → Option ConsoleBuffer
write_int16 ival s = write_int64 (sign_extend 16 ival) s

unfoldable pub write_int32 : ℕ → ConsoleBuffer → Option ConsoleBuffer
write_int32 ival s = write_int64 (sign_extend 32 ival) s

abbrev pub set_base : ℕ → ConsoleBuffer → ConsoleBuffer
set_base base s = record s { base = base }

unfoldable pub write_pointer : ℕ → ConsoleBuffer → Option ConsoleBuffer
write_pointer ptr s = elim (write_uint64 ptr (set_base 16 s)) [
  | none ↦ none
  | some s' ↦ some (set_base s.base s')
]
