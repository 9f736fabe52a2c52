-- ===== src/Output.antt =====
-- common/OutputStream.cc and common/OutputStream.h: an output stream with a buffer of 256 characters.
-- `writeToDevice` is virtual: the model keeps the buffers that it is called with, in `sent`.
pub mod Text
use cy_ph_os.Base.{
  ℕ, zero, suc, ◌%◌, ◌^◌, Bool, ◌||◌, Option, none, some, List, [], ◌∷◌, ◌++◌, ◌==◌, length,
  if◌then◌else◌,
}
use cy_ph_os.Number.{put_number, put_signed, put_string, sign_extend}

abbrev pub buffer_size : ℕ
buffer_size = 256

-- `buffer` holds the first mBufferPosition characters of mCharBuffer.
pub record OutputStream : Type 0 where
  pub base : ℕ
  pub buffer : List ℕ
  pub sent : List (List ℕ)

abbrev pub new_output_stream : OutputStream
new_output_stream = record { base = 10; buffer = []; sent = [] }

unfoldable pub flush : OutputStream → OutputStream
flush s = record s { sent = s.sent ++ s.buffer ∷ []; buffer = [] }

unfoldable pub putc : ℕ → OutputStream → OutputStream
putc c s =
    let s' : OutputStream = record s { buffer = s.buffer ++ c ∷ [] } in
    if (length s'.buffer == buffer_size) || (c == b'\n') then flush s' else s'

unfoldable pub write_string : List ℕ → OutputStream → OutputStream
write_string cs s = put_string putc cs s

unfoldable pub write_uint64 : ℕ → OutputStream → Option OutputStream
write_uint64 ival s = put_number putc s.base ival s

unfoldable pub write_int64 : ℕ → OutputStream → Option OutputStream
write_int64 ival s = put_signed putc s.base ival s

unfoldable pub write_int16 : ℕ → OutputStream → Option OutputStream
write_int16 ival s = write_int64 (sign_extend 16 ival) s

unfoldable pub write_int32 : ℕ → OutputStream → Option OutputStream
write_int32 ival s = write_int64 (sign_extend 32 ival) s

abbrev pub set_base : ℕ → OutputStream → OutputStream
set_base base s = record s { base = base }

-- `operator <<(void*)`: in hexadecimal, and then the old base again.
unfoldable pub write_pointer : ℕ → OutputStream → Option OutputStream
write_pointer ptr s = elim (write_uint64 ptr (set_base 16 s)) [
  | none ↦ none
  | some s' ↦ some (set_base s.base s')
]

unfoldable pub endl : OutputStream → OutputStream
endl s = putc b'\n' s

abbrev pub bin : OutputStream → OutputStream
bin s = set_base 2 s

abbrev pub oct : OutputStream → OutputStream
oct s = set_base 8 s

abbrev pub dec : OutputStream → OutputStream
dec s = set_base 10 s

abbrev pub hex : OutputStream → OutputStream
hex s = set_base 16 s
