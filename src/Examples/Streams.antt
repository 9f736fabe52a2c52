-- ===== src/Examples/Streams.antt =====
-- Output streams and the console buffer at concrete inputs.
use cy_ph_os.Base.{ℕ, ◌-◌, ◌<◌, ◌^◌, ◌≡◌, false, some, List, [], ◌∷◌, ◌++◌, arith}
use cy_ph_os.Number.RoundTrip.{value, mark, minus, magnitude}
use cy_ph_os.Output
use cy_ph_os.Output.Text.{text, Fits, write_string-text, write_int64-text}
use cy_ph_os.Console
use cy_ph_os.Console.Reserve.{Reserved}
use cy_ph_os.Console.Lines.{take, enter_line-read_line}

abbrev stream : Output.OutputStream
stream = record { base = 10; buffer = 65 ∷ 66 ∷ []; sent = (67 ∷ 10 ∷ []) ∷ [] }

stream-Fits : Fits stream
stream-Fits = record { next = omega arith; full = (omega arith, tt) }

write_string-text_example :
    Fits (Output.write_string (72 ∷ 10 ∷ 73 ∷ []) stream)
    × (text (Output.write_string (72 ∷ 10 ∷ 73 ∷ []) stream) ≡ text stream ++ 72 ∷ 10 ∷ 73 ∷ [])
    × ((Output.write_string (72 ∷ 10 ∷ 73 ∷ []) stream).base ≡ 10)
write_string-text_example = write_string-text (72 ∷ 10 ∷ 73 ∷ []) stream stream-Fits

-- The word of -42.
abbrev negative : ℕ
negative = 2 ^ 64 - 42

write_int64-text_example :
    (cs : List ℕ) × (s' : Output.OutputStream) × (Output.write_int64 negative stream ≡ some s')
    × (text s' ≡ text stream ++ (minus negative ++ (mark 10 ++ cs)))
    × (value 10 0 cs ≡ magnitude negative)
    × (s'.base ≡ 10)
    × Fits s'
write_int64-text_example =
    write_int64-text negative stream (omega arith) (omega arith) (omega arith) stream-Fits

abbrev console : Console.ConsoleBuffer
console = record {
  write_position = 19;
  base = 10;
  write_line_pos = 0;
  buffer = λ line column. 0;
  line_used = λ line. false;
}

enter_line-read_line_example :
    (n : ℕ) × (s' : Console.ConsoleBuffer) × (Console.enter_line (72 ∷ 105 ∷ []) console
      ≡ some (n, s'))
    × (Console.read_line n s' ≡ some (take 1023 (72 ∷ 105 ∷ [])))
    × (s'.write_position < 20)
    × Reserved console n
enter_line-read_line_example =
    enter_line-read_line (72 ∷ 105 ∷ []) console (omega arith, (omega arith, tt)) (omega arith)
