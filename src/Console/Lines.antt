-- ===== src/Console/Lines.antt =====
-- Lines that are entered or streamed, and read again.
use cy_ph_os.Base.{
  ℕ, zero, suc, ◌-◌, ◌≤◌, ◌<◌, ◌≡◌, refl, ap, ◌∙◌, inl, inr, true, false, some, List, [], ◌∷◌, ◌==◌,
  ltb, arith, Bool-cases, test_of_ne, length, update, update_at, update_ne,
}
use cy_ph_os.Number.{put_string}
use cy_ph_os.Console.{
  ConsoleBuffer, line_count, line_length, copy_string, enter_at, enter_line, string_at, read_line,
  start_at, start_line, putc, end_line, finish_output, write_string,
}
use cy_ph_os.Console.Reserve.{Reserved, reserve-Reserved}

-- A C string has no null among its characters.
abbrev pub NoNull : List ℕ → Type 0
NoNull [] = Unit
NoNull (c ∷ cs) = (0 < c) × NoNull cs

unfoldable pub take : ℕ → List ℕ → List ℕ
take zero xs = []
take (suc n) [] = []
take (suc n) (x ∷ xs) = x ∷ take n xs

-- The characters `cs` stand in the line from the position on, and a null after them.
abbrev Spells : (ℕ → ℕ) → ℕ → List ℕ → Type 0
Spells line pos [] = line pos ≡ 0
Spells line pos (c ∷ cs) = (line pos ≡ c) × (0 < c) × Spells line (suc pos) cs

string_at-Spells :
    (fuel : ℕ) (line : ℕ → ℕ) (pos : ℕ) (cs : List ℕ)
    → length cs < fuel
    → Spells line pos cs
    → string_at fuel line pos ≡ cs
unfolding string_at
string_at-Spells zero line pos cs h sp = absurd (omega arith)
string_at-Spells (suc fuel) line pos [] h sp = rw sp refl
string_at-Spells (suc fuel) line pos (c ∷ cs) h sp =
    let e : (line pos == 0) ≡ false = rw sp.0 (test_of_ne c 0 (λ z. absurd (omega arith))) in
    rw e (rw sp.0 (ap (λ t. c ∷ t) (string_at-Spells fuel line (suc pos) cs (omega arith) sp.2)))

take-length : (n : ℕ) (cs : List ℕ) → length (take n cs) ≤ n
unfolding take
take-length zero cs = omega arith
take-length (suc n) [] = omega arith
take-length (suc n) (c ∷ cs) = let rest = take-length n cs in omega arith

take_nil : (n : ℕ) → take n [] ≡ []
unfolding take
take_nil zero = refl
take_nil (suc n) = refl

-- A line after a copy, with its null.
abbrev ended : (ℕ → ℕ) × ℕ → ℕ → ℕ
ended p = update p.0 p.1 0

copy_string-Spells :
    (cs : List ℕ) (pos : ℕ) (line : ℕ → ℕ)
    → pos ≤ line_length - 1
    → NoNull cs
    → Spells (ended (copy_string cs pos line)) pos (take (line_length - 1 - pos) cs)
      × ((j : ℕ) → j < pos → ended (copy_string cs pos line) j ≡ line j)
unfolding copy_string take
copy_string-Spells [] pos line h nn = (
  rw (take_nil (line_length - 1 - pos)) (update_at line pos 0 refl),
  λ j hj. update_ne line pos 0 (ground arith),
)
copy_string-Spells (c ∷ cs) pos line h nn = elim (Bool-cases (ltb pos (line_length - 1))) [
  | inr e ↦
      let none_left : line_length - 1 - pos ≡ 0 = ground arith in
      rw (e, none_left) (update_at line pos 0 refl, λ j hj. update_ne line pos 0 (ground arith))
  | inl e ↦
      let more : line_length - 1 - pos ≡ suc (line_length - 1 - suc pos) = ground arith in
      let (sp, old) = copy_string-Spells cs (suc pos) (update line pos c) (ground arith) nn.1 in
      rw (e, more)
        (
          (old pos (omega arith) ∙ update_at line pos c refl, nn.0, sp),
          λ j hj. old j (omega arith) ∙ update_ne line pos c (ground arith),
        )
]

reads :
    (s : ConsoleBuffer) (n : ℕ) (cs : List ℕ)
    → n < line_count
    → s.line_used n ≡ true
    → Spells (s.buffer n) 0 (take (line_length - 1) cs)
    → read_line n s ≡ some (take (line_length - 1) cs)
unfolding read_line
reads s n cs h u sp =
    let e : ltb n line_count ≡ true = ground arith in
    let le = take-length (line_length - 1) cs in
    rw (e, u)
      (ap some
        (string_at-Spells line_length (s.buffer n) 0 (take (line_length - 1) cs) (omega arith) sp))

-- With the write position below 20, `enterLine` of a string without nulls returns a line number;
-- `readLine` of it gives the first 1023 characters of the string; the write position stays below
-- 20, and the line was free, or all were used and it was the last one reserved.
pub enter_line-read_line :
    (cs : List ℕ) (s : ConsoleBuffer)
    → NoNull cs
    → s.write_position < line_count
    → (n : ℕ) × (s' : ConsoleBuffer) × (enter_line cs s ≡ some (n, s'))
      × (read_line n s' ≡ some (take (line_length - 1) cs))
      × (s'.write_position < line_count)
      × Reserved s n
unfolding enter_line enter_at
enter_line-read_line cs s nn h =
    let (n, run, ok) = reserve-Reserved s h in
    let line = ended (copy_string cs 0 (s.buffer n)) in
    let (sp, _) = copy_string-Spells cs 0 (s.buffer n) (omega arith) nn in
    (
      n,
      enter_at cs n s,
      rw (enter_line, run) refl,
      reads (enter_at cs n s) n cs ok.bound (update_at s.line_used n true refl)
          (rw (update_at s.buffer n line refl) sp),
      ok.bound,
      ok,
    )

-- What putting characters does to the line that is open.
record Streams (p : (ℕ → ℕ) × ℕ) (s s' : ConsoleBuffer) : Type 0 where
  line : s'.buffer s.write_position ≡ p.0
  pos : s'.write_line_pos ≡ p.1
  position : s'.write_position ≡ s.write_position
  used : s'.line_used ≡ s.line_used

write_full :
    (cs : List ℕ) (s : ConsoleBuffer)
    → ltb s.write_line_pos (line_length - 1) ≡ false
    → put_string putc cs s ≡ s
unfolding put_string putc
write_full [] s e = refl
write_full (c ∷ cs) s e = rw e (write_full cs s e)

-- The buffer after a character that there is room for.
abbrev with_char : ℕ → ConsoleBuffer → ConsoleBuffer
with_char c s = record s {
  buffer = update s.buffer s.write_position (update (s.buffer s.write_position) s.write_line_pos c);
  write_line_pos = suc s.write_line_pos;
}

putc_room :
    (c : ℕ) (s : ConsoleBuffer)
    → ltb s.write_line_pos (line_length - 1) ≡ true
    → putc c s ≡ with_char c s
unfolding putc
putc_room c s e = rw e refl

write-Streams :
    (cs : List ℕ) (s : ConsoleBuffer)
    → Streams (copy_string cs s.write_line_pos (s.buffer s.write_position)) s (put_string putc cs s)
unfolding put_string copy_string
write-Streams [] s = record { line = refl; pos = refl; position = refl; used = refl }
write-Streams (c ∷ cs) s = elim (Bool-cases (ltb s.write_line_pos (line_length - 1))) [
  | inr e ↦
      let full = write_full (c ∷ cs) s e in
      rw e (record {
        line = ap (λ t. t.buffer s.write_position) full;
        pos = ap (λ t. t.write_line_pos) full;
        position = ap (λ t. t.write_position) full;
        used = ap (λ t. t.line_used) full;
      })
  | inl e ↦
      let s1 : ConsoleBuffer = with_char c s in
      let room : putc c s ≡ s1 = putc_room c s e in
      let ih = write-Streams cs s1 in
      let at =
        update_at s.buffer s.write_position (update (s.buffer s.write_position) s.write_line_pos c)
          refl in
      rw (e, room)
        (record {
          line = ih.line ∙ ap (λ l. (copy_string cs (suc s.write_line_pos) l).0) at;
          pos = ih.pos ∙ ap (λ l. (copy_string cs (suc s.write_line_pos) l).1) at;
          position = ih.position;
          used = ih.used;
        })
]

end_line-read_line :
    (cs : List ℕ) (n : ℕ) (p : (ℕ → ℕ) × ℕ) (s s' : ConsoleBuffer)
    → s.write_position ≡ n
    → n < line_count
    → s'.line_used n ≡ true
    → Streams p s s'
    → Spells (ended p) 0 (take (line_length - 1) cs)
    → read_line s'.write_position (end_line s') ≡ some (take (line_length - 1) cs)
unfolding end_line
end_line-read_line cs n p s s' e h used st sp =
    let at : s'.write_position ≡ n = st.position ∙ e in
    let line : s'.buffer s'.write_position ≡ p.0 = ap (λ i. s'.buffer i) st.position ∙ st.line in
    let null : ℕ → ℕ = update (s'.buffer s'.write_position) s'.write_line_pos 0 in
    reads (end_line s') s'.write_position cs (rw at h) (rw at used)
      (rw (update_at s'.buffer s'.write_position null refl) (rw (line, st.pos) sp))

-- With the write position below 20, `startLine` returns, and after a string without nulls is put
-- and the output finished, `readLine` of the line number gives the first 1023 characters of the
-- string.
write_string-read_line :
    (cs : List ℕ) (s : ConsoleBuffer)
    → NoNull cs
    → s.write_position < line_count
    → (s1 : ConsoleBuffer) × (start_line s ≡ some s1)
      × (read_line (finish_output (write_string cs s1)).0 (finish_output (write_string cs s1)).1
          ≡ some (take (line_length - 1) cs))
unfolding finish_output write_string start_line start_at
write_string-read_line cs s nn h =
    let (n, found, ok) = reserve-Reserved s h in
    let s1 : ConsoleBuffer = start_at n s in
    let st = write-Streams cs s1 in
    let (sp, _) = copy_string-Spells cs 0 (s.buffer n) (omega arith) nn in
    let used : (put_string putc cs s1).line_used n ≡ true =
      rw st.used (update_at s.line_used n true refl) in
    (
      s1,
      rw (start_line, found) refl,
      end_line-read_line cs n (copy_string cs 0 (s.buffer n)) s1 (put_string putc cs s1) refl
          ok.bound used st sp,
    )
