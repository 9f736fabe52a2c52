-- ===== src/Output/Text.antt =====
-- The text of an output stream: what went to the device and what is still in the buffer.
use mathlib.Core.List.{append_assoc, append-nil}
use mathlib.Core.Bool.{true≢false}
use cy_ph_os.Base.{
  ℕ, suc, ◌^◌, ◌≤◌, ◌<◌, ◌≡◌, refl, sym, ap, ◌∙◌, ◌||◌, Bool-cases, inl, inr, false, some, List, [],
  ◌∷◌, ◌++◌, ◌==◌, arith, length, length-append,
}
use cy_ph_os.Number.{put_string}
use cy_ph_os.Number.RoundTrip.{value, put_number-value, put_signed-value, mark, minus, magnitude}
use cy_ph_os.Output.{
  OutputStream, putc, flush, write_string, write_uint64, write_int64, write_pointer, buffer_size,
  set_base,
}

abbrev pub concat : List (List ℕ) → List ℕ
concat [] = []
concat (xs ∷ xss) = xs ++ concat xss

abbrev pub text : OutputStream → List ℕ
text s = concat s.sent ++ s.buffer

-- The next character has a place in the buffer, and every buffer that was sent fits.
abbrev pub AllFit : List (List ℕ) → Type 0
AllFit [] = Unit
AllFit (b ∷ bs) = (length b ≤ buffer_size) × AllFit bs

pub record Fits (s : OutputStream) : Type 0 where
  pub next : length s.buffer < buffer_size
  pub full : AllFit s.sent

concat-append : (xss : List (List ℕ)) (xs : List ℕ) → concat (xss ++ xs ∷ []) ≡ concat xss ++ xs
concat-append [] xs = append-nil xs
concat-append (ys ∷ xss) xs =
    ap (λ t. ys ++ t) (concat-append xss xs) ∙ sym (append_assoc ys (concat xss) xs)

AllFit-append :
    (bs : List (List ℕ)) (b : List ℕ) → AllFit bs → length b ≤ buffer_size → AllFit (bs ++ b ∷ [])
AllFit-append [] b h le = (le, tt)
AllFit-append (a ∷ bs) b h le = (h.0, AllFit-append bs b h.1 le)

-- One more character, in the text and in the buffer.
abbrev Adds : ℕ → OutputStream → OutputStream → Type 0
Adds c s s' = Fits s' × (text s' ≡ text s ++ c ∷ []) × (s'.base ≡ s.base)

short :
    (buffer : List ℕ) (c : ℕ)
    → length buffer < buffer_size
    → ((length (buffer ++ c ∷ []) == buffer_size) || (c == b'\n')) ≡ false
    → length (buffer ++ c ∷ []) < buffer_size
short buffer c h e =
    let len : length (buffer ++ c ∷ []) ≡ suc (length buffer) =
      length-append buffer (c ∷ []) ∙ omega arith in
    elim (Bool-cases (length (buffer ++ c ∷ []) == buffer_size)) [
      | inl e' ↦ absurd (true≢false (sym (ap (λ b. b || (c == b'\n')) e') ∙ e))
      | inr e' ↦ ground arith
    ]

putc-Adds : (c : ℕ) (s : OutputStream) → Fits s → Adds c s (putc c s)
unfolding putc flush
putc-Adds c s h =
    let len : length (s.buffer ++ c ∷ []) ≡ suc (length s.buffer) =
      length-append s.buffer (c ∷ []) ∙ omega arith in
    let le : length (s.buffer ++ c ∷ []) ≤ buffer_size = rw len h.next in
    elim (Bool-cases ((length (s.buffer ++ c ∷ []) == buffer_size) || (c == b'\n'))) [
      | inl e ↦ rw e (
        record { next = omega arith; full = AllFit-append s.sent (s.buffer ++ c ∷ []) h.full le },
        append-nil (concat (s.sent ++ (s.buffer ++ c ∷ []) ∷ []))
            ∙ concat-append s.sent (s.buffer ++ c ∷ [])
            ∙ sym (append_assoc (concat s.sent) s.buffer (c ∷ [])),
        refl,
      )
      | inr e ↦ rw e (
        record { next = short s.buffer c h.next e; full = h.full },
        sym (append_assoc (concat s.sent) s.buffer (c ∷ [])),
        refl,
      )
    ]

put_string-Adds :
    (cs : List ℕ) (s : OutputStream)
    → Fits s
    → Fits (put_string putc cs s)
      × (text (put_string putc cs s) ≡ text s ++ cs)
      × ((put_string putc cs s).base ≡ s.base)
unfolding put_string
put_string-Adds [] s h = (h, sym (append-nil (text s)), refl)
put_string-Adds (c ∷ cs) s h =
    let (h1, t1, b1) = putc-Adds c s h in
    let (h2, t2, b2) = put_string-Adds cs (putc c s) h1 in
    (h2, t2 ∙ ap (λ t. t ++ cs) t1 ∙ append_assoc (text s) (c ∷ []) cs, b2 ∙ b1)

-- When there is room for a character in the buffer and no buffer that was sent is longer than 256,
-- the same holds after a string is written; the text has exactly the string's characters added, and
-- the base is kept.
pub write_string-text :
    (cs : List ℕ) (s : OutputStream)
    → Fits s
    → Fits (write_string cs s)
      × (text (write_string cs s) ≡ text s ++ cs)
      × ((write_string cs s).base ≡ s.base)
unfolding write_string
write_string-text cs s h = put_string-Adds cs s h

-- With a base of 2 to 36 and a buffer that has room, printing a 64-bit word as a signed number
-- returns. The text gets a minus sign if the number is negative, the mark of the base and digits
-- that stand for its magnitude in the base; base and room are kept.
pub write_int64-text :
    (ival : ℕ) (s : OutputStream)
    → 2 ≤ s.base
    → s.base ≤ 36
    → ival < 2 ^ 64
    → Fits s
    → (cs : List ℕ) × (s' : OutputStream) × (write_int64 ival s ≡ some s')
      × (text s' ≡ text s ++ (minus ival ++ (mark s.base ++ cs)))
      × (value s.base 0 cs ≡ magnitude ival)
      × (s'.base ≡ s.base)
      × Fits s'
unfolding write_int64
write_int64-text ival s h2 h hv fits =
    let (cs, run, v, _) = put_signed-value putc s.base ival s h2 h hv in
    let (fits', t, b) = put_string-Adds (minus ival ++ (mark s.base ++ cs)) s fits in
    (cs, put_string putc (minus ival ++ (mark s.base ++ cs)) s, run, t, v, b, fits')

-- A pointer is printed in hexadecimal with its mark, and the base is then the old one again.
write_pointer-text :
    (ptr : ℕ) (s : OutputStream)
    → ptr < 2 ^ 64
    → Fits s
    → (cs : List ℕ) × (s' : OutputStream) × (write_pointer ptr s ≡ some s')
      × (text s' ≡ text s ++ (mark 16 ++ cs))
      × (value 16 0 cs ≡ ptr)
      × (s'.base ≡ s.base)
      × Fits s'
unfolding write_pointer write_uint64
write_pointer-text ptr s hv fits =
    let s16 : OutputStream = set_base 16 s in
    let fits16 : Fits s16 = record { next = fits.next; full = fits.full } in
    let (cs, run, v, _) = put_number-value putc 16 ptr s16 (omega arith) (omega arith) hv in
    let (fits', t, b) = put_string-Adds (mark 16 ++ cs) s16 fits16 in
    let s' : OutputStream = set_base s.base (put_string putc (mark 16 ++ cs) s16) in
    (
      cs,
      s',
      rw (write_pointer, write_uint64, run) refl,
      t,
      v,
      refl,
      record { next = fits'.next; full = fits'.full },
    )
