-- ===== src/Acpi/Tables.antt =====
-- arch/x86/driver/ACPI.cc and common/strcmp.h: the search for the firmware's tables by their
-- signatures. A char* is the function from an offset to the byte there.
use mathlib.Core.Bool.{true≢false}
use cy_ph_os.Base.{
  ℕ, zero, suc, ◌+◌, ◌-◌, ◌*◌, ◌^◌, ◌<◌, ◌≤◌, ◌≡◌, ◌≢◌, ◌⊎◌, refl, eq_of_test, ne_of_test, ==_refl,
  sym, ◌∙◌, ap, Bool, true, false, ◌||◌, Option, none, some, ◌==◌, ltb, if◌then◌else◌, arith,
  Bool-cases, inl, inr,
}
use cy_ph_os.Acpi.{Bytes, read32}

-- The loop of `strncmp`, from the offset `i` on.
unfoldable pub compare_from : ℕ → ℕ → Bytes → Bytes → Bool
compare_from zero i str1 str2 = true
compare_from (suc len) i str1 str2 =
    let rest = compare_from len (suc i) str1 str2 in
    if (str1 i == 0) || (str2 i == 0) then true else (if str1 i == str2 i then rest else false)

-- `strncmp`: true also if one of the strings ends first.
unfoldable pub strncmp : Bytes → Bytes → ℕ → Bool
strncmp str1 str2 len = if str1 0 == str2 0 then compare_from len 0 str1 str2 else false

abbrev pub at_address : Bytes → ℕ → Bytes
at_address mem a i = mem (a + i)

abbrev pub read64 : Bytes → ℕ → ℕ
read64 mem a = read32 mem a + read32 mem (a + 4) * 2 ^ 32

-- The loops of `findTablefromRSDT` and `findTablefromXSDT`, over entries of 4 and 8 bytes that `read`
-- gives; `none` is a lack of fuel. For a length below 36 the end wraps below the start, as the
-- subtraction that stops at 0 has it: no entry is read.
unfoldable pub find_entry : ℕ → ℕ → (ℕ → ℕ) → Bytes → Bytes → ℕ → ℕ → Option ℕ
find_entry zero size read mem signature entries_start entries_end = none
find_entry (suc fuel) size read mem signature entries_start entries_end =
    let rest = find_entry fuel size read mem signature (entries_start + size) entries_end in
    if ltb entries_start entries_end
    then (if strncmp signature (at_address mem (read entries_start)) 4
        then some (read entries_start)
        else rest)
    else some 0

unfoldable pub find_table_from_rsdt : ℕ → Bytes → ℕ → Bytes → Option ℕ
find_table_from_rsdt fuel mem rsdt signature =
    find_entry fuel 4 (read32 mem) mem signature (rsdt + 36)
      (rsdt + 36 + (read32 mem (rsdt + 4) - 36))

unfoldable pub find_table_from_xsdt : ℕ → Bytes → ℕ → Bytes → Option ℕ
find_table_from_xsdt fuel mem xsdt signature =
    find_entry fuel 8 (read64 mem) mem signature (xsdt + 36)
      (xsdt + 36 + (read32 mem (xsdt + 4) - 36))

-- The first bytes agree, and so does every one of the first `len` bytes that neither string ends at or
-- before.
abbrev pub Agrees : Bytes → Bytes → ℕ → Type 0
Agrees a b len =
    (a 0 ≡ b 0) × ((i : ℕ) → i < len → ((j : ℕ) → j ≤ i → (a j ≢ 0) × (b j ≢ 0)) → a i ≡ b i)

-- The first of `count` entries from an address on whose table agrees with the signature, or 0.
abbrev pub IsFirst : ℕ → (ℕ → ℕ) → Bytes → Bytes → ℕ → ℕ → ℕ → Type 0
IsFirst size read mem signature start count found =
    ((found ≡ 0)
      × ((j : ℕ) → j < count → ¬ Agrees signature (at_address mem (read (start + size * j))) 4))
    ⊎ ((k : ℕ) × (k < count)
        × (found ≡ read (start + size * k))
        × Agrees signature (at_address mem (read (start + size * k))) 4
        × ((j : ℕ) → j < k → ¬ Agrees signature (at_address mem (read (start + size * j))) 4))

compare_from_sound :
    (len i : ℕ) (a b : Bytes)
    → compare_from len i a b ≡ true
    → (j : ℕ) → i ≤ j
    → j < i + len
    → ((k : ℕ) → i ≤ k → k ≤ j → (a k ≢ 0) × (b k ≢ 0))
    → a j ≡ b j
unfolding compare_from
compare_from_sound zero i a b h j le lt ends = absurd (omega arith)
compare_from_sound (suc len) i a b h j le lt ends =
    let (a_on, b_on) = ends i (omega arith) (omega arith) in
    elim (Bool-cases (j == i)) [
      | inl e ↦ rw (eq_of_test j i e) (ground arith)
      | inr e ↦
          let ne = ne_of_test j i e in
          compare_from_sound len (suc i) a b (ground arith) j (omega arith) (omega arith)
            (λ k le' lt'. ends k (omega arith) lt')
    ]

compare_from_complete :
    (len i : ℕ) (a b : Bytes)
    → ((j : ℕ)
        → i ≤ j
        → j < i + len
        → ((k : ℕ) → i ≤ k → k ≤ j → (a k ≢ 0) × (b k ≢ 0))
        → a j ≡ b j)
    → compare_from len i a b ≡ true
unfolding compare_from
compare_from_complete zero i a b h = refl
compare_from_complete (suc len) i a b h = elim (Bool-cases ((a i == 0) || (b i == 0))) [
  | inl e ↦ rw e refl
  | inr e ↦
      let on : (a i ≢ 0) × (b i ≢ 0) = (ground arith, ground arith) in
      let here : a i ≡ b i =
        h i (omega arith) (omega arith) (λ k le lt. let same : k ≡ i = omega arith in rw same on) in
      let rest : compare_from len (suc i) a b ≡ true =
        compare_from_complete len (suc i) a b (λ j le lt ends.
          h j (omega arith) (omega arith) (λ k le' lt'. elim (Bool-cases (k == i)) [
            | inl f ↦ rw (eq_of_test k i f) on
            | inr f ↦ let ne = ne_of_test k i f in ends k (omega arith) lt'
          ])) in
      rw (e, here) (rw (==_refl (b i), rest) refl)
]

strncmp_sound : (a b : Bytes) (len : ℕ) → strncmp a b len ≡ true → Agrees a b len
unfolding strncmp
strncmp_sound a b len h =
    let rest : compare_from len 0 a b ≡ true = ground arith in
    (
      ground arith,
      λ i lt ends.
          compare_from_sound len 0 a b rest i (omega arith) (omega arith) (λ k le le'. ends k le'),
    )

strncmp_complete : (a b : Bytes) (len : ℕ) → Agrees a b len → strncmp a b len ≡ true
unfolding strncmp
strncmp_complete a b len agrees = rw agrees.0 (
    rw (==_refl (b 0)) (
      compare_from_complete len 0 a b
        (λ j le lt ends. agrees.1 j (omega arith) (λ k le'. ends k (omega arith) le'))))

strncmp_misses : (a b : Bytes) (len : ℕ) → strncmp a b len ≡ false → ¬ Agrees a b len
strncmp_misses a b len h agrees = true≢false (sym (strncmp_complete a b len agrees) ∙ h)

abbrev Misses : ℕ → (ℕ → ℕ) → Bytes → Bytes → ℕ → ℕ → Type 0
Misses size read mem signature start count =
    (j : ℕ) → j < count → ¬ Agrees signature (at_address mem (read (start + size * j))) 4

shifted : (start size j : ℕ) → start + size + size * j ≡ start + size * suc j
shifted start size j = grind arith

at_start : (start size : ℕ) → start + size * 0 ≡ start
at_start start size = grind arith

Misses-next :
    (size : ℕ) (read : ℕ → ℕ) (mem signature : Bytes) (start count : ℕ)
    → ¬ Agrees signature (at_address mem (read start)) 4
    → Misses size read mem signature (start + size) count
    → Misses size read mem signature start (suc count)
Misses-next size read mem signature start count here later zero lt = rw (at_start start size) here
Misses-next size read mem signature start count here later (suc j) lt =
    rw (← shifted start size j) (later j (omega arith))

-- Over `count` entries of a positive size, with more fuel than entries, the search for a table returns
-- the first entry whose table agrees with the signature in the first four bytes, or up to where one
-- of the two strings ends, and 0 if none does.
pub find_entry-IsFirst :
    (fuel size : ℕ) (read : ℕ → ℕ) (mem signature : Bytes) (start count : ℕ)
    → 0 < size
    → count < fuel
    → (found : ℕ) × (find_entry fuel size read mem signature start (start + size * count)
        ≡ some found)
      × IsFirst size read mem signature start count found
unfolding find_entry
find_entry-IsFirst zero size read mem signature start count pos enough = absurd (omega arith)
find_entry-IsFirst (suc fuel) size read mem signature start zero pos enough =
    let over : ltb start (start + size * 0) ≡ false =
      ap (ltb start) (at_start start size) ∙ ground arith in
    (0, rw over refl, inl (refl, λ j lt. absurd (omega arith)))
find_entry-IsFirst (suc fuel) size read mem signature start (suc count) pos enough =
    let more : start + size * suc count ≡ start + size + size * count =
      sym (shifted start size count) in
    let within : ltb start (start + size + size * count) ≡ true = ground arith in
    let same = at_start start size in
    elim (Bool-cases (strncmp signature (at_address mem (read start)) 4)) [
      | inl e ↦ (
        read start,
        rw more (rw (within, e) refl),
        inr (
          0,
          omega arith,
          ap read (sym same),
          rw same (strncmp_sound signature (at_address mem (read start)) 4 e),
          λ j lt. absurd (omega arith),
        ),
      )
      | inr e ↦
          let miss = strncmp_misses signature (at_address mem (read start)) 4 e in
          let (found, run, first) =
            find_entry-IsFirst fuel size read mem signature (start + size) count pos
              (omega arith) in
          (
            found,
            rw more (rw (within, e) run),
            elim first [
              | inl none_there ↦
                  inl (
                    none_there.0,
                    Misses-next size read mem signature start count miss none_there.1,
                  )
              | inr there ↦
                  let (k, lt, at, hit, before) = there in
                  inr (
                    suc k,
                    omega arith,
                    at ∙ ap read (shifted start size k),
                    rw (← shifted start size k) hit,
                    Misses-next size read mem signature start k miss before,
                  )
            ],
          )
    ]
