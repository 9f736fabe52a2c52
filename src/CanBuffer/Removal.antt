-- ===== src/CanBuffer/Removal.antt =====
-- The removal of the messages with an identifier.
use native.Mathlib.Nat.{mod-eq_of_lt}
use cy_ph_os.Base.{
  ℕ, zero, suc, ◌+◌, ◌%◌, ◌≤◌, ◌<◌, ◌≡◌, ◌≢◌, refl, ap, ◌∙◌, inl, inr, Bool, true, false, ◌&&◌,
  ◌==◌, if◌then◌else◌, arith, Bool-cases, eq_of_test, ne_of_test, update_at, update_ne,
}
use cy_ph_os.CanBuffer.{
  CanBuffer, CanBufferMsg, line_count, free_line, remove_from, remove_msg_with_id,
}

abbrev pub matches : ℕ → CanBufferMsg → Bool
matches id l = l.is_used && (l.id == id)

-- A line after the removal.
unfoldable pub without : ℕ → CanBufferMsg → CanBufferMsg
without id l = if matches id l then record l { is_used = false } else l

-- How many of `rest` lines from `i` on hold a message with the identifier.
unfoldable pub count_matches : ℕ → ℕ → ℕ → (ℕ → CanBufferMsg) → ℕ
count_matches zero i id lines = 0
count_matches (suc rest) i id lines =
    (if matches id (lines i) then 1 else 0) + count_matches rest (suc i) id lines

record Removed (rest i id counter : ℕ) (b : CanBuffer) (r : ℕ × CanBuffer) : Type 0 where
  inside : (j : ℕ) → i ≤ j → j < i + rest → r.1.lines j ≡ without id (b.lines j)
  before : (j : ℕ) → j < i → r.1.lines j ≡ b.lines j
  number : r.0 ≡ counter + count_matches rest i id b.lines
  position : r.1.write_position ≡ b.write_position

-- The count looks only at the lines from `i` on.
count_matches_ahead :
    (rest i id : ℕ) (f g : ℕ → CanBufferMsg)
    → ((j : ℕ) → i ≤ j → f j ≡ g j)
    → count_matches rest i id f ≡ count_matches rest i id g
unfolding count_matches
count_matches_ahead zero i id f g h = refl
count_matches_ahead (suc rest) i id f g h = rw (h i (omega arith)) (
    ap (λ k. (if matches id (g i) then 1 else 0) + k)
      (count_matches_ahead rest (suc i) id f g (λ j le. h j (omega arith))))

remove_next :
    (rest i id counter counter' : ℕ) (b b1 : CanBuffer) (r : ℕ × CanBuffer)
    → b1.lines i ≡ without id (b.lines i)
    → ((j : ℕ) → j ≢ i → b1.lines j ≡ b.lines j)
    → b1.write_position ≡ b.write_position
    → counter' ≡ counter + (if matches id (b.lines i) then 1 else 0)
    → Removed rest (suc i) id counter' b1 r
    → Removed (suc rest) i id counter b r
unfolding count_matches
remove_next rest i id counter counter' b b1 r at off position count ih =
    let same =
      count_matches_ahead rest (suc i) id b1.lines b.lines
        (λ j le. off j (λ (e : j ≡ i). absurd (omega arith))) in
    let number = ih.number in
    record {
      inside = λ j le lt. elim (Bool-cases (j == i)) [
        | inl e ↦ rw (eq_of_test j i e) (ih.before i (omega arith) ∙ at)
        | inr e ↦
            let ne = ne_of_test j i e in
            ih.inside j (omega arith) (omega arith) ∙ ap (without id) (off j ne)
      ];
      before = λ j lt. ih.before j (omega arith) ∙ off j (λ (e : j ≡ i). absurd (omega arith));
      number = omega arith;
      position = ih.position ∙ position;
    }

free_at :
    (i id : ℕ) (b : CanBuffer)
    → matches id (b.lines i) ≡ true
    → (free_line i b).lines i ≡ without id (b.lines i)
unfolding free_line without
free_at i id b e = rw e (update_at b.lines i (record (b.lines i) { is_used = false }) refl)

free_ne : (i : ℕ) (b : CanBuffer) (j : ℕ) → j ≢ i → (free_line i b).lines j ≡ b.lines j
unfolding free_line
free_ne i b j ne = update_ne b.lines i (record (b.lines i) { is_used = false }) ne

free_position : (i : ℕ) (b : CanBuffer) → (free_line i b).write_position ≡ b.write_position
unfolding free_line
free_position i b = refl

kept : (id : ℕ) (l : CanBufferMsg) → matches id l ≡ false → l ≡ without id l
unfolding without
kept id l e = rw e refl

remove_from-Removed :
    (rest i id counter : ℕ) (b : CanBuffer)
    → counter + rest < 256
    → Removed rest i id counter b (remove_from rest i id counter b)
unfolding remove_from count_matches
remove_from-Removed zero i id counter b h = record {
  inside = λ j le lt. absurd (omega arith);
  before = λ j lt. refl;
  number = omega arith;
  position = refl;
}
remove_from-Removed (suc rest) i id counter b h = elim (Bool-cases (matches id (b.lines i))) [
  | inl e ↦
      let small : suc counter % 256 ≡ suc counter = mod-eq_of_lt (omega arith) in
      let ih = remove_from-Removed rest (suc i) id (suc counter) (free_line i b) (omega arith) in
      rw (e, small)
        (remove_next rest i id counter (suc counter) b (free_line i b) _ (free_at i id b e)
          (free_ne i b) (free_position i b) (rw e (omega arith)) ih)
  | inr e ↦
      let ih = remove_from-Removed rest (suc i) id counter b (omega arith) in
      rw e (
        remove_next rest i id counter counter b b _ (kept id (b.lines i) e) (λ j ne. refl) refl
          (rw e (omega arith)) ih)
]

-- `removeMsgWithID` frees exactly the used lines that have the identifier, leaves the other lines
-- and the write position as they are, and returns how many it freed.
pub remove_msg_with_id-without :
    (id : ℕ) (b : CanBuffer)
    → ((j : ℕ) → j < line_count → (remove_msg_with_id id b).1.lines j ≡ without id (b.lines j))
      × ((remove_msg_with_id id b).0 ≡ count_matches line_count 0 id b.lines)
      × ((remove_msg_with_id id b).1.write_position ≡ b.write_position)
unfolding remove_msg_with_id
remove_msg_with_id-without id b =
    let r = remove_from-Removed line_count 0 id 0 b (omega arith) in
    let number = r.number in
    (λ j lt. r.inside j (omega arith) (omega arith), omega arith, r.position)
