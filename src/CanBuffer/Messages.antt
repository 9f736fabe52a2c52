-- ===== src/CanBuffer/Messages.antt =====
-- A message that was entered is read again.
use mathlib.Core.Bool.{true≢false}
use cy_ph_os.Base.{
  ℕ, zero, suc, ◌+◌, ◌%◌, ◌≤◌, ◌<◌, ◌≡◌, ◌≢◌, refl, ap, ◌∙◌, ◌⊎◌, inl, inr, Bool, true, false, not,
  ◌&&◌, Option, none, some, ◌==◌, ltb, arith, Bool-cases, eq_of_test, ne_of_test, update, update_at,
  update_ne, ltb→lt, ltb→le,
}
use cy_ph_os.Ring.{seek_free}
use cy_ph_os.Ring.Search.{Found, seek_free-Found}
use cy_ph_os.CanBuffer.{
  CanBuffer, CanBufferMsg, Message, line_count, seek_msg, copy_bytes, fill_line, enter_found,
  enter_msg, free_line, read_msg,
}

abbrev is_none : Option ℕ → Bool
is_none none = true
is_none (some x) = false

-- The counter never stops the search: it is the search of the ring.
seek_msg-seek_free :
    (fuel counter : ℕ) (used : ℕ → Bool) (start n line : ℕ)
    → counter + fuel ≤ line_count + 1
    → seek_free line_count fuel used start n ≡ some line
    → seek_msg fuel used start n counter ≡ some (some line)
unfolding seek_msg seek_free
seek_msg-seek_free zero counter used start n line h run = absurd (true≢false (ap is_none run))
seek_msg-seek_free (suc fuel) counter used start n line h run =
    elim (Bool-cases (used n && not (n == start))) [
      | inr e ↦ rw e (ap some (rw e at run))
      | inl e ↦
          let goes_on : ltb (line_count + 1) (suc counter) ≡ false = ground arith in
          rw (e, goes_on)
            (seek_msg-seek_free fuel (suc counter) used start ((n + 1) % line_count) line
              (omega arith) (rw e at run))
    ]

copy_bytes_before :
    (rest i : ℕ) (source target : ℕ → ℕ) (j : ℕ)
    → j < i
    → copy_bytes rest i source target j ≡ target j
unfolding copy_bytes
copy_bytes_before zero i source target j h = refl
copy_bytes_before (suc rest) i source target j h =
    copy_bytes_before rest (suc i) source (update target i (source i)) j (omega arith)
    ∙ update_ne target i (source i) (λ (e : j ≡ i). absurd (omega arith))

copy_bytes_at :
    (rest i : ℕ) (source target : ℕ → ℕ) (j : ℕ)
    → i ≤ j
    → j < i + rest
    → copy_bytes rest i source target j ≡ source j
unfolding copy_bytes
copy_bytes_at zero i source target j h h' = absurd (omega arith)
copy_bytes_at (suc rest) i source target j h h' = elim (Bool-cases (j == i)) [
  | inl e ↦ rw (eq_of_test j i e) (
      copy_bytes_before rest (suc i) source (update target i (source i)) i (omega arith)
      ∙ update_at target i (source i) refl)
  | inr e ↦
      let ne = ne_of_test j i e in
      copy_bytes_at rest (suc i) source (update target i (source i)) j (omega arith) (omega arith)
]

-- The message that `readMsg` gives is the one that was entered, and its line is free again.
pub record ReadBack (message : ℕ → ℕ) (data_length message_id n : ℕ) (array : ℕ → ℕ) (b : CanBuffer)
    : Type 0 where
  pub read : Message
  pub left : CanBuffer
  pub run : read_msg n array b ≡ (some read, left)
  pub bytes : (j : ℕ) → j < data_length → read.bytes j ≡ message j
  pub length : read.length ≡ data_length
  pub id : read.id ≡ message_id
  pub freed : (left.lines n).is_used ≡ false

fill-ReadBack :
    (message : ℕ → ℕ) (data_length message_id n : ℕ) (array : ℕ → ℕ) (b : CanBuffer)
    → n < line_count
    → ReadBack message data_length message_id n array (fill_line message data_length message_id n b)
unfolding read_msg fill_line free_line
fill-ReadBack message data_length message_id n array b h =
    let entered : CanBufferMsg = record {
      id = message_id;
      msg = copy_bytes data_length 0 message (b.lines n).msg;
      data_length = data_length;
      is_used = true;
    } in
    let at = update_at b.lines n entered refl in
    let b1 : CanBuffer = fill_line message data_length message_id n b in
    let inside : ltb n line_count ≡ true = ground arith in
    record {
      read = record {
        bytes = copy_bytes data_length 0 entered.msg array;
        length = data_length;
        id = message_id;
      };
      left = free_line n b1;
      run = rw inside (rw at refl);
      bytes = λ j lt.
          copy_bytes_at data_length 0 entered.msg array j (omega arith) (omega arith)
          ∙ copy_bytes_at data_length 0 message (b.lines n).msg j (omega arith) (omega arith);
      length = refl;
      id = refl;
      freed =
          ap (λ l. l.is_used) (update_at b1.lines n (record (b1.lines n) { is_used = false }) refl);
    }

-- With the write position below 10: `enterMsg` of more than 8 bytes returns -1 and changes nothing;
-- otherwise it enters the message in a line that was free, or, when all were used, in the one that
-- was entered last, and changes no other line; `readMsg` of that line then gives the same bytes,
-- length and identifier, and frees the line.
pub enter_msg-ReadBack :
    (message : ℕ → ℕ) (data_length message_id : ℕ) (array : ℕ → ℕ) (b : CanBuffer)
    → b.write_position < line_count
    → ((8 < data_length) × (enter_msg message data_length message_id b ≡ some (none, b)))
      ⊎ ((data_length ≤ 8)
          × ((n : ℕ) × (b' : CanBuffer) × (enter_msg message data_length message_id b
                ≡ some (some n, b'))
              × Found line_count (λ j. (b.lines j).is_used) b.write_position n
              × (b'.write_position ≡ n)
              × ((j : ℕ) → j ≢ n → b'.lines j ≡ b.lines j)
              × ReadBack message data_length message_id n array b'))
unfolding enter_msg enter_found fill_line
enter_msg-ReadBack message data_length message_id array b h =
    elim (Bool-cases (ltb 8 data_length)) [
      | inl e ↦ inl (ltb→lt 8 data_length e, rw e refl)
      | inr e ↦
          let used : ℕ → Bool = λ j. (b.lines j).is_used in
          let (n, run, found) = seek_free-Found line_count b.write_position used h in
          let seek =
            seek_msg-seek_free line_count 0 used b.write_position
              ((b.write_position + 1) % line_count) n (omega arith) run in
          let b' : CanBuffer = fill_line message data_length message_id n b in
          inr (
            ltb→le 8 data_length e,
            (
              n,
              b',
              rw (e, seek) refl,
              found,
              refl,
              (λ j ne. update_ne b.lines n _ ne),
              fill-ReadBack message data_length message_id n array b found.0,
            ),
          )
    ]
