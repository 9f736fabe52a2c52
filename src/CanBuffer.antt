-- ===== src/CanBuffer.antt =====
-- arch/armv7/imx6/driver/CanBuffer.h: a ring of ten messages between the CAN driver and the components.
pub mod Messages
pub mod Removal
use cy_ph_os.Base.{
  ℕ, zero, suc, ◌+◌, ◌%◌, Bool, true, false, not, ◌&&◌, Option, none, some, ◌==◌, ltb,
  if◌then◌else◌, update,
}

abbrev pub line_count : ℕ
line_count = 10

pub record CanBufferMsg : Type 0 where
  pub id : ℕ
  pub msg : ℕ → ℕ
  pub data_length : ℕ
  pub is_used : Bool

pub record CanBuffer : Type 0 where
  pub write_position : ℕ
  pub lines : ℕ → CanBufferMsg

-- The loop of `enterMsg`: `some none` when it gives up by its counter, `none` for a lack of fuel.
unfoldable pub seek_msg : ℕ → (ℕ → Bool) → ℕ → ℕ → ℕ → Option (Option ℕ)
seek_msg zero used start n counter = none
seek_msg (suc fuel) used start n counter =
    let rest = seek_msg fuel used start ((n + 1) % line_count) (suc counter) in
    if used n && not (n == start)
    then (if ltb (line_count + 1) (suc counter) then some none else rest)
    else some (some n)

-- `for (i = 0; i < dataLength; i++) to[i] = from[i];`
unfoldable pub copy_bytes : ℕ → ℕ → (ℕ → ℕ) → (ℕ → ℕ) → ℕ → ℕ
copy_bytes zero i source target = target
copy_bytes (suc rest) i source target = copy_bytes rest (suc i) source (update target i (source i))

unfoldable pub fill_line : (ℕ → ℕ) → ℕ → ℕ → ℕ → CanBuffer → CanBuffer
fill_line message data_length message_id n b =
    let entered : CanBufferMsg = record {
      id = message_id;
      msg = copy_bytes data_length 0 message (b.lines n).msg;
      data_length = data_length;
      is_used = true;
    } in
    record { write_position = n; lines = update b.lines n entered }

unfoldable pub enter_found :
    (ℕ → ℕ) → ℕ → ℕ → CanBuffer → Option (Option ℕ) → Option (Option ℕ × CanBuffer)
enter_found message data_length message_id b none = none
enter_found message data_length message_id b (some none) = some (none, b)
enter_found message data_length message_id b (some (some n)) =
    some (some n, fill_line message data_length message_id n b)

-- `enterMsg`: the line, or `none` inside for -1.
unfoldable pub enter_msg : (ℕ → ℕ) → ℕ → ℕ → CanBuffer → Option (Option ℕ × CanBuffer)
enter_msg message data_length message_id b =
    let line =
      seek_msg line_count (λ n. (b.lines n).is_used) b.write_position
        ((b.write_position + 1) % line_count) 0 in
    if ltb 8 data_length then some (none, b) else enter_found message data_length message_id b line

unfoldable pub free_line : ℕ → CanBuffer → CanBuffer
free_line n b = record b { lines = update b.lines n (record (b.lines n) { is_used = false }) }

-- What `readMsg` hands out.
pub record Message : Type 0 where
  pub bytes : ℕ → ℕ
  pub length : ℕ
  pub id : ℕ

-- `readMsg` into the array `message`; `none` is -1.
unfoldable pub read_msg : ℕ → (ℕ → ℕ) → CanBuffer → Option Message × CanBuffer
read_msg n message b =
    let line = b.lines n in
    let read : Message = record {
      bytes = copy_bytes line.data_length 0 line.msg message;
      length = line.data_length;
      id = line.id;
    } in
    if ltb n line_count
    then (if line.is_used then (some read, free_line n b) else (none, b))
    else (none, b)

-- `removeMsgWithID`: the rest of the lines, from `i` on, and the counter.
unfoldable pub remove_from : ℕ → ℕ → ℕ → ℕ → CanBuffer → ℕ × CanBuffer
remove_from zero i id counter b = (counter, b)
remove_from (suc rest) i id counter b =
    let removed = remove_from rest (suc i) id (suc counter % 256) (free_line i b) in
    let passed = remove_from rest (suc i) id counter b in
    if (b.lines i).is_used && ((b.lines i).id == id) then removed else passed

unfoldable pub remove_msg_with_id : ℕ → CanBuffer → ℕ × CanBuffer
remove_msg_with_id id b = remove_from line_count 0 id 0 b
