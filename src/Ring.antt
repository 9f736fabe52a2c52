-- ===== src/Ring.antt =====
-- The search for a free entry of a ring of `count` entries, which driver/ConsoleBuffer.cc and
-- arch/armv7/imx6/driver/CanBuffer.h have in common.
pub mod Search
use cy_ph_os.Base.{ℕ, zero, suc, ◌+◌, ◌%◌, Bool, not, ◌&&◌, Option, none, some, ◌==◌, if◌then◌else◌}

-- `while (used[n] && (n != start)) n = (n + 1) % count;`, where `none` is a lack of fuel.
unfoldable pub seek_free : ℕ → ℕ → (ℕ → Bool) → ℕ → ℕ → Option ℕ
seek_free count zero used start n = none
seek_free count (suc fuel) used start n =
    let rest = seek_free count fuel used start ((n + 1) % count) in
    if used n && not (n == start) then rest else some n
