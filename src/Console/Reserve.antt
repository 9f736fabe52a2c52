-- ===== src/Console/Reserve.antt =====
-- Which line is reserved.
use cy_ph_os.Base.{ℕ, ◌<◌, ◌≡◌, ◌⊎◌, true, false, some}
use cy_ph_os.Console.{ConsoleBuffer, line_count, reserve}
use cy_ph_os.Ring.Search.{seek_free-Found}

-- The line is free, or every line is used and it is the one that was reserved last.
pub record Reserved (s : ConsoleBuffer) (n : ℕ) : Type 0 where
  pub bound : n < line_count
  pub free :
      (s.line_used n ≡ false)
      ⊎ ((n ≡ s.write_position) × ((j : ℕ) → j < line_count → s.line_used j ≡ true))

-- With the write position below 20, the search for a line ends within 20 rounds, at a line below 20
-- that is free, or at the write position when every line is used.
pub reserve-Reserved :
    (s : ConsoleBuffer)
    → s.write_position < line_count
    → (n : ℕ) × (reserve s ≡ some n) × Reserved s n
unfolding reserve
reserve-Reserved s h =
    let (n, run, found) = seek_free-Found line_count s.write_position s.line_used h in
    (n, run, record { bound = found.0; free = found.1 })
