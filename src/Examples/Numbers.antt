-- ===== src/Examples/Numbers.antt =====
-- The random numbers at a concrete input: a byte, a word, a seed that is ignored, and a byte.
use cy_ph_os.Base.{[], ◌∷◌, arith}
use cy_ph_os.Random.{first_state}
use cy_ph_os.Random.Nonzero.{IsSeeded, byte, word, seed, run_calls, run_calls-IsSeeded}

run_calls-IsSeeded_example :
    IsSeeded first_state × IsSeeded (run_calls (byte ∷ word ∷ seed 0 ∷ byte ∷ []) first_state)
run_calls-IsSeeded_example =
    run_calls-IsSeeded (byte ∷ word ∷ seed 0 ∷ byte ∷ []) first_state (omega arith, omega arith)
