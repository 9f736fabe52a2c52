-- ===== src/Queue/Model.antt =====
-- What the queue operations mean for the list of elements that a queue holds, first to last.
use cy_ph_os.Base.{ℕ, List, [], ◌∷◌, ◌++◌, ◌==◌, if◌then◌else◌, has}

abbrev pub append_new : List ℕ → ℕ → List ℕ
append_new xs x = if has x xs then xs else xs ++ x ∷ []

abbrev pub without : ℕ → List ℕ → List ℕ
without x [] = []
without x (y ∷ ys) = if x == y then ys else y ∷ without x ys
