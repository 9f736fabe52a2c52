-- ===== src/StackPool.antt =====
-- eventhandling/StackPool.h and StackPool.cc: the pool of execution stacks. `mUsedStacks` is a function
-- of the index, `cStackPoolSize` is `n`, and `base` is the address of `mStacks`.
pub mod Search
pub mod Held
use cy_ph_os.Base.{
  ℕ, zero, suc, ◌+◌, ◌*◌, ◌-◌, ◌%◌, Bool, true, false, not, ◌==◌, if◌then◌else◌, update,
}
use cy_ph_os.Queue.{Ptr, null}

pub record StackPool : Type 0 where
  pub used : ℕ → Bool
  pub pointer : ℕ

-- `STACK_SIZE` of common/config.h
abbrev pub stack_size : ℕ
stack_size = 16384

-- `STACKPOINTER_FROM_ARRAY(&mStacks[i])`
abbrev pub stack_address : ℕ → ℕ → Ptr
stack_address base i = base + i * stack_size + stack_size

-- The `do`-`while` of `getFreeStack`, with `k` rounds left: it ends when the pointer is back at `last`.
unfoldable pub search_free : ℕ → ℕ → ℕ → ℕ → StackPool → Ptr × StackPool
search_free n base last zero p = (null, p)
search_free n base last (suc k) p =
    let next = record p { pointer = (p.pointer + 1) % n } in
    let rest = search_free n base last k next in
    if not (p.used p.pointer)
    then (stack_address base p.pointer, record p { used = update p.used p.pointer true })
    else (if next.pointer == last then (null, next) else rest)

-- `getFreeStack`: at most `n` rounds, since the pointer is below `n`.
unfoldable pub get_free_stack : ℕ → ℕ → StackPool → Ptr × StackPool
get_free_stack n base p = search_free n base p.pointer n p

-- The loop of `setStackFree`, with `k` stacks left from `i` on. An unknown address changes nothing.
unfoldable pub release_from : ℕ → ℕ → ℕ → Ptr → StackPool → StackPool
release_from base zero i sp p = p
release_from base (suc k) i sp p =
    let rest = release_from base k (i + 1) sp p in
    if base + i * stack_size + stack_size == sp
    then record p { used = update p.used i false }
    else rest

unfoldable pub set_stack_free : ℕ → ℕ → Ptr → StackPool → StackPool
set_stack_free n base sp p = release_from base n 0 sp p
