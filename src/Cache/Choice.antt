-- ===== src/Cache/Choice.antt =====
-- Which way `getLRUWay` chooses.
use mathlib.Core.Bool.{true≢false}
use cy_ph_os.Base.{
  ℕ, zero, suc, ◌+◌, ◌≤◌, ◌<◌, ◌≡◌, ◌≢◌, refl, sym, ◌∙◌, ◌⊎◌, inl, inr, true, false, Option, none,
  some, ◌==◌, leb, arith, Bool-cases, eq_of_test, ne_of_test, update, update_at, update_ne, leb→le,
}
use cy_ph_os.Cache.{CacheWay, available, age, seek_data, seek_lru}

-- The best way below `i`.
abbrev pub Best : (ℕ → CacheWay) → ℕ → ℕ → Option ℕ → Type 0
Best ways i most none = (most ≡ 0) × ((j : ℕ) → j < i → available (ways j) ≡ false)
Best ways i most (some w) =
    (w < i)
    × (available (ways w) ≡ true)
    × ((ways w).lru_count ≡ most)
    × ((j : ℕ)
        → j < i
        → available (ways j) ≡ true
        → (0 < (ways j).data_start) × ((ways j).lru_count ≤ most))

-- No way below `n` is available; or the way is, and it is empty or has the oldest data of a cache with
-- no empty way.
abbrev pub Chosen : (ℕ → CacheWay) → ℕ → Option ℕ → Type 0
Chosen ways n none = (j : ℕ) → j < n → available (ways j) ≡ false
Chosen ways n (some w) =
    (w < n)
    × (available (ways w) ≡ true)
    × (((ways w).data_start ≡ 0)
        ⊎ ((j : ℕ)
            → j < n
            → available (ways j) ≡ true
            → (0 < (ways j).data_start) × ((ways j).lru_count ≤ (ways w).lru_count)))

Best-Chosen :
    (ways : ℕ → CacheWay) (n most : ℕ) (best : Option ℕ)
    → Best ways n most best
    → Chosen ways n best
Best-Chosen ways n most none b = b.1
Best-Chosen ways n most (some w) b =
    (b.0, b.1, inr (λ j h a. let r = b.3 j h a in (r.0, rw b.2 r.1)))

-- A way that is not available leaves the best way.
Best-pass :
    (ways : ℕ → CacheWay) (i most : ℕ) (best : Option ℕ)
    → available (ways i) ≡ false
    → Best ways i most best
    → Best ways (suc i) most best
Best-pass ways i most none e b = (
  b.0,
  λ j h. elim (Bool-cases (j == i)) [
    | inl t ↦ rw (eq_of_test j i t) e
    | inr t ↦ let ne = ne_of_test j i t in b.1 j (omega arith)
  ],
)
Best-pass ways i most (some w) e b = (
  omega arith,
  b.1,
  b.2,
  λ j h a. elim (Bool-cases (j == i)) [
    | inl t ↦ absurd (true≢false (sym a ∙ rw (eq_of_test j i t) e))
    | inr t ↦ let ne = ne_of_test j i t in b.3 j (omega arith) a
  ],
)

-- A way with data that is at least as old becomes the best.
Best-take :
    (ways : ℕ → CacheWay) (i most : ℕ) (best : Option ℕ)
    → available (ways i) ≡ true
    → 0 < (ways i).data_start
    → most ≤ (ways i).lru_count
    → Best ways i most best
    → Best ways (suc i) (ways i).lru_count (some i)
Best-take ways i most best a full le b = (
  omega arith,
  a,
  refl,
  λ j h e. elim (Bool-cases (j == i)) [
    | inl t ↦ rw (eq_of_test j i t) (full, omega arith)
    | inr t ↦ let ne = ne_of_test j i t in older best b j (omega arith) e
  ],
)
  where
    older :
        (best : Option ℕ)
        → Best ways i most best
        → (j : ℕ) → j < i
        → available (ways j) ≡ true
        → (0 < (ways j).data_start) × ((ways j).lru_count ≤ (ways i).lru_count)
    older none b j h e = absurd (true≢false (sym e ∙ b.1 j h))
    older (some w) b j h e = let r = b.3 j h e in let age = r.1 in (r.0, omega arith)

-- A younger one does not.
Best-keep :
    (ways : ℕ → CacheWay) (i most : ℕ) (best : Option ℕ)
    → 0 < (ways i).data_start
    → (ways i).lru_count < most
    → Best ways i most best
    → Best ways (suc i) most best
Best-keep ways i most none full lt b = let zero_most = b.0 in absurd (omega arith)
Best-keep ways i most (some w) full lt b =
    let below = b.0 in
    (
      omega arith,
      b.1,
      b.2,
      λ j h e. elim (Bool-cases (j == i)) [
        | inl t ↦ rw (eq_of_test j i t) (full, omega arith)
        | inr t ↦ let ne = ne_of_test j i t in b.3 j (omega arith) e
      ],
    )

-- What `getLRUWay` does not change in the ways that it looks at.
pub record SameData (w w' : CacheWay) : Type 0 where
  pub permanent_locked : w'.permanent_locked ≡ w.permanent_locked
  pub data_start : w'.data_start ≡ w.data_start
  pub data_end : w'.data_end ≡ w.data_end
  pub osc : w'.osc ≡ w.osc
  pub in_use : w'.in_use ≡ w.in_use

pub SameData-refl : (w : CacheWay) → SameData w w
SameData-refl w = record {
  permanent_locked = refl;
  data_start = refl;
  data_end = refl;
  osc = refl;
  in_use = refl;
}

age-SameData : (w v : CacheWay) → SameData w v → SameData w (age v)
age-SameData w v h = elim (Bool-cases (v.lru_count == 255)) [
  | inl e ↦ rw e h
  | inr e ↦ rw e (record {
    permanent_locked = h.permanent_locked;
    data_start = h.data_start;
    data_end = h.data_end;
    osc = h.osc;
    in_use = h.in_use;
  })
]

-- The search so far: the ways from `i` on are as they were, and the others kept their data.
pub record Scanned (old ways : ℕ → CacheWay) (i : ℕ) : Type 0 where
  pub same : (j : ℕ) → SameData (old j) (ways j)
  pub ahead : (j : ℕ) → i ≤ j → ways j ≡ old j

Scanned-pass : (old ways : ℕ → CacheWay) (i : ℕ) → Scanned old ways i → Scanned old ways (suc i)
Scanned-pass old ways i h = record { same = h.same; ahead = λ j le. h.ahead j (omega arith) }

Scanned-age :
    (old ways : ℕ → CacheWay) (i : ℕ)
    → Scanned old ways i
    → Scanned old (update ways i (age (ways i))) (suc i)
Scanned-age old ways i h = record {
  same = λ j. elim (Bool-cases (j == i)) [
    | inl e ↦
        let at = eq_of_test j i e in
        rw (update_at ways i (age (ways i)) at) (rw at (age-SameData (old i) (ways i) (h.same i)))
    | inr e ↦ rw (update_ne ways i (age (ways i)) (ne_of_test j i e)) (h.same j)
  ];
  ahead = λ j le.
      update_ne ways i (age (ways i)) (λ (e : j ≡ i). absurd (omega arith))
      ∙ h.ahead j (omega arith);
}

-- The second loop chooses as `Chosen` says, and keeps the data of every way.
pub seek_lru-Chosen :
    (rest i n : ℕ) (old ways : ℕ → CacheWay) (most : ℕ) (best : Option ℕ)
    → i + rest ≡ n
    → Scanned old ways i
    → Best old i most best
    → Chosen old n (seek_lru rest i ways most best).1
      × ((j : ℕ) → SameData (old j) ((seek_lru rest i ways most best).0 j))
unfolding seek_lru
seek_lru-Chosen zero i n old ways most best e h b =
    let same : i ≡ n = omega arith in (rw (← same) (Best-Chosen old i most best b), h.same)
seek_lru-Chosen (suc rest) i n old ways most best e h b =
    let at : ways i ≡ old i = h.ahead i (omega arith) in
    elim (Bool-cases (available (ways i))) [
      | inr out ↦ rw out (
          seek_lru-Chosen rest (suc i) n old ways most best (omega arith)
            (Scanned-pass old ways i h) (Best-pass old i most best (rw (← at) out) b))
      | inl ok ↦ elim (Bool-cases ((ways i).data_start == 0)) [
        | inl empty ↦
            rw (ok, empty)
              (
                (
                  omega arith,
                  rw (← at) ok,
                  inl (rw (← at) (eq_of_test (ways i).data_start 0 empty)),
                ),
                h.same,
              )
        | inr full ↦
            let ne = ne_of_test (ways i).data_start 0 full in
            let pos : 0 < (old i).data_start = rw (← at) (omega arith) in
            elim (Bool-cases (leb most (ways i).lru_count)) [
              | inl le ↦
                  rw (ok, full, le)
                    (seek_lru-Chosen rest (suc i) n old (update ways i (age (ways i)))
                      (ways i).lru_count (some i) (omega arith) (Scanned-age old ways i h)
                      (rw at (
                        Best-take old i most best (rw (← at) ok) pos
                          (rw (← at) (leb→le most (ways i).lru_count le)) b)))
              | inr lt ↦
                  rw (ok, full, lt)
                    (seek_lru-Chosen rest (suc i) n old (update ways i (age (ways i))) most best
                      (omega arith) (Scanned-age old ways i h)
                      (Best-keep old i most best pos (rw (← at) (ground arith)) b))
            ]
      ]
    ]

pub seek_lru-Chosen_from :
    (n : ℕ) (ways : ℕ → CacheWay)
    → Chosen ways n (seek_lru n 0 ways 0 none).1
      × ((j : ℕ) → SameData (ways j) ((seek_lru n 0 ways 0 none).0 j))
seek_lru-Chosen_from n ways =
    let none_yet : Best ways 0 0 none = (refl, λ j h. absurd (omega arith)) in
    seek_lru-Chosen n 0 n ways ways 0 none (omega arith)
      (record { same = λ j. SameData-refl (ways j); ahead = λ j h. refl }) none_yet

-- The first loop finds a way that has the data, or there is none.
pub seek_data_lem :
    (rest i n : ℕ) (ways : ℕ → CacheWay) (d : ℕ)
    → i + rest ≡ n
    → ((w : ℕ) × (seek_data rest i ways d ≡ some w) × (w < n) × ((ways w).data_start ≡ d))
      ⊎ ((seek_data rest i ways d ≡ none) × ((j : ℕ) → i ≤ j → j < n → (ways j).data_start ≢ d))
unfolding seek_data
seek_data_lem zero i n ways d e = inr (refl, λ j le lt. absurd (omega arith))
seek_data_lem (suc rest) i n ways d e = elim (Bool-cases ((ways i).data_start == d)) [
  | inl t ↦ inl (i, rw t refl, omega arith, eq_of_test (ways i).data_start d t)
  | inr t ↦ elim (seek_data_lem rest (suc i) n ways d (omega arith)) [
    | inl (w, run, lt, at) ↦ inl (w, rw t run, lt, at)
    | inr (run, out) ↦ inr (
      rw t run,
      λ j le lt. elim (Bool-cases (j == i)) [
        | inl here ↦ rw (eq_of_test j i here) (ne_of_test (ways i).data_start d t)
        | inr there ↦ let ne = ne_of_test j i there in out j (omega arith) lt
      ],
    )
  ]
]
