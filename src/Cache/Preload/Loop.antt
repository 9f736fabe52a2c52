-- ===== src/Cache/Preload/Loop.antt =====
-- The loop in `preloadSingleOSC`: the parts it comes to, and what it leaves.
use cy_ph_os.Base.{
  ℕ, zero, suc, ◌+◌, ◌-◌, ◌*◌, ◌%◌, ◌^◌, ◌≤◌, ◌<◌, ◌≡◌, ◌≢◌, refl, sym, ap, ◌∙◌, ◌⊎◌, inl, inr,
  Bool, true, false, Option, none, some, ◌==◌, ltb, arith, Bool-cases, ltb→lt, ==_refl, eq_of_test,
  ne_of_test,
}
use cy_ph_os.Cache.{
  CacheManagement, Osc, get_lru_way, load_part, preload_parts, preload_single_osc, part_end,
  max_cache_ways,
}
use cy_ph_os.Cache.Ways.{Granted, get_lru_way-Granted}
use cy_ph_os.Cache.Preload.{
  last, following, now_skips, Stuck, denied, after_part, AllNew, PartLoaded, Loaded,
}
use cy_ph_os.Cache.Preload.Round.{
  shifted, at_start, load-Holds, load_count, load_other, load_at, load-keeps, load-Called,
  load_prefetch, now_skips-AllNew,
}

-- The machine's words are large enough for the component and a way more.
module _ (way_size : ℕ) (o : Osc) (size_ge : 4 ≤ way_size) (room : o.end + way_size < 2 ^ 64) where
  part_end_lem : (s : ℕ) → s < o.end → part_end way_size s o.end ≡ last way_size o.end s
  part_end_lem s lt =
      let e : (s + (way_size + 2 ^ 64 - 4) % 2 ^ 64) % 2 ^ 64 ≡ s + (way_size - 4) = omega arith in
      rw e refl

  -- The next part starts `way_size` bytes on; with none left the loop is at the end.
  following_lem :
      (s : ℕ)
      → s < o.end
      → ((following way_size o s ≡ s + way_size) × (s + way_size ≤ o.end))
        ⊎ ((following way_size o s ≡ o.end) × (o.end ≤ s + way_size))
  following_lem s lt = rw (part_end_lem s lt) (elim (Bool-cases (ltb o.end (s + (way_size - 4)))) [
    | inl e ↦
        let over : ltb o.end ((o.end + 4) % 2 ^ 64) ≡ true = ground arith in
        inr (rw (e, over) refl, ground arith)
    | inr e ↦
        let word : (s + (way_size - 4) + 4) % 2 ^ 64 ≡ s + way_size = omega arith in
        elim (Bool-cases (ltb o.end (s + way_size))) [
          | inl f ↦ inr (rw (e, word, f) refl, ground arith)
          | inr f ↦ inl (rw (e, word, f) refl, ground arith)
        ]
  ])

  following-lt : (s : ℕ) → s < o.end → s < following way_size o s
  following-lt s lt = elim (following_lem s lt) [
    | inl more ↦ rw more.0 (omega arith)
    | inr done ↦ rw done.0 lt
  ]

  -- The parts from the next one on are the parts after this one.
  part_before :
      (s k : ℕ)
      → s < o.end
      → s + way_size * suc k < o.end
      → following way_size o s + way_size * k ≡ s + way_size * suc k
  part_before s k lt within = elim (following_lem s lt) [
    | inl more ↦ ap (λ f. f + way_size * k) more.0 ∙ shifted s way_size k
    | inr done ↦ let beyond = shifted s way_size k in let le = done.1 in absurd (omega arith)
  ]

  part_after :
      (s k : ℕ)
      → s < o.end
      → following way_size o s + way_size * k < o.end
      → following way_size o s + way_size * k ≡ s + way_size * suc k
  part_after s k lt within = elim (following_lem s lt) [
    | inl more ↦ ap (λ f. f + way_size * k) more.0 ∙ shifted s way_size k
    | inr done ↦ let at = done.0 in absurd (omega arith)
  ]

  load-AllNew :
      (s way : ℕ) (skip : Bool) (c c' : CacheManagement)
      → s < o.end
      → Granted s c way c'
      → (now : Bool) → now ≡ false
      → AllNew way_size o s skip c
      → AllNew way_size o (following way_size o s) now (load_part way_size o s way now c')
  load-AllNew s way skip c c' lt g now off new = record {
    fetching = off;
    present = let up = following-lt s lt in omega arith;
    fresh = λ j k h within. elim (Bool-cases (j == way)) [
      | inl e ↦
          let up = following-lt s lt in
          λ (same : _).
            let here : s ≡ following way_size o s + way_size * k =
              sym (load_at way_size o s way now c')
              ∙ ap (λ w. ((load_part way_size o s way now c').ways w).data_start)
                  (sym (eq_of_test j way e))
              ∙ same in
            absurd (omega arith)
      | inr e ↦
          let apart = ne_of_test j way e in
          let at = load_other way_size o s way j now c c' apart in
          let same = g.others j apart in
          let next = part_after s k lt within in
          let bound : j < c.way_count = rw (← load_count way_size o s way now c c' g) h in
          let within' : s + way_size * suc k < o.end = rw (← next) within in
          λ (eq : _).
            new.fresh j (suc k) bound within'
              (sym same.data_start ∙ sym (ap (λ w. w.data_start) at) ∙ eq ∙ next)
    ];
  }

  Loaded-next :
      (s way : ℕ) (skip : Bool) (c c' : CacheManagement) (run : Option CacheManagement)
      → s < o.end
      → Granted s c way c'
      → (now : Bool) → (AllNew way_size o s skip c → now ≡ false)
      → Loaded way_size o (following way_size o s) now (load_part way_size o s way now c') run
      → Loaded way_size o s skip c run
  Loaded-next s way skip c c' none lt g now off l = l
  Loaded-next s way skip c c' (some c2) lt g now off l =
      let up = following-lt s lt in
      let e = part_end_lem s lt in
      let c1 = load_part way_size o s way now c' in
      let here : PartLoaded way_size o (AllNew way_size o s skip c) s c2 = (
        way,
        l.1 way s _ o.address up (load-Holds way_size o s way now c c' e g),
        λ new. l.2 _ (load_prefetch way_size o s way now c' e (off new)),
      ) in
      (
        part_lem here l.0,
        λ w p e' a below h.
            let ne : p ≢ s = λ (k : p ≡ s). absurd (omega arith) in
            l.1 w p e' a (omega arith) (load-keeps way_size o s way w p e' a now c c' g ne h),
        λ call called. l.2 call (load-Called way_size o s way now c c' call g called),
        l.3 ∙ load_count way_size o s way now c c' g,
      )
    where
      part_lem :
          PartLoaded way_size o (AllNew way_size o s skip c) s c2
          → ((k : ℕ)
              → following way_size o s + way_size * k < o.end
              → PartLoaded way_size o
                  (AllNew way_size o
                    (following way_size o s)
                    now
                    (load_part way_size o s way now c'))
                  (following way_size o s + way_size * k)
                  c2)
          → (k : ℕ) → s + way_size * k < o.end
          → PartLoaded way_size o (AllNew way_size o s skip c) (s + way_size * k) c2
      part_lem here later zero within = rw (at_start s way_size) here
      part_lem here later (suc k) within =
          let next = part_before s k lt within in
          let within' : following way_size o s + way_size * k < o.end = rw next within in
          let (w, holds, fetched) = later k within' in
          rw (← next)
            (w, holds, λ new. fetched (load-AllNew s way skip c c' lt g now (off new) new))

  Loaded-empty :
      (s : ℕ) (skip : Bool) (c : CacheManagement)
      → ltb s o.end ≡ false
      → Loaded way_size o s skip c (some c)
  Loaded-empty s skip c e =
      (λ k within. absurd (ground arith), λ w p e' a below h. h, λ call called. called, refl)

  -- The loop ends with every part loaded, or there is no way for a part.
  abbrev Outcome : ℕ → Bool → CacheManagement → Option CacheManagement → Type 0
  Outcome s skip c run = Loaded way_size o s skip c run ⊎ ((run ≡ none) × Stuck way_size o s skip c)

  preload_parts-Outcome :
      (fuel s : ℕ) (skip : Bool) (c : CacheManagement)
      → c.way_count ≤ max_cache_ways
      → 0 < fuel
      → o.end < s + fuel
      → Outcome s skip c (preload_parts fuel way_size o s skip c)
  unfolding preload_parts
  preload_parts-Outcome zero s skip c h z f = absurd (omega arith)
  preload_parts-Outcome (suc fuel) s skip c h z f = elim (Bool-cases (ltb s o.end)) [
    | inr e ↦ rw e (inl (Loaded-empty s skip c e))
    | inl e ↦
        let lt : s < o.end = ltb→lt s o.end e in
        elim (get_lru_way-Granted s c) [
          | inr den ↦
              let out : ((get_lru_way s c).0 == max_cache_ways) ≡ true =
                rw den.no_way (==_refl max_cache_ways) in
              rw (e, out) (inr (refl, denied s skip c lt den))
          | inl g ↦
              let bound = g.bound in
              let found : ((get_lru_way s c).0 == max_cache_ways) ≡ false = ground arith in
              let up = following-lt s lt in
              let way = (get_lru_way s c).0 in
              let c' : CacheManagement = (get_lru_way s c).1 in
              let now = now_skips s c skip in
              let same_count = load_count way_size o s way now c c' g in
              let ih =
                preload_parts-Outcome fuel (following way_size o s) now
                  (load_part way_size o s way now c') (rw same_count h) (omega arith)
                  (omega arith) in
              rw (e, found)
                (elim ih [
                  | inl l ↦ inl (
                      Loaded-next s way skip c c' _ lt g now
                        (now_skips-AllNew way_size o s skip c lt g) l)
                  | inr st ↦ inr (st.0, after_part s skip c lt g st.1)
                ])
        ]
  ]

  -- With ways of at least 4 bytes, a component that ends more than a way below 2^64, at most
  -- cMaxCacheWays ways and more fuel than bytes: either `preloadSingleOSC` returns, and each part
  -- of the component, one every `way_size` bytes, has a way in use, from its first byte to 4 bytes
  -- before the next part or to the end of the component; if the component does not start at 0 and
  -- no way had one of its parts before, the part was prefetched into that way; and the ways of
  -- earlier addresses keep their data. Or it ends in its endless loop, and then it has come, after
  -- granting a way to each part before, to a part for which `getLRUWay` finds none.
  pub preload_single_osc-Loaded :
      (fuel : ℕ) (c : CacheManagement)
      → c.way_count ≤ max_cache_ways
      → 0 < fuel
      → o.end < o.start + fuel
      → Loaded way_size o o.start false c (preload_single_osc fuel way_size o c)
        ⊎ ((preload_single_osc fuel way_size o c ≡ none) × Stuck way_size o o.start false c)
  unfolding preload_single_osc
  preload_single_osc-Loaded fuel c h z f = preload_parts-Outcome fuel o.start false c h z f
