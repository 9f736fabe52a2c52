-- ===== src/Cache/Preload/Round.antt =====
-- A round of the loop in `preloadSingleOSC`: what it changes and what it keeps.
use mathlib.Core.Bool.{true≢false}
use mathlib.Core.List.{append_assoc, append-nil}
use cy_ph_os.Base.{
  ℕ, suc, ◌+◌, ◌*◌, ◌<◌, ◌≡◌, ◌≢◌, refl, sym, ap, ◌∙◌, inl, inr, Bool, true, false, List, [], ◌∷◌,
  ◌++◌, ◌==◌, if◌then◌else◌, arith, update_at, update_ne, test_of_ne,
}
use cy_ph_os.Cache.{
  CacheWay, CacheManagement, Call, prefetch_data_to_way, Osc, get_lru_way, load_part, part_end,
  text_part,
}
use cy_ph_os.Cache.Ways.{evictions, Granted}
use cy_ph_os.Cache.Preload.{Holds, Called, last, now_skips, AllNew}

Called-append :
    (call : Call) (c c' : CacheManagement) (more : List Call)
    → c'.calls ≡ c.calls ++ more
    → Called call c
    → Called call c'
Called-append call c c' more e (earlier, later, at) =
    (earlier, later ++ more, e ∙ ap (λ l. l ++ more) at ∙ append_assoc earlier (call ∷ later) more)

-- A way that is in use for other data is not the one that is granted.
other_way :
    (c : CacheManagement) (d way w p e a : ℕ) (c' : CacheManagement)
    → Granted d c way c'
    → p ≢ d
    → Holds c w p e a
    → w ≢ way
other_way c d way w p e a c' g ne h same = elim g.why [
  | inl old ↦ ne (sym h.start ∙ ap (λ w. (c.ways w).data_start) same ∙ old.0)
  | inr new ↦
      let free : (c.ways way).in_use ≡ false = ground (arith, new.0.1) in
      true≢false (sym h.in_use ∙ ap (λ w. (c.ways w).in_use) same ∙ free)
]

pub shifted : (start size j : ℕ) → start + size + size * j ≡ start + size * suc j
shifted start size j = grind arith

pub at_start : (start size : ℕ) → start + size * 0 ≡ start
at_start start size = grind arith

module _ (way_size : ℕ) (o : Osc) where
  -- What the round for `d` stores in the way.
  abbrev loaded_way : ℕ → ℕ → CacheManagement → CacheWay
  loaded_way d way c' = record (c'.ways way) {
    data_start = d;
    data_end = part_end way_size d o.end;
    osc = o.address;
  }

  pub load-Holds :
      (d way : ℕ) (skip : Bool) (c c' : CacheManagement)
      → part_end way_size d o.end ≡ last way_size o.end d
      → Granted d c way c'
      → Holds (load_part way_size o d way skip c') way d (last way_size o.end d) o.address
  unfolding load_part
  load-Holds d way skip c c' e g =
      let at = update_at c'.ways way (loaded_way d way c') refl in
      record {
        bound = rw g.count g.bound;
        start = ap (λ w. w.data_start) at;
        end = ap (λ w. w.data_end) at ∙ e;
        osc = ap (λ w. w.osc) at;
        in_use = ap (λ w. w.in_use) at ∙ g.in_use;
      }

  pub load_count :
      (d way : ℕ) (skip : Bool) (c c' : CacheManagement)
      → Granted d c way c'
      → (load_part way_size o d way skip c').way_count ≡ c.way_count
  unfolding load_part
  load_count d way skip c c' g = g.count

  pub load_other :
      (d way w : ℕ) (skip : Bool) (c c' : CacheManagement)
      → w ≢ way
      → (load_part way_size o d way skip c').ways w ≡ c'.ways w
  unfolding load_part
  load_other d way w skip c c' ne = update_ne c'.ways way (loaded_way d way c') ne

  pub load_at :
      (d way : ℕ) (skip : Bool) (c' : CacheManagement)
      → ((load_part way_size o d way skip c').ways way).data_start ≡ d
  unfolding load_part
  load_at d way skip c' = ap (λ w. w.data_start) (update_at c'.ways way (loaded_way d way c') refl)

  -- The ways of other data keep it.
  pub load-keeps :
      (d way w p e a : ℕ) (skip : Bool) (c c' : CacheManagement)
      → Granted d c way c'
      → p ≢ d
      → Holds c w p e a
      → Holds (load_part way_size o d way skip c') w p e a
  load-keeps d way w p e a skip c c' g ne h =
      let apart = other_way c d way w p e a c' g ne h in
      let at = load_other d way w skip c c' apart in
      let same = g.others w apart in
      record {
        bound = rw (load_count d way skip c c' g) h.bound;
        start = ap (λ w. w.data_start) at ∙ same.data_start ∙ h.start;
        end = ap (λ w. w.data_end) at ∙ same.data_end ∙ h.end;
        osc = ap (λ w. w.osc) at ∙ same.osc ∙ h.osc;
        in_use = ap (λ w. w.in_use) at ∙ same.in_use ∙ h.in_use;
      }

  -- The calls of a round: those of `getLRUWay`, and the prefetch.
  pub load_calls :
      (d way : ℕ) (skip : Bool) (c' : CacheManagement)
      → (load_part way_size o d way skip c').calls
        ≡ c'.calls
          ++ (if skip
              then []
              else prefetch_data_to_way d
                  (part_end way_size d o.end)
                  (text_part o.text_end (part_end way_size d o.end))
                  way
                ∷ [])
  unfolding load_part
  load_calls d way true c' = sym (append-nil c'.calls)
  load_calls d way false c' = refl

  pub load-Called :
      (d way : ℕ) (skip : Bool) (c c' : CacheManagement) (call : Call)
      → Granted d c way c'
      → Called call c
      → Called call (load_part way_size o d way skip c')
  load-Called d way skip c c' call g called =
      Called-append call c' (load_part way_size o d way skip c') _ (load_calls d way skip c')
        (elim g.why [
          | inl old ↦ Called-append call c c' [] (old.2 ∙ sym (append-nil c.calls)) called
          | inr new ↦ Called-append call c c' (evictions way (c.ways way)) new.2 called
        ])

  pub load_prefetch :
      (d way : ℕ) (skip : Bool) (c' : CacheManagement)
      → part_end way_size d o.end ≡ last way_size o.end d
      → skip ≡ false
      → Called
          (prefetch_data_to_way d
            (last way_size o.end d)
            (text_part o.text_end (last way_size o.end d))
            way)
          (load_part way_size o d way skip c')
  load_prefetch d way skip c' e off = (
    c'.calls,
    [],
    load_calls d way skip c'
        ∙ rw off
            (ap (λ b. c'.calls ++ prefetch_data_to_way d b (text_part o.text_end b) way ∷ []) e),
  )

  -- A granted way that had no data does not start the skipping.
  pub now_skips-AllNew :
      (s : ℕ) (skip : Bool) (c : CacheManagement)
      → s < o.end
      → Granted s c (get_lru_way s c).0 (get_lru_way s c).1
      → AllNew way_size o s skip c
      → now_skips s c skip ≡ false
  now_skips-AllNew s skip c lt g new = elim g.why [
    | inl old ↦ absurd (
        new.fresh (get_lru_way s c).0 0 g.bound (rw (at_start s way_size) lt)
          (old.0 ∙ sym (at_start s way_size)))
    | inr taken ↦
        let pos = new.present in
        let other : (0 == s) ≡ false = test_of_ne 0 s (λ (k : 0 ≡ s). absurd (omega arith)) in
        rw (taken.1, other) new.fetching
  ]
