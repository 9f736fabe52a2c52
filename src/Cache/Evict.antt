-- ===== src/Cache/Evict.antt =====
-- Eviction of a component: exactly its ways become available again.
use mathlib.Core.List.{append-nil, append_assoc}
use cy_ph_os.Base.{
  ℕ, zero, suc, ◌+◌, ◌≤◌, ◌<◌, ◌≡◌, ◌≢◌, refl, sym, ap, ◌∙◌, ◌⊎◌, inl, inr, Bool, true, false, ◌||◌,
  ◌==◌, if◌then◌else◌, arith, Bool-cases, eq_of_test, ne_of_test, update_at, update_ne, List, [],
  ◌∷◌, ◌++◌,
}
use cy_ph_os.Cache.{
  CacheWay, CacheManagement, Osc, Call, evict_cache_way, contains, evict_data, released, free_way,
  free_ways, lookup_and_evict, evict_osc,
}

-- The way as the eviction of a component leaves it.
unfoldable pub after_eviction : Bool → Osc → CacheWay → CacheWay
after_eviction after_use o w = if contains o w then released after_use w else w

-- The calls that evict the ways of a component, `rest` ways from `way` on.
unfoldable pub eviction_calls : ℕ → ℕ → Osc → (ℕ → CacheWay) → List Call
eviction_calls zero way o ways = []
eviction_calls (suc rest) way o ways =
    let further = eviction_calls rest (suc way) o ways in
    if contains o (ways way)
    then evict_cache_way way (ways way).data_start (ways way).data_end ∷ further
    else further

record OnlyCalls (rest way : ℕ) (o : Osc) (c c' : CacheManagement) : Type 0 where
  ways : c'.ways ≡ c.ways
  count : c'.way_count ≡ c.way_count
  calls : c'.calls ≡ c.calls ++ eviction_calls rest way o c.ways

evict_data_lem :
    (rest way : ℕ) (o : Osc) (c : CacheManagement)
    → OnlyCalls rest way o c (evict_data rest way o c)
unfolding evict_data eviction_calls
evict_data_lem zero way o c = record { ways = refl; count = refl; calls = sym (append-nil c.calls) }
evict_data_lem (suc rest) way o c = elim (Bool-cases (contains o (c.ways way))) [
  | inr e ↦
      let ih = evict_data_lem rest (suc way) o c in
      rw e (record { ways = ih.ways; count = ih.count; calls = rw e ih.calls })
  | inl e ↦
      let call = evict_cache_way way (c.ways way).data_start (c.ways way).data_end in
      let c1 : CacheManagement = record c { calls = c.calls ++ call ∷ [] } in
      let ih = evict_data_lem rest (suc way) o c1 in
      rw e (record {
        ways = ih.ways;
        count = ih.count;
        calls =
            rw e (
              ih.calls ∙ append_assoc c.calls (call ∷ []) (eviction_calls rest (suc way) o c.ways));
      })
]

-- The second loop: the ways from `way` on that it has passed are freed.
record Freed (after_use : Bool) (o : Osc) (way rest : ℕ) (c c' : CacheManagement) : Type 0 where
  inside : (j : ℕ) → way ≤ j → j < way + rest → c'.ways j ≡ after_eviction after_use o (c.ways j)
  before : (j : ℕ) → j < way → c'.ways j ≡ c.ways j
  calls : c'.calls ≡ c.calls
  count : c'.way_count ≡ c.way_count

unchanged :
    (after_use : Bool) (o : Osc) (w : CacheWay)
    → contains o w ≡ false
    → w ≡ after_eviction after_use o w
unfolding after_eviction
unchanged after_use o w e = rw e refl

freed_at :
    (after_use : Bool) (cpu way : ℕ) (o : Osc) (c : CacheManagement)
    → contains o (c.ways way) ≡ true
    → (free_way after_use cpu way c).ways way ≡ after_eviction after_use o (c.ways way)
unfolding after_eviction free_way
freed_at after_use cpu way o c e =
    rw e (update_at c.ways way (released after_use (c.ways way)) refl)

freed_elsewhere :
    (after_use : Bool) (cpu way : ℕ) (c : CacheManagement) (j : ℕ)
    → j ≢ way
    → (free_way after_use cpu way c).ways j ≡ c.ways j
unfolding free_way
freed_elsewhere after_use cpu way c j ne = update_ne c.ways way (released after_use (c.ways way)) ne

freed_calls :
    (after_use : Bool) (cpu way : ℕ) (c : CacheManagement)
    → (free_way after_use cpu way c).calls ≡ c.calls
unfolding free_way
freed_calls after_use cpu way c = refl

freed_count :
    (after_use : Bool) (cpu way : ℕ) (c : CacheManagement)
    → (free_way after_use cpu way c).way_count ≡ c.way_count
unfolding free_way
freed_count after_use cpu way c = refl

-- One round and then the others.
Freed-next :
    (after_use : Bool) (o : Osc) (way rest : ℕ) (c c1 c2 : CacheManagement)
    → c1.ways way ≡ after_eviction after_use o (c.ways way)
    → ((j : ℕ) → j ≢ way → c1.ways j ≡ c.ways j)
    → c1.calls ≡ c.calls
    → c1.way_count ≡ c.way_count
    → Freed after_use o (suc way) rest c1 c2
    → Freed after_use o way (suc rest) c c2
Freed-next after_use o way rest c c1 c2 at ne calls count ih = record {
  inside = λ j le lt. elim (Bool-cases (j == way)) [
    | inl e ↦ rw (eq_of_test j way e) (ih.before way (omega arith) ∙ at)
    | inr e ↦
        let off = ne_of_test j way e in
        ih.inside j (omega arith) (omega arith) ∙ ap (after_eviction after_use o) (ne j off)
  ];
  before = λ j lt. ih.before j (omega arith) ∙ ne j (λ (e : j ≡ way). absurd (omega arith));
  calls = ih.calls ∙ calls;
  count = ih.count ∙ count;
}

free_ways-Freed :
    (rest way : ℕ) (after_use : Bool) (cpu : ℕ) (o : Osc) (c : CacheManagement)
    → Freed after_use o way rest c (free_ways rest way after_use cpu o c)
unfolding free_ways
free_ways-Freed zero way after_use cpu o c = record {
  inside = λ j le lt. absurd (omega arith);
  before = λ j lt. refl;
  calls = refl;
  count = refl;
}
free_ways-Freed (suc rest) way after_use cpu o c = elim (Bool-cases (contains o (c.ways way))) [
  | inr e ↦
      let ih = free_ways-Freed rest (suc way) after_use cpu o c in
      rw e (
        Freed-next after_use o way rest c c _ (unchanged after_use o (c.ways way) e) (λ j ne. refl)
          refl refl ih)
  | inl e ↦
      let c1 : CacheManagement = free_way after_use cpu way c in
      let ih = free_ways-Freed rest (suc way) after_use cpu o c1 in
      rw e (
        Freed-next after_use o way rest c c1 _ (freed_at after_use cpu way o c e)
          (freed_elsewhere after_use cpu way c) (freed_calls after_use cpu way c)
          (freed_count after_use cpu way c) ih)
]

-- `lookupAndEvictOSC` evicts the data of exactly the ways that contain a part of the component, in
-- order, releases these ways and leaves the others and the way count as they are.
pub lookup_and_evict-after_eviction :
    (after_use : Bool) (cpu : ℕ) (o : Osc) (c : CacheManagement)
    → ((j : ℕ)
        → j < c.way_count
        → (lookup_and_evict after_use cpu o c).ways j ≡ after_eviction after_use o (c.ways j))
      × ((lookup_and_evict after_use cpu o c).calls
          ≡ c.calls ++ eviction_calls c.way_count 0 o c.ways)
      × ((lookup_and_evict after_use cpu o c).way_count ≡ c.way_count)
unfolding lookup_and_evict
lookup_and_evict-after_eviction after_use cpu o c =
    let only = evict_data_lem c.way_count 0 o c in
    let freed = free_ways-Freed c.way_count 0 after_use cpu o (evict_data c.way_count 0 o c) in
    (
      λ j lt.
          freed.inside j (omega arith) (omega arith)
          ∙ ap (λ f. after_eviction after_use o (f j)) only.ways,
      freed.calls ∙ only.calls,
      freed.count ∙ only.count,
    )

-- The component's ways, and those of its dependencies, are not in use after the task.
not_in_use_after :
    (after_use : Bool) (o : Osc) (w : CacheWay)
    → w.in_use ≡ false
    → (after_eviction after_use o w).in_use ≡ false
unfolding after_eviction
not_in_use_after after_use o w h = elim (Bool-cases (contains o w)) [
  | inl e ↦ rw e refl
  | inr e ↦ rw e h
]

abbrev pub any_contains : List Osc → CacheWay → Bool
any_contains [] w = false
any_contains (o ∷ os) w = contains o w || any_contains os w

count_after :
    (after_use : Bool) (cpu : ℕ) (o : Osc) (c : CacheManagement)
    → (lookup_and_evict after_use cpu o c).way_count ≡ c.way_count
count_after after_use cpu o c = (lookup_and_evict-after_eviction after_use cpu o c).2

stays_free :
    (after_use : Bool) (cpu : ℕ) (os : List Osc) (c : CacheManagement) (j : ℕ)
    → j < c.way_count
    → (c.ways j).in_use ≡ false
    → ((evict_osc after_use cpu os c).ways j).in_use ≡ false
unfolding evict_osc
stays_free after_use cpu [] c j lt h = h
stays_free after_use cpu (o ∷ os) c j lt h =
    let at = (lookup_and_evict-after_eviction after_use cpu o c).0 j lt in
    stays_free after_use cpu os (lookup_and_evict after_use cpu o c) j
      (rw (count_after after_use cpu o c) lt)
      (ap (λ w. w.in_use) at ∙ not_in_use_after after_use o (c.ways j) h)

released_of :
    (after_use : Bool) (o : Osc) (w : CacheWay)
    → contains o w ≡ true
    → (after_eviction after_use o w).in_use ≡ false
unfolding after_eviction
released_of after_use o w e = rw e refl

-- After `evictOSC` of a list of components, a way that had a part of one of them is not in use, and
-- every other way is as before.
pub evict_osc-any_contains :
    (after_use : Bool) (cpu : ℕ) (os : List Osc) (c : CacheManagement) (j : ℕ)
    → j < c.way_count
    → ((any_contains os (c.ways j) ≡ true)
        × (((evict_osc after_use cpu os c).ways j).in_use ≡ false))
      ⊎ ((any_contains os (c.ways j) ≡ false) × ((evict_osc after_use cpu os c).ways j ≡ c.ways j))
unfolding evict_osc
evict_osc-any_contains after_use cpu [] c j lt = inr (refl, refl)
evict_osc-any_contains after_use cpu (o ∷ os) c j lt =
    let c1 : CacheManagement = lookup_and_evict after_use cpu o c in
    let at = (lookup_and_evict-after_eviction after_use cpu o c).0 j lt in
    let lt1 : j < c1.way_count = rw (count_after after_use cpu o c) lt in
    elim (Bool-cases (contains o (c.ways j))) [
      | inl e ↦ inl (
        ap (λ b. b || any_contains os (c.ways j)) e,
        stays_free after_use cpu os c1 j lt1
            (ap (λ w. w.in_use) at ∙ released_of after_use o (c.ways j) e),
      )
      | inr e ↦
          let same : c1.ways j ≡ c.ways j = at ∙ sym (unchanged after_use o (c.ways j) e) in
          let skip = ap (λ b. b || any_contains os (c.ways j)) e in
          elim (evict_osc-any_contains after_use cpu os c1 j lt1) [
            | inl r ↦ inl (skip ∙ rw (← same) r.0, r.1)
            | inr r ↦ inr (skip ∙ rw (← same) r.0, r.1 ∙ same)
          ]
    ]
