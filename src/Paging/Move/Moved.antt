-- ===== src/Paging/Move/Moved.antt =====
-- What `moveVirtualPageToPhysicalAddress` does to the tables and to the memory.
use cy_ph_os.Base.{
  ℕ, ◌+◌, ◌*◌, ◌<◌, ◌≡◌, ◌≢◌, refl, sym, ◌∙◌, ap, Bool, false, not, ◌==◌, arith, inl, inr,
  Bool-cases,
}
use cy_ph_os.Paging.{Memory}
use cy_ph_os.Paging.Mmu.{GenericMmu, IsPage}
use cy_ph_os.Paging.Move.{Space, copy_words, move_virtual_page}
use cy_ph_os.Paging.Move.Copy.{copy_words_at, copy_words_outside}

module _ (mmu : GenericMmu) where
  -- Mapping a page to where it is moves no page.
  physical-map_page_again :
      (t : mmu.Tables) (page target other : ℕ) (cacheable : Bool)
      → mmu.Ready t
      → IsPage page
      → IsPage target
      → mmu.physical t page ≡ target
      → IsPage other
      → mmu.physical (mmu.map_page t page target cacheable) other ≡ mmu.physical t other
  physical-map_page_again t page target other cacheable ready is_page is_target here is_other =
      elim (Bool-cases (other == page)) [
        | inl e ↦
            (let same : other ≡ page = ground arith in
              rw same
                (mmu.physical-map_page t page target cacheable ready is_page is_target ∙ sym here))
        | inr e ↦
            mmu.physical-map_page_other t page target other cacheable ready is_page is_other
              (ground arith)
      ]

  -- The page is at the target with what it had, no other page has moved, and no word outside of the
  -- target is changed.
  abbrev pub Moved : ℕ → ℕ → Space mmu → Space mmu → Type 0
  Moved page target s s' =
      mmu.Ready s'.tables
      × (mmu.physical s'.tables page ≡ target)
      × ((other : ℕ)
          → IsPage other
          → other ≢ page
          → mmu.physical s'.tables other ≡ mmu.physical s.tables other)
      × ((i : ℕ)
          → i < 512
          → s'.memory (target + 8 * i) ≡ s.memory (mmu.physical s.tables page + 8 * i))
      × ((a : ℕ) → ((i : ℕ) → i < 512 → a ≢ target + 8 * i) → s'.memory a ≡ s.memory a)

  module _ (page target dummy : ℕ) (cacheable : Bool) (s : Space mmu) (ready : mmu.Ready s.tables)
      (is_page : IsPage page) (is_target : IsPage target)
      (is_original : IsPage (mmu.physical s.tables page)) where
    abbrev first : mmu.Tables
    first = mmu.map_page s.tables page (mmu.physical s.tables page) (not cacheable)

    first-Ready : mmu.Ready first
    first-Ready = mmu.map_page-Ready s.tables page _ (not cacheable) ready is_page

    physical-first :
        (other : ℕ) → IsPage other → mmu.physical first other ≡ mmu.physical s.tables other
    physical-first other is_other =
        physical-map_page_again s.tables page _ other (not cacheable) ready is_page is_original refl
          is_other

    -- From tables that send the destination to the target.
    abbrev through : mmu.Tables → ℕ → Memory
    through t destination = copy_words mmu t 512 destination page s.memory

    through_at :
        (t : mmu.Tables) (destination : ℕ)
        → IsPage destination
        → mmu.physical t page ≡ mmu.physical s.tables page
        → mmu.physical t destination ≡ target
        → (i : ℕ) → i < 512
        → through t destination (target + 8 * i) ≡ s.memory (mmu.physical s.tables page + 8 * i)
    through_at t destination is_destination at_page at_destination i lt =
        let same : i ≡ 0 + i = omega arith in
        ap (λ n. through t destination (target + 8 * n)) same
        ∙ copy_words_at mmu t page destination _ target is_page.0 is_destination.0 at_page
            at_destination 512 0 i destination page s.memory (omega arith) (omega arith)
            (omega arith) is_original.0 is_target.0 lt
        ∙ ap (λ n. s.memory (mmu.physical s.tables page + 8 * n)) (sym same)

    through_outside :
        (t : mmu.Tables) (destination : ℕ)
        → IsPage destination
        → mmu.physical t page ≡ mmu.physical s.tables page
        → mmu.physical t destination ≡ target
        → (a : ℕ) → ((i : ℕ) → i < 512 → a ≢ target + 8 * i)
        → through t destination a ≡ s.memory a
    through_outside t destination is_destination at_page at_destination a out =
        copy_words_outside mmu t page destination _ target is_page.0 is_destination.0 at_page
          at_destination 512 0 destination page s.memory a (omega arith) (omega arith) (omega arith)
          (λ j lt e. out j lt (e ∙ omega arith))

    -- Tables that send the destination to the target and the page to where it was, and tables that
    -- send the page to the target afterwards.
    through-Moved :
        (t last : mmu.Tables) (destination : ℕ)
        → IsPage destination
        → mmu.physical t page ≡ mmu.physical s.tables page
        → mmu.physical t destination ≡ target
        → mmu.Ready last
        → mmu.physical last page ≡ target
        → ((other : ℕ)
            → IsPage other
            → other ≢ page
            → mmu.physical last other ≡ mmu.physical s.tables other)
        → Moved page target s (record { tables = last; memory = through t destination })
    through-Moved t last destination is_destination at_page at_destination ready_last moved others =
        (
          ready_last,
          moved,
          others,
          through_at t destination is_destination at_page at_destination,
          through_outside t destination is_destination at_page at_destination,
        )

    -- The target is mapped to itself.
    abbrev direct : mmu.Tables
    direct = mmu.map_page first target target cacheable

    physical-direct :
        mmu.physical first target ≡ target
        → (other : ℕ) → IsPage other
        → mmu.physical direct other ≡ mmu.physical s.tables other
    physical-direct itself other is_other =
        physical-map_page_again first target target other cacheable first-Ready is_target is_target
          itself is_other
        ∙ physical-first other is_other

    direct-Moved :
        mmu.physical first target ≡ target
        → Moved page target s (record {
          tables = mmu.map_page direct page target cacheable;
          memory = through direct target;
        })
    direct-Moved itself =
        let ready_direct = mmu.map_page-Ready first target target cacheable first-Ready is_target in
        through-Moved direct (mmu.map_page direct page target cacheable) target is_target
          (physical-direct itself page is_page)
          (mmu.physical-map_page first target target cacheable first-Ready is_target is_target)
          (mmu.map_page-Ready direct page target cacheable ready_direct is_page)
          (mmu.physical-map_page direct page target cacheable ready_direct is_page is_target)
          (λ other is_other ne.
            mmu.physical-map_page_other direct page target other cacheable ready_direct is_page
              is_other ne
            ∙ physical-direct itself other is_other)

    -- The dummy page stands for the target in between.
    module _ (is_dummy : IsPage dummy) (apart : page ≢ dummy)
        (free : mmu.physical s.tables dummy ≡ dummy) where
      abbrev lent : mmu.Tables
      lent = mmu.map_page first dummy target cacheable

      abbrev there : mmu.Tables
      there = mmu.map_page lent page target cacheable

      lent-Ready : mmu.Ready lent
      lent-Ready = mmu.map_page-Ready first dummy target cacheable first-Ready is_dummy

      there-Ready : mmu.Ready there
      there-Ready = mmu.map_page-Ready lent page target cacheable lent-Ready is_page

      physical-lent :
          (other : ℕ)
          → IsPage other
          → other ≢ dummy
          → mmu.physical lent other ≡ mmu.physical s.tables other
      physical-lent other is_other ne =
          mmu.physical-map_page_other first dummy target other cacheable first-Ready is_dummy
            is_other ne
          ∙ physical-first other is_other

      others_stay :
          (other : ℕ)
          → IsPage other
          → other ≢ page
          → mmu.physical (mmu.map_page there dummy dummy false) other ≡ mmu.physical s.tables other
      others_stay other is_other ne = elim (Bool-cases (other == dummy)) [
        | inl e ↦
            (let same : other ≡ dummy = ground arith in
              rw same (
                mmu.physical-map_page there dummy dummy false there-Ready is_dummy is_dummy
                ∙ sym free))
        | inr e ↦
            (let ne_dummy : other ≢ dummy = ground arith in
              mmu.physical-map_page_other there dummy dummy other false there-Ready is_dummy
                is_other ne_dummy
              ∙ mmu.physical-map_page_other lent page target other cacheable lent-Ready is_page
                  is_other ne
              ∙ physical-lent other is_other ne_dummy)
      ]

      lent-Moved :
          Moved page target s
            (record { tables = mmu.map_page there dummy dummy false; memory = through lent dummy })
      lent-Moved =
          through-Moved lent (mmu.map_page there dummy dummy false) dummy is_dummy
            (physical-lent page is_page apart)
            (mmu.physical-map_page first dummy target cacheable first-Ready is_dummy is_target)
            (mmu.map_page-Ready there dummy dummy false there-Ready is_dummy)
            (mmu.physical-map_page_other there dummy dummy page false there-Ready is_dummy is_page
                apart
              ∙ mmu.physical-map_page lent page target cacheable lent-Ready is_page is_target)
            others_stay

      -- For tables that are ready, a page other than the dummy page, which is mapped to itself, and a
      -- target at the start of a page: afterwards the page is mapped to the target, which holds the
      -- words of the page; no other page is mapped anew and no word outside of the target changes.
      pub move_virtual_page-Moved :
          Moved page target s (move_virtual_page mmu dummy page target cacheable s)
      unfolding move_virtual_page
      move_virtual_page-Moved = elim (Bool-cases (mmu.physical first target == target)) [
        | inl e ↦ rw e (direct-Moved (ground arith))
        | inr e ↦ rw e lent-Moved
      ]
