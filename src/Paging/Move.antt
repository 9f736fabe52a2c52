-- ===== src/Paging/Move.antt =====
-- driver/GenericMMU.cc: a virtual page is moved to another physical page, for any port.
-- The pages that move hold data: the memory of a port's own tables is a state of its own.
pub mod Copy
pub mod Moved
pub mod Run
use cy_ph_os.Base.{
  ℕ, zero, suc, ◌+◌, ◌*◌, ◌/◌, ◌%◌, Bool, true, false, not, ◌==◌, update, if◌then◌else◌,
}
use cy_ph_os.Paging.{Memory}
use cy_ph_os.Paging.Mmu.{GenericMmu}

-- `getPageSize` of both ports.
abbrev pub page_size : ℕ
page_size = 4096

module _ (mmu : GenericMmu) where
  -- The tables, and the words of eight bytes of the physical memory.
  pub record Space : Type 0 where
    pub tables : mmu.Tables
    pub memory : Memory

  -- The physical address that a virtual one stands for.
  abbrev pub translate : mmu.Tables → ℕ → ℕ
  translate t a = mmu.physical t (a / page_size * page_size) + a % page_size

  -- The load of a word through the tables.
  abbrev pub load : Space → ℕ → ℕ
  load s a = s.memory (translate s.tables a)

  -- The loop of `moveVirtualPageToPhysicalAddress`, a word in each round.
  unfoldable pub copy_words : mmu.Tables → ℕ → ℕ → ℕ → Memory → Memory
  copy_words t zero destination source memory = memory
  copy_words t (suc count) destination source memory =
      copy_words t count (destination + 8) (source + 8)
        (update memory (translate t destination) (memory (translate t source)))

  -- `moveVirtualPageToPhysicalAddress`, without CONFIG_SET_ALL_PAGES_CACHEABLE and
  -- CONFIG_WIPE_OLD_PAGE; `dummy` is getDummyPageAddress.
  unfoldable pub move_virtual_page : ℕ → ℕ → ℕ → Bool → Space → Space
  move_virtual_page dummy page target cacheable s =
      let original = mmu.physical s.tables page in
      let t1 = mmu.map_page s.tables page original (not cacheable) in
      let dummy_page = not (mmu.physical t1 target == target) in
      let destination = if dummy_page then dummy else target in
      let t2 = mmu.map_page t1 destination target cacheable in
      let memory = copy_words t2 (page_size / 8) destination page s.memory in
      let t3 = mmu.map_page t2 page target cacheable in
      let t4 = if dummy_page then mmu.map_page t3 dummy dummy false else t3 in
      record { tables = t4; memory = memory }
