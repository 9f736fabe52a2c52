-- ===== src/Paging/Mmu.antt =====
-- driver/GenericMMU.h: what a port has to offer, and what the code relies on.
use cy_ph_os.Base.{ℕ, ◌%◌, ◌^◌, ◌<◌, ◌≡◌, ◌≢◌, Bool}

-- The start of a page of the 32-bit address space.
abbrev pub IsPage : ℕ → Type 0
IsPage a = (a % 4096 ≡ 0) × (a < 2 ^ 32)

-- `physical` is getPhysicalAddressForVirtual at the start of a page, `map_page` is
-- mapVirtualPageToPhysicalAddress. Only the page that is mapped changes its place.
pub record GenericMmu : Type 1 where
  pub Tables : Type 0
  pub Ready : Tables → Type 0
  pub physical : Tables → ℕ → ℕ
  pub map_page : Tables → ℕ → ℕ → Bool → Tables
  pub map_page-Ready :
      (t : Tables) (page target : ℕ) (cacheable : Bool)
      → Ready t
      → IsPage page
      → Ready (map_page t page target cacheable)
  pub physical-map_page :
      (t : Tables) (page target : ℕ) (cacheable : Bool)
      → Ready t
      → IsPage page
      → IsPage target
      → physical (map_page t page target cacheable) page ≡ target
  pub physical-map_page_other :
      (t : Tables) (page target other : ℕ) (cacheable : Bool)
      → Ready t
      → IsPage page
      → IsPage other
      → other ≢ page
      → physical (map_page t page target cacheable) other ≡ physical t other
