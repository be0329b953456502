-- ===== src/Memory/Pmm.antt =====
-- The physical page allocator, kernel/src/memory/pmm.c: a bitmap with one bit for each page of the
-- usable regions, in the order of the memory map. The file's static variables are the record `Pmm`.
pub mod Alloc
pub mod Bitmap
pub mod Count
pub mod Init
pub mod Laws
mod Tests
pub mod Address
use bethany.Prelude.{
  ℕ, zero, suc, ◌+◌, ◌-◌, ◌*◌, ◌/◌, ◌%◌, ◌^◌, Bool, true, false, not, ◌&&◌, List, [], ◌∷◌, Option,
  none, some, bit_and, bit_or, ltb, leb, ◌==◌, if◌then◌else◌, update, wrap64,
}
use bethany.Memory.Regions.{MemoryRegion, memory_usable, same_type}

abbrev pub page_size : ℕ
page_size = 4096

pub record PmmRegion : Type 0 where
  pub base : ℕ
  pub pages : ℕ

-- `bitmap` is the byte array that the pointer of that name addresses.
pub record Pmm : Type 0 where
  pub usable : List PmmRegion
  pub bitmap : ℕ → ℕ
  pub page_count : ℕ
  pub bitmap_size : ℕ
  pub bitmap_phys : ℕ

pub bitmap_set : (ℕ → ℕ) → ℕ → ℕ → ℕ
bitmap_set bitmap bit = update bitmap (bit / 8) (bit_or (bitmap (bit / 8)) (2 ^ (bit % 8)))

-- `~(1 << k)`, cut to the byte that it is stored in.
pub bitmap_clear : (ℕ → ℕ) → ℕ → ℕ → ℕ
bitmap_clear bitmap bit = update bitmap (bit / 8) (bit_and (bitmap (bit / 8)) (255 - 2 ^ (bit % 8)))

-- Nonzero if the page is in use.
pub bitmap_test : (ℕ → ℕ) → ℕ → ℕ
bitmap_test bitmap bit = bit_and (bitmap (bit / 8)) (2 ^ (bit % 8))

-- The inner loop of `pmm_alloc_page`: the address of the page with this number.
unfoldable pub page_address : List PmmRegion → ℕ → Option ℕ
page_address [] index = none
page_address (r ∷ rs) index =
    if ltb index r.pages
    then some (wrap64 (r.base + index * page_size))
    else page_address rs (index - r.pages)

-- The outer loop, with the rounds left first. A null pointer is 0.
pub alloc_loop : ℕ → ℕ → Pmm → ℕ × Pmm
alloc_loop zero bitmap_index p = (0, p)
alloc_loop (suc n) bitmap_index p = elim (bitmap_test p.bitmap bitmap_index == 0) [
  | false ↦ alloc_loop n (bitmap_index + 1) p
  | true ↦
      let p' = record p { bitmap = bitmap_set p.bitmap bitmap_index } in
      elim (page_address p.usable bitmap_index) [
        | some address ↦ (address, p')
        | none ↦ alloc_loop n (bitmap_index + 1) p'
      ]
]

pub pmm_alloc_page : Pmm → ℕ × Pmm
unfolding alloc_loop
pmm_alloc_page p = alloc_loop p.page_count 0 p

-- The loop of `pmm_free_page`: the number of the page at this address.
pub page_index : List PmmRegion → ℕ → ℕ → Option ℕ
page_index [] addr bitmap_index = none
page_index (r ∷ rs) addr bitmap_index =
    if leb r.base addr && ltb addr (wrap64 (r.base + r.pages * page_size))
    then some (bitmap_index + (addr - r.base) / page_size)
    else page_index rs addr (bitmap_index + r.pages)

-- An address in no region is reported on the screen and changes nothing.
pub pmm_free_page : Pmm → ℕ → Pmm
pmm_free_page p page = if page == 0 then p else elim (page_index p.usable page 0) [
  | none ↦ p
  | some index ↦ record p { bitmap = bitmap_clear p.bitmap index }
]

-- The first loop of `pmm_init`: the usable regions of the memory map.
unfoldable pub usable_regions : List MemoryRegion → List PmmRegion
usable_regions [] = []
usable_regions (r ∷ rs) =
    let rest = usable_regions rs in
    if same_type r.type memory_usable
    then record { base = r.base; pages = r.length / page_size } ∷ rest
    else rest

-- The loop that sums `page_count`.
pub count_pages : ℕ → List PmmRegion → ℕ
count_pages page_count [] = page_count
count_pages page_count (r ∷ rs) = count_pages (wrap64 (page_count + r.pages)) rs

-- The loop that places the bitmap: the first region that has a page.
pub bitmap_region : List PmmRegion → Option ℕ
bitmap_region [] = none
bitmap_region (r ∷ rs) = if wrap64 (r.pages * page_size) == 0 then bitmap_region rs else some r.base

-- `for(i = 0; i < n; i++) bitmap[i] = 0`, the last round outermost.
pub zero_bytes : ℕ → (ℕ → ℕ) → ℕ → ℕ
zero_bytes zero bitmap = bitmap
zero_bytes (suc i) bitmap = update (zero_bytes i bitmap) i 0

-- `for(i = 0; i < n; i++) bitmap_set(i)`, the last round outermost.
pub reserve_pages : ℕ → (ℕ → ℕ) → ℕ → ℕ
reserve_pages zero bitmap = bitmap
reserve_pages (suc i) bitmap = bitmap_set (reserve_pages i bitmap) i

pub bitmap_pages : ℕ → ℕ
bitmap_pages size = wrap64 (size + page_size - 1) / page_size

-- `memory` is what the bitmap's bytes hold before. `none` is the halt: no region has a page, or the
-- address of the bitmap is 0.
pub pmm_init : ℕ → (ℕ → ℕ) → List MemoryRegion → Option Pmm
unfolding usable_regions count_pages bitmap_region zero_bytes reserve_pages bitmap_pages bitmap_set
pmm_init hhdm memory regions =
    let usable = usable_regions regions in
    let page_count = count_pages 0 usable in
    let bitmap_size = wrap64 (page_count + 7) / 8 in
    elim (bitmap_region usable) [
      | none ↦ none
      | some bitmap_phys ↦
          if wrap64 (bitmap_phys + hhdm) == 0
          then none
          else some (record {
            usable = usable;
            bitmap = reserve_pages (bitmap_pages bitmap_size) (zero_bytes bitmap_size memory);
            page_count = page_count;
            bitmap_size = bitmap_size;
            bitmap_phys = bitmap_phys;
          })
    ]

-- The loop of `pmm_print` that counts the free pages, the last round outermost.
pub free_pages : ℕ → (ℕ → ℕ) → ℕ
free_pages zero bitmap = 0
free_pages (suc i) bitmap =
    if bitmap_test bitmap i == 0 then free_pages i bitmap + 1 else free_pages i bitmap

pub record PmmReport : Type 0 where
  pub free : ℕ
  pub used : ℕ
  pub free_mib : ℕ
  pub used_mib : ℕ

-- The numbers that `pmm_print` computes.
pub pmm_print : Pmm → PmmReport
unfolding free_pages
pmm_print p =
    let free = free_pages p.page_count p.bitmap in
    record {
      free = free;
      used = p.page_count - free;
      free_mib = wrap64 (free * page_size) / 1024 / 1024;
      used_mib = wrap64 ((p.page_count - free) * page_size) / 1024 / 1024;
    }
