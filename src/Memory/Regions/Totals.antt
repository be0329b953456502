-- ===== src/Memory/Regions/Totals.antt =====
-- The sums over the memory map, kernel/src/memory/memory.c.
use bethany.Prelude.{
  ℕ, ◌+◌, ◌^◌, ◌≤◌, ◌<◌, ◌≡◌, ◌⊎◌, List, [], ◌∷◌, arith, inl, inr, refl, ltb, if◌then◌else◌, wrap64,
  Bool-cases, ltb→lt, sym,
}
use bethany.Memory.Regions.{
  MemoryType, memory_usable, memory_reserved, memory_acpi_reclaimable, memory_acpi_nvs,
  memory_bootloader_reclaimable, memory_kernel, memory_framebuffer, memory_bad_memory,
  memory_unknown, MemoryRegion, same_type, total_loop, memory_total, amount_loop, memory_amount,
  highest_loop, memory_highest_address,
}

-- The sum of the lengths, and of those of one type, as plain numbers.
abbrev pub sum_lengths : List MemoryRegion → ℕ
sum_lengths [] = 0
sum_lengths (r ∷ rs) = r.length + sum_lengths rs

-- The number, if the type is the one asked for.
abbrev part : MemoryType → ℕ → MemoryType → ℕ
part s n t = if same_type s t then n else 0

abbrev sum_of_type : MemoryType → List MemoryRegion → ℕ
sum_of_type t [] = 0
sum_of_type t (r ∷ rs) = part r.type r.length t + sum_of_type t rs

total_loop_lem :
    (total : ℕ) (rs : List MemoryRegion)
    → total < 2 ^ 64
    → total_loop total rs ≡ wrap64 (total + sum_lengths rs)
unfolding total_loop
total_loop_lem total [] h = omega arith
total_loop_lem total (r ∷ rs) h =
    omega (arith, total_loop_lem (wrap64 (total + r.length)) rs (omega arith))

amount_loop_lem :
    (t : MemoryType) (total : ℕ) (rs : List MemoryRegion)
    → total < 2 ^ 64
    → amount_loop t total rs ≡ wrap64 (total + sum_of_type t rs)
unfolding amount_loop
amount_loop_lem t total [] h = omega arith
amount_loop_lem t total (r ∷ rs) h = elim (Bool-cases (same_type r.type t)) [
  | inl same ↦
      rw same (omega (arith, amount_loop_lem t (wrap64 (total + r.length)) rs (omega arith)))
  | inr other ↦ rw other (omega (arith, amount_loop_lem t total rs h))
]

-- The sum of a number for each type.
abbrev pub over_types : (MemoryType → ℕ) → ℕ
over_types f =
    f memory_usable
    + f memory_reserved
    + f memory_acpi_reclaimable
    + f memory_acpi_nvs
    + f memory_bootloader_reclaimable
    + f memory_kernel
    + f memory_framebuffer
    + f memory_bad_memory
    + f memory_unknown

-- Each region counts for exactly one type.
part_of : (s : MemoryType) (n : ℕ) → over_types (λ t. part s n t) ≡ n
part_of memory_usable n = omega arith
part_of memory_reserved n = omega arith
part_of memory_acpi_reclaimable n = omega arith
part_of memory_acpi_nvs n = omega arith
part_of memory_bootloader_reclaimable n = omega arith
part_of memory_kernel n = omega arith
part_of memory_framebuffer n = omega arith
part_of memory_bad_memory n = omega arith
part_of memory_unknown n = omega arith

sum_types : (rs : List MemoryRegion) → over_types (λ t. sum_of_type t rs) ≡ sum_lengths rs
sum_types [] = omega arith
sum_types (r ∷ rs) = omega (arith, sum_types rs, part_of r.type r.length)

-- The amounts of the nine types add up to `memory_total`, modulo the width of the counter.
pub memory_total-memory_amount :
    (rs : List MemoryRegion) → memory_total rs ≡ wrap64 (over_types (λ t. memory_amount rs t))
unfolding memory_total memory_amount
memory_total-memory_amount rs = omega (
  arith,
  sum_types rs,
  total_loop_lem 0 rs (omega arith),
  amount_loop_lem memory_usable 0 rs (omega arith),
  amount_loop_lem memory_reserved 0 rs (omega arith),
  amount_loop_lem memory_acpi_reclaimable 0 rs (omega arith),
  amount_loop_lem memory_acpi_nvs 0 rs (omega arith),
  amount_loop_lem memory_bootloader_reclaimable 0 rs (omega arith),
  amount_loop_lem memory_kernel 0 rs (omega arith),
  amount_loop_lem memory_framebuffer 0 rs (omega arith),
  amount_loop_lem memory_bad_memory 0 rs (omega arith),
  amount_loop_lem memory_unknown 0 rs (omega arith),
)

-- The end of some region, or the value that the search starts from.
abbrev pub IsEnd : ℕ → ℕ → List MemoryRegion → Type 0
IsEnd start a [] = a ≡ start
IsEnd start a (r ∷ rs) = (a ≡ wrap64 (r.base + r.length)) ⊎ IsEnd start a rs

abbrev pub BoundsEnds : ℕ → List MemoryRegion → Type 0
BoundsEnds a [] = Unit
BoundsEnds a (r ∷ rs) = (wrap64 (r.base + r.length) ≤ a) × BoundsEnds a rs

IsEnd-start :
    (start other a : ℕ) (rs : List MemoryRegion) → IsEnd start a rs → (a ≡ start) ⊎ IsEnd other a rs
IsEnd-start start other a [] h = inl h
IsEnd-start start other a (r ∷ rs) (inl e) = inr (inl e)
IsEnd-start start other a (r ∷ rs) (inr h) = elim (IsEnd-start start other a rs h) [
  | inl e ↦ inl e
  | inr there ↦ inr (inr there)
]

abbrev Highest : ℕ → List MemoryRegion → ℕ → Type 0
Highest start rs a = (start ≤ a) × BoundsEnds a rs × IsEnd start a rs

highest_loop_lem :
    (highest a : ℕ) (rs : List MemoryRegion) → highest_loop highest rs ≡ a → Highest highest rs a
unfolding highest_loop
highest_loop_lem highest a [] e = (omega arith, tt, sym e)
highest_loop_lem highest a (r ∷ rs) e = elim (Bool-cases (ltb highest end)) [
  | inl above ↦
      let (up, bound, at) = highest_loop_lem end a rs (rw above at e) in
      (omega (arith, ltb→lt _ _ above), (up, bound), IsEnd-start end highest a rs at)
  | inr below ↦
      let (up, bound, at) = highest_loop_lem highest a rs (rw below at e) in
      (up, (ground arith, bound), inr at)
]
  where
    end : ℕ
    end = wrap64 (r.base + r.length)

-- `memory_highest_address` is at or above the end of every region, and is one of these ends, or 0.
pub memory_highest_address_lem :
    (rs : List MemoryRegion)
    → BoundsEnds (memory_highest_address rs) rs × IsEnd 0 (memory_highest_address rs) rs
unfolding memory_highest_address
memory_highest_address_lem rs = ((highest_loop_lem 0 _ rs refl).1, (highest_loop_lem 0 _ rs refl).2)
