-- ===== src/Text/Strings.antt =====
-- Strings and blocks of memory: kernel/src/string/string.c, over the bytes of memory by their
-- addresses. The first argument bounds the rounds of a loop that looks for the end of a string.
pub mod Laws
use bethany.Prelude.{
  ℕ, zero, suc, ◌+◌, ◌-◌, ◌^◌, Bool, true, false, ◌||◌, ltb, ◌==◌, if◌then◌else◌, wrap8, wrap64,
  update,
}
use bethany.Memory.Heap.{PageMapper, Heap, kmalloc}

unfoldable pub strlen_loop : ℕ → (ℕ → ℕ) → ℕ → ℕ → ℕ
strlen_loop zero m str len = len
strlen_loop (suc n) m str len =
    let rest = strlen_loop n m str (len + 1) in if m (str + len) == 0 then len else rest

unfoldable pub strlen : ℕ → (ℕ → ℕ) → ℕ → ℕ
strlen n m str = strlen_loop n m str 0

-- A `char` has a sign; this is its value as a 64-bit word.
abbrev pub char_value : ℕ → ℕ
char_value c = if ltb c 128 then c else 2 ^ 64 - 256 + c

unfoldable pub difference : ℕ → ℕ → ℕ
difference c d = wrap64 (char_value c + (2 ^ 64 - char_value d))

unfoldable pub strcmp : ℕ → (ℕ → ℕ) → ℕ → ℕ → ℕ
strcmp zero m a b = difference (m a) (m b)
strcmp (suc n) m a b =
    let rest = strcmp n m (a + 1) (b + 1) in
    if m a == 0 || m b == 0
    then difference (m a) (m b)
    else if m a == m b
    then rest
    else difference (m a) (m b)

unfoldable pub strcpy : ℕ → (ℕ → ℕ) → ℕ → ℕ → ℕ → ℕ
strcpy zero m dst src = m
strcpy (suc n) m dst src =
    let copied = update m dst (m src) in
    let rest = strcpy n copied (dst + 1) (src + 1) in if m src == 0 then copied else rest

-- The counted loops, the last round outermost.
unfoldable pub memcpy : (ℕ → ℕ) → ℕ → ℕ → ℕ → ℕ → ℕ
memcpy m dest src zero = m
memcpy m dest src (suc i) =
    let before = memcpy m dest src i in update before (dest + i) (before (src + i))

unfoldable pub memset : (ℕ → ℕ) → ℕ → ℕ → ℕ → ℕ → ℕ
memset m ptr value zero = m
memset m ptr value (suc i) = update (memset m ptr value i) (ptr + i) (wrap8 value)

-- The copy's address, or null, and the memory and the heap afterwards.
unfoldable pub strdup :
    (v : PageMapper) → ℕ → ℕ → (ℕ → ℕ) → Heap → v.Space → ℕ × (ℕ → ℕ) × Heap × v.Space
strdup v n str m h s =
    let (copy, h', s') = kmalloc v n (wrap64 (strlen n m str + 1)) h s in
    if copy == 0 then (0, m, h', s') else (copy, strcpy n m copy str, h', s')
