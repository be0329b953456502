-- ===== src/Text/Strings/Laws.antt =====
-- What the functions of kernel/src/string/string.c compute on strings that end.
use bethany.Prelude.{
  ℕ, zero, suc, ◌+◌, ◌<◌, ◌≤◌, ◌≡◌, ◌≢◌, ◌⊎◌, inl, inr, refl, List, [], ◌∷◌, false, arith, ◌==◌,
  length, Bool-cases, ◌∙◌, sym,
}
use mathlib.Core.Path.{subst}
use bethany.Text.Strings.{strlen_loop, strlen, difference, strcmp, memcpy}

-- The characters from `p` on up to the terminating zero.
abbrev pub IsText : (ℕ → ℕ) → ℕ → List ℕ → Type 0
IsText m p [] = m p ≡ 0
IsText m p (c ∷ cs) = (m p ≡ c) × (c ≢ 0) × IsText m (p + 1) cs

strlen_loop_lem :
    (n : ℕ) (m : ℕ → ℕ) (str len : ℕ) (cs : List ℕ)
    → length cs < n
    → IsText m (str + len) cs
    → strlen_loop n m str len ≡ len + length cs
unfolding strlen_loop
strlen_loop_lem zero m str len cs h t = absurd (omega arith)
strlen_loop_lem (suc n) m str len [] h t = rw t (omega arith)
strlen_loop_lem (suc n) m str len (c ∷ cs) h t =
    let more : (m (str + len) == 0) ≡ false = ground arith in
    rw more (
      strlen_loop_lem n m str (len + 1) cs (omega arith)
        (subst (λ x. IsText m x cs) (omega arith) t.2)
      ∙ omega arith)

-- With more rounds than the string has characters, `strlen` returns their number.
pub strlen-length :
    (n : ℕ) (m : ℕ → ℕ) (p : ℕ) (cs : List ℕ)
    → length cs < n
    → IsText m p cs
    → strlen n m p ≡ length cs
unfolding strlen
strlen-length n m p cs h t =
    strlen_loop_lem n m p 0 cs h (subst (λ x. IsText m x cs) (omega arith) t) ∙ omega arith

difference-zero : (c : ℕ) → c < 256 → difference c c ≡ 0
unfolding difference
difference-zero c h = ground arith

zero-difference : (c d : ℕ) → c < 256 → d < 256 → difference c d ≡ 0 → c ≡ d
unfolding difference
zero-difference c d hc hd e = ground arith

-- `strcmp` returns 0 exactly for equal strings, when it has more rounds than the first has characters
-- and memory holds bytes.
pub strcmp_lem :
    (n : ℕ) (m : ℕ → ℕ) (a b : ℕ) (xs ys : List ℕ)
    → ((i : ℕ) → m i < 256)
    → length xs < n
    → IsText m a xs
    → IsText m b ys
    → (xs ≡ ys → strcmp n m a b ≡ 0) × (strcmp n m a b ≡ 0 → xs ≡ ys)
unfolding strcmp
strcmp_lem zero m a b xs ys bytes h s t = absurd (omega arith)
strcmp_lem (suc n) m a b [] [] bytes h s t =
    rw (s, t) (λ e. difference-zero 0 (omega arith), λ e. refl)
strcmp_lem (suc n) m a b [] (y ∷ ys) bytes h s t = rw s (
  λ e. cc,
  λ e. let z = zero-difference 0 (m b) (omega arith) (bytes b) e in absurd (t.1 (sym t.0 ∙ sym z)),
)
strcmp_lem (suc n) m a b (x ∷ xs) [] bytes h s t =
    let some_left : (m a == 0) ≡ false = ground arith in
    rw (some_left, t)
      (
        λ e. cc,
        λ e.
            let z = zero-difference (m a) 0 (bytes a) (omega arith) e in absurd (s.1 (sym s.0 ∙ z)),
      )
strcmp_lem (suc n) m a b (x ∷ xs) (y ∷ ys) bytes h s t =
    let some_left : (m a == 0) ≡ false = ground arith in
    let some_right : (m b == 0) ≡ false = ground arith in
    let (there, back) = strcmp_lem n m (a + 1) (b + 1) xs ys bytes (omega arith) s.2 t.2 in
    rw (some_left, some_right)
      (elim (Bool-cases (m a == m b)) [
        | inl e ↦
            let same : x ≡ y = ground arith in rw e (λ q. there (cc), λ q. λ i. same i ∷ back q i)
        | inr e ↦ rw e (
          λ q. let heads : x ≡ y = cc in absurd (ground arith),
          λ q. let z = zero-difference (m a) (m b) (bytes a) (bytes b) q in absurd (ground arith),
        )
      ])

-- The bytes from `p` on for `n` places.
abbrev pub Outside : ℕ → ℕ → ℕ → Type 0
Outside p n x = (x < p) ⊎ (p + n ≤ x)

-- `memcpy` between blocks that do not overlap copies every byte and changes nothing else.
pub memcpy_lem :
    (m : ℕ → ℕ) (dest src n : ℕ)
    → ((dest + n ≤ src) ⊎ (src + n ≤ dest))
    → ((i : ℕ) → i < n → memcpy m dest src n (dest + i) ≡ m (src + i))
      × ((x : ℕ) → Outside dest n x → memcpy m dest src n x ≡ m x)
unfolding memcpy
memcpy_lem m dest src zero apart = (λ i h. absurd (omega arith), λ x out. refl)
memcpy_lem m dest src (suc n) apart =
    let (copied, kept) = memcpy_lem m dest src n (ground arith) in
    (
      λ i h. elim (Bool-cases (i == n)) [
        | inl e ↦ ground (arith, kept (src + n) (ground arith))
        | inr ne ↦ ground (arith, copied i (ground arith))
      ],
      λ x out. ground (arith, kept x (ground arith)),
    )
