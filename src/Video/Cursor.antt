-- ===== src/Video/Cursor.antt =====
-- The cursor of kernel/src/video/terminal.c.
use bethany.Prelude.{
  ℕ, zero, suc, ◌+◌, ◌-◌, ◌*◌, ◌/◌, ◌%◌, ◌^◌, ◌<◌, ◌≤◌, ◌≡◌, ltb, wrap64, inl, inr, refl, true,
  false, List, [], ◌∷◌, leb, ◌==◌, arith, Bool-cases, ◌∙◌, ap,
}
use native.Mathlib.Nat.{mod-lt, div-add-mod, mul_comm, div-le_self}
use bethany.Video.Integers.{
  ℤ, pos, negsuc, neg, minus, ◌+ℤ◌, scale, signed, unsigned, int64, floor_div, floor_mod,
}
use bethany.Video.{Graphics, Terminal, terminal_move_cursor, terminal_putchar, terminal_write}

neg-suc : (n a : ℕ) → n ≡ a + 1 → neg n ≡ negsuc a
neg-suc zero a e = absurd (omega arith)
neg-suc (suc n) a e = λ i. negsuc (same i)
  where
    same : n ≡ a
    same = omega arith

-- A difference of natural numbers that is negative.
minus-negsuc : (m n a : ℕ) → n ≡ m + a + 1 → minus m n ≡ negsuc a
unfolding minus
minus-negsuc m n a e =
    let less : leb n m ≡ false = ground arith in
    let same : n - m - 1 ≡ a = omega arith in rw less (λ i. negsuc (same i))

negative_exact : (a b k : ℕ) → b * k ≡ a + 1 → pos 0 +ℤ scale (neg k) b ≡ negsuc a
negative_exact a b zero e = absurd (omega (arith, e))
negative_exact a b (suc k) e =
    let n : neg ((k + 1) * b) ≡ negsuc a =
      neg-suc ((k + 1) * b) a (mul_comm (k + 1) b ∙ ap (λ x. b * x) (omega arith) ∙ e) in
    rw n (minus-negsuc 0 (a + 1) a (omega arith))

minus-pos : (m n a : ℕ) → m ≡ n + a → minus m n ≡ pos a
unfolding minus
minus-pos m n a e =
    let more : leb n m ≡ true = ground arith in
    let same : m - n ≡ a = omega arith in rw more (λ i. pos (same i))

neg_less : (k : ℕ) → neg k +ℤ negsuc 0 ≡ negsuc k
neg_less zero = minus-negsuc 0 (0 + 1) 0 (omega arith)
neg_less (suc k) = let same : k + 0 + 1 ≡ suc k = omega arith in λ i. negsuc (same i)

negative_rest :
    (a b k r : ℕ)
    → 0 < r
    → r < b
    → b * k + r ≡ a + 1
    → pos (b - r) +ℤ scale (neg k +ℤ negsuc 0) b ≡ negsuc a
negative_rest a b k r hr hb e =
    let j = b * k + b - 1 in
    let whole : (k + 1) * b ≡ j + 1 = omega (arith, mul_comm (k + 1) b, mul_comm k b) in
    rw (neg_less k, neg-suc ((k + 1) * b) j whole)
      (minus-negsuc (b - r) (j + 1) a (omega (arith, e)))

-- `m` and `q` are the remainder and the quotient of `a` by `b`, rounded down.
pub record Floors (a : ℤ) (b : ℕ) (m : ℕ) (q : ℤ) : Type 0 where
  pub below : m < b
  pub whole : pos m +ℤ scale q b ≡ a

pub floor_lem :
    (a : ℤ) (b : ℕ) → 0 < b → (m : ℕ) × (floor_mod a b ≡ pos m) × Floors a b m (floor_div a b)
unfolding floor_div floor_mod
floor_lem (pos a) b h =
    let whole : a % b + a / b * b ≡ a = omega (arith, div-add-mod a b, mul_comm (a / b) b) in
    (a % b, refl, record { below = mod-lt a h; whole = λ i. pos (whole i) })
floor_lem (negsuc a) b h = elim (Bool-cases ((a + 1) % b == 0)) [
  | inl e ↦
      let exact : (a + 1) % b ≡ 0 = ground arith in
      (
        0,
        rw exact refl,
        rw exact (record {
          below = h;
          whole = negative_exact a b ((a + 1) / b) (omega (arith, div-add-mod (a + 1) b));
        }),
      )
  | inr e ↦
      let r = (a + 1) % b in
      let below : r < b = mod-lt (a + 1) h in
      let some_rest : 0 < r = ground arith in
      let down : neg r ≡ negsuc (r - 1) = neg-suc r (r - 1) (omega arith) in
      (
        b - r,
        rw down (minus-pos b (r - 1 + 1) (b - r) (omega arith)),
        rw down (record {
          below = omega arith;
          whole =
              negative_rest a b ((a + 1) / b) r some_rest below
                (omega (arith, div-add-mod (a + 1) b));
        }),
      )
]

-- The number lies between -`m` and `m`.
abbrev pub Within : ℕ → ℤ → Type 0
Within m (pos n) = n < m
Within m (negsuc n) = n < m

int64_lem : (z : ℤ) → Within (2 ^ 63) z → int64 z ≡ z
unfolding int64 signed unsigned
int64_lem (pos n) h = ground arith
int64_lem (negsuc n) h =
    let small : wrap64 n ≡ n = omega arith in
    let high : ltb (2 ^ 64 - 1 - n) (2 ^ 63) ≡ false = ground arith in
    let back : 2 ^ 64 - 1 - (2 ^ 64 - 1 - n) ≡ n = omega arith in
    rw (small, high) (λ i. negsuc (back i))

Within-le : (a b : ℕ) (z : ℤ) → a ≤ b → Within a z → Within b z
Within-le a b (pos n) h w = omega arith
Within-le a b (negsuc n) h w = omega arith

Within-minus : (a m n : ℕ) → m < a → n ≤ a → Within a (minus m n)
unfolding minus
Within-minus a m n hm hn = elim (Bool-cases (leb n m)) [
  | inl e ↦ rw e (omega arith)
  | inr e ↦ let less : m < n = ground arith in rw e (omega arith)
]

Within-add : (a b : ℕ) (x y : ℤ) → Within a x → Within b y → Within (a + b) (x +ℤ y)
Within-add a b (pos m) (pos n) hx hy = omega arith
Within-add a b (pos m) (negsuc n) hx hy = Within-minus (a + b) m (n + 1) (omega arith) (omega arith)
Within-add a b (negsuc m) (pos n) hx hy = Within-minus (a + b) n (m + 1) (omega arith) (omega arith)
Within-add a b (negsuc m) (negsuc n) hx hy = omega arith

Within-neg : (a n : ℕ) → n ≤ a → 0 < a → Within a (neg n)
Within-neg a zero h pos_a = pos_a
Within-neg a (suc n) h pos_a = omega arith

Within-scale_8 : (a : ℕ) (x : ℤ) → Within a x → Within (a * 8) (scale x 8)
Within-scale_8 a (pos n) w = omega arith
Within-scale_8 a (negsuc n) w = Within-neg (a * 8) ((n + 1) * 8) (omega arith) (omega arith)

Within-scale_16 : (a : ℕ) (x : ℤ) → Within a x → Within (a * 16) (scale x 16)
Within-scale_16 a (pos n) w = omega arith
Within-scale_16 a (negsuc n) w = Within-neg (a * 16) ((n + 1) * 16) (omega arith) (omega arith)

Within-floor_div : (a b : ℕ) (x : ℤ) → Within a x → Within (a + 2) (floor_div x b)
unfolding floor_div
Within-floor_div a b (pos n) w = omega (arith, div-le_self n b)
Within-floor_div a b (negsuc n) w = elim (Bool-cases ((n + 1) % b == 0)) [
  | inl e ↦
      let exact : (n + 1) % b ≡ 0 = ground arith in
      rw exact
        (Within-neg (a + 2) ((n + 1) / b) (omega (arith, div-le_self (n + 1) b)) (omega arith))
  | inr e ↦
      let r = (n + 1) % b in
      let some_rest : 0 < r = ground arith in
      let down : neg r ≡ negsuc (r - 1) = neg-suc r (r - 1) (omega arith) in
      rw (down, neg_less ((n + 1) / b)) (omega (arith, div-le_self (n + 1) b))
]

-- The cursor is on the screen.
pub record IsInside (g : Graphics) (t : Terminal) : Type 0 where
  pub column : t.cursor_x < g.width
  pub row : t.cursor_y < g.height

-- The cursor of `t'` is that of `t` moved by `x` characters and `y` lines: what leaves the screen at
-- the right or the left goes on `lines` lines further down, and what leaves it at the bottom or the
-- top comes in again at the other end, `screens` times.
pub record Moved (g : Graphics) (y x : ℤ) (t t' : Terminal) : Type 0 where
  pub lines : ℤ
  pub screens : ℤ
  pub across : pos t'.cursor_x +ℤ scale lines g.width ≡ pos t.cursor_x +ℤ scale x 8
  pub down : pos t'.cursor_y +ℤ scale screens g.height ≡ pos t.cursor_y +ℤ scale (y +ℤ lines) 16

signed-pos : (n : ℕ) → n < 2 ^ 63 → signed n ≡ pos n
unfolding signed
signed-pos n h = ground arith

unsigned-pos : (n : ℕ) → n < 2 ^ 63 → unsigned (pos n) ≡ n
unfolding unsigned
unsigned-pos n h = omega arith

module _ (g : Graphics) (wide : 0 < g.width) (high : 0 < g.height) (w : g.width < 2 ^ 48)
    (h : g.height < 2 ^ 48) where
  -- On a screen that is not empty and less than 2^48 pixels wide and high, and with `x` and `y` between
  -- -2^48 and 2^48, so that no sum or product leaves 64 bits, `terminal_move_cursor` moves the cursor by
  -- `x` characters and `y` lines, wrapping round at the ends of the lines and of the screen, and it
  -- stays on the screen.
  pub terminal_move_cursor_lem :
      (y x : ℤ) (t : Terminal)
      → Within (2 ^ 48) y
      → Within (2 ^ 48) x
      → IsInside g t
      → IsInside g (terminal_move_cursor g y x t) × Moved g y x t (terminal_move_cursor g y x t)
  unfolding terminal_move_cursor
  terminal_move_cursor_lem y x t small_y small_x is =
      let at_x = signed-pos t.cursor_x (omega (arith, is.column)) in
      let at_y = signed-pos t.cursor_y (omega (arith, is.row)) in
      let new_x = pos t.cursor_x +ℤ scale x 8 in
      let k = floor_div new_x g.width in
      let lines = y +ℤ k in
      let new_y = pos t.cursor_y +ℤ scale lines 16 in
      let in_x : Within (2 ^ 51) (scale x 8) = Within-scale_8 (2 ^ 48) x small_x in
      let in_new_x : Within (2 ^ 48 + 2 ^ 51) new_x =
        Within-add (2 ^ 48) (2 ^ 51) (pos t.cursor_x) (scale x 8) (omega (arith, is.column)) in_x in
      let in_lines : Within (2 ^ 48 + (2 ^ 48 + 2 ^ 51 + 2)) lines =
        Within-add (2 ^ 48) (2 ^ 48 + 2 ^ 51 + 2) y k small_y
          (Within-floor_div (2 ^ 48 + 2 ^ 51) g.width new_x in_new_x) in
      let in_y : Within ((2 ^ 48 + (2 ^ 48 + 2 ^ 51 + 2)) * 16) (scale lines 16) =
        Within-scale_16 (2 ^ 48 + (2 ^ 48 + 2 ^ 51 + 2)) lines in_lines in
      let in_new_y : Within (2 ^ 48 + (2 ^ 48 + (2 ^ 48 + 2 ^ 51 + 2)) * 16) new_y =
        Within-add (2 ^ 48) ((2 ^ 48 + (2 ^ 48 + 2 ^ 51 + 2)) * 16) (pos t.cursor_y)
          (scale lines 16) (omega (arith, is.row)) in_y in
      let fit_x = int64_lem (scale x 8) (Within-le _ _ (scale x 8) (omega arith) in_x) in
      let fit_new_x = int64_lem new_x (Within-le _ _ new_x (omega arith) in_new_x) in
      let fit_lines = int64_lem lines (Within-le _ _ lines (omega arith) in_lines) in
      let fit_y = int64_lem (scale lines 16) (Within-le _ _ (scale lines 16) (omega arith) in_y) in
      let fit_new_y = int64_lem new_y (Within-le _ _ new_y (omega arith) in_new_y) in
      let (m, em, across) = floor_lem new_x g.width wide in
      let (j, ej, down) = floor_lem new_y g.height high in
      let ux = unsigned-pos m (omega (arith, across.below)) in
      let uy = unsigned-pos j (omega (arith, down.below)) in
      rw (at_x, at_y, fit_x, fit_new_x, fit_lines, fit_y, fit_new_y, em, ej, ux, uy)
        (
          record { column = across.below; row = down.below },
          record {
            lines = k;
            screens = floor_div new_y g.height;
            across = across.whole;
            down = down.whole;
          },
        )

  -- Every character leaves the cursor on the screen.
  pub terminal_putchar-IsInside :
      (font : ℕ → ℕ → ℕ) (c : ℕ) (t : Terminal) (pixels : ℕ → ℕ)
      → IsInside g t
      → IsInside g (terminal_putchar font g c (t, pixels)).0
  unfolding terminal_putchar
  terminal_putchar-IsInside font c t pixels is =
      let start : IsInside g (record t { cursor_x = 0 }) = record { column = wide; row = is.row } in
      let moved : (x : ℤ) → Within (2 ^ 48) x → IsInside g (terminal_move_cursor g (pos 0) x t) =
        λ x small. (terminal_move_cursor_lem (pos 0) x t (omega arith) small is).0 in
      elim (Bool-cases (c == 10)) [
        | inl e ↦ rw e (
            (terminal_move_cursor_lem (pos 1) (pos 0) (record t { cursor_x = 0 }) (omega arith)
              (omega arith) start).0)
        | inr e ↦ elim (Bool-cases (c == 13)) [
          | inl f ↦ rw (e, f) start
          | inr f ↦ elim (Bool-cases (c == 9)) [
            | inl i ↦ rw (e, f, i) (moved _ (omega arith))
            | inr i ↦ elim (Bool-cases (c == 8)) [
              | inl j ↦ rw (e, f, i, j) (moved _ (omega arith))
              | inr j ↦ rw (e, f, i, j) (moved _ (omega arith))
            ]
          ]
        ]
      ]

  pub terminal_write-IsInside :
      (font : ℕ → ℕ → ℕ) (cs : List ℕ) (s : Terminal × (ℕ → ℕ))
      → IsInside g s.0
      → IsInside g (terminal_write font g cs s).0
  unfolding terminal_write
  terminal_write-IsInside font [] s is = is
  terminal_write-IsInside font (c ∷ cs) s is =
      terminal_write-IsInside font cs (terminal_putchar font g c s)
        (terminal_putchar-IsInside font c s.0 s.1 is)
