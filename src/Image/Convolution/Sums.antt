-- ===== src/Image/Convolution/Sums.antt =====
-- The nine kernel entries together: the gradients are the differences of opposite sides.
use ptr24_lab.Prelude.{ℕ, ◌+◌, ◌*◌, ◌≤◌, ◌≡◌, refl, List, ok, arith, length, IsBytes}
use ptr24_lab.Prelude.Int.{
  ℤ, pos, negsuc, pos_part, neg_part, sub_ℕ, ◌+ℤ◌, ◌*ℤ◌, int_laws, eq_of_parts,
}
use native.Mathlib.Nat.{add-zero}
use ptr24_lab.Prelude.Loop.{for_range}
use ptr24_lab.Image.Convolution.{
  Gradient, load_int, kernel_x, kernel_y, kernel_size, tap, abs, gradients,
}
use ptr24_lab.Image.Convolution.Spec.{padded, left, right, top, bottom}
use ptr24_lab.Image.Convolution.Taps.{advance, IsBounded, advance-IsBounded, tap_lem}

-- Three entries that follow one another in a kernel.
record Row (kernel : List ℤ) (at : ℕ) (a b c : ℤ) : Type 0 where
  first : load_int kernel (at + 0) ≡ ok a
  second : load_int kernel (at + 1) ≡ ok b
  third : load_int kernel (at + 2) ≡ ok c
  small : (abs a ≤ 2) × (abs b ≤ 2) × (abs c ≤ 2)

pos_part-scaled : (p : ℕ) (k : ℤ) → pos_part (pos p *ℤ k) ≡ p * pos_part k
unfolding ◌*ℤ◌
pos_part-scaled p (pos n) = ground arith
pos_part-scaled p (negsuc n) = ground arith

neg_part-scaled : (p : ℕ) (k : ℤ) → neg_part (pos p *ℤ k) ≡ p * neg_part k
unfolding ◌*ℤ◌
neg_part-scaled p (pos n) = ground arith
neg_part-scaled p (negsuc n) = ground arith

x_row₀ : Row kernel_x 0 (negsuc 0) (pos 0) (pos 1)
x_row₀ = record { first = refl; second = refl; third = refl; small = omega arith }

y_row₀ : Row kernel_y 0 (negsuc 0) (negsuc 1) (negsuc 0)
y_row₀ = record { first = refl; second = refl; third = refl; small = omega arith }

x_row₁ : Row kernel_x 3 (negsuc 1) (pos 0) (pos 2)
x_row₁ = record { first = refl; second = refl; third = refl; small = omega arith }

y_row₁ : Row kernel_y 3 (pos 0) (pos 0) (pos 0)
y_row₁ = record { first = refl; second = refl; third = refl; small = omega arith }

x_row₂ : Row kernel_x 6 (negsuc 0) (pos 0) (pos 1)
x_row₂ = record { first = refl; second = refl; third = refl; small = omega arith }

y_row₂ : Row kernel_y 6 (pos 1) (pos 2) (pos 1)
y_row₂ = record { first = refl; second = refl; third = refl; small = omega arith }

ruleset sums = (int_laws, pos_part-scaled, neg_part-scaled)

sub_ℕ_parts : (a b : ℕ) → pos_part (sub_ℕ a b) + b ≡ neg_part (sub_ℕ a b) + a
sub_ℕ_parts a b = ground arith

-- An integer is a difference if its parts say so.
eq-sub_ℕ : (z : ℤ) (a b : ℕ) → pos_part z + b ≡ neg_part z + a → z ≡ sub_ℕ a b
eq-sub_ℕ z a b e = eq_of_parts z (sub_ℕ a b) (omega (arith, sub_ℕ_parts a b))

weighted_x :
    (a b c d e f g h i : ℕ)
    → pos 0
        +ℤ pos a *ℤ negsuc 0
        +ℤ pos b *ℤ pos 0
        +ℤ pos c *ℤ pos 1
        +ℤ pos d *ℤ negsuc 1
        +ℤ pos e *ℤ pos 0
        +ℤ pos f *ℤ pos 2
        +ℤ pos g *ℤ negsuc 0
        +ℤ pos h *ℤ pos 0
        +ℤ pos i *ℤ pos 1
      ≡ sub_ℕ (c + 2 * f + i) (a + 2 * d + g)
weighted_x a b c d e f g h i = eq-sub_ℕ _ _ _ (omega sums)

weighted_y :
    (a b c d e f g h i : ℕ)
    → pos 0
        +ℤ pos a *ℤ negsuc 0
        +ℤ pos b *ℤ negsuc 1
        +ℤ pos c *ℤ negsuc 0
        +ℤ pos d *ℤ pos 0
        +ℤ pos e *ℤ pos 0
        +ℤ pos f *ℤ pos 0
        +ℤ pos g *ℤ pos 1
        +ℤ pos h *ℤ pos 2
        +ℤ pos i *ℤ pos 1
      ≡ sub_ℕ (g + 2 * h + i) (a + 2 * b + c)
weighted_y a b c d e f g h i = eq-sub_ℕ _ _ _ (omega sums)

module _ (input : List ℕ) (w h : ℕ) (fits : w * h ≤ length input) (bytes : IsBytes input) where
  abbrev step : ℕ → ℕ → ℤ → ℤ → Gradient → Gradient
  step = advance input w h fits bytes

  abbrev row : ℕ → ℕ → ℕ → ℤ → ℤ → ℤ → ℤ → ℤ → ℤ → Gradient → Gradient
  row x y j a b c a' b' c' g =
      step (x + 2) (y + j) c c' (step (x + 1) (y + j) b b' (step (x + 0) (y + j) a a' g))

  row_lem :
      (x y j n : ℕ) (a b c a' b' c' : ℤ) (g : Gradient)
      → Row kernel_x (j * kernel_size) a b c
      → Row kernel_y (j * kernel_size) a' b' c'
      → IsBounded input w h fits bytes n g
      → n ≤ 4000
      → (for_range 1 (tap input w h x y j) kernel_size 0 g ≡ ok (row x y j a b c a' b' c' g))
        × IsBounded input w h fits bytes (n + 1530) (row x y j a b c a' b' c' g)
  unfolding for_range
  row_lem x y j n a b c a' b' c' g rx ry bd le =
      let g₁ = step (x + 0) (y + j) a a' g in
      let g₂ = step (x + 1) (y + j) b b' g₁ in
      let bounded = advance-IsBounded input w h fits bytes in
      let b₁ = bounded (x + 0) (y + j) n a a' g rx.small.0 ry.small.0 bd in
      let b₂ = bounded (x + 1) (y + j) (n + 510) b b' g₁ rx.small.1 ry.small.1 b₁ in
      let b₃ = bounded (x + 2) (y + j) (n + 510 + 510) c c' g₂ rx.small.2 ry.small.2 b₂ in
      let tapped = tap_lem input w h fits bytes in
      (
        rw
            (
              tapped x y j 0 a a' g rx.first ry.first rx.small.0 ry.small.0 (omega arith),
              tapped x y j 1 b b' g₁ rx.second ry.second rx.small.1 ry.small.1 (omega arith),
              tapped x y j 2 c c' g₂ rx.third ry.third rx.small.2 ry.small.2 (omega arith),
            )
            refl,
        omega arith,
      )

  abbrev at : ℕ → ℕ → ℕ
  at = padded input w h

  abbrev start : Gradient
  start = record { gradient_x = pos 0; gradient_y = pos 0 }

  abbrev row₀ : ℕ → ℕ → Gradient
  row₀ x y = row x y 0 (negsuc 0) (pos 0) (pos 1) (negsuc 0) (negsuc 1) (negsuc 0) start

  abbrev row₁ : ℕ → ℕ → Gradient
  row₁ x y = row x y 1 (negsuc 1) (pos 0) (pos 2) (pos 0) (pos 0) (pos 0) (row₀ x y)

  abbrev row₂ : ℕ → ℕ → Gradient
  row₂ x y = row x y 2 (negsuc 0) (pos 0) (pos 1) (pos 1) (pos 2) (pos 1) (row₁ x y)

  row₂_parts :
      (x y : ℕ)
      → ((row₂ x y).gradient_x ≡ sub_ℕ (right input w h x y) (left input w h x y))
        × ((row₂ x y).gradient_y ≡ sub_ℕ (bottom input w h x y) (top input w h x y))
  row₂_parts x y =
      rw (add-zero x, add-zero y)
        (
          weighted_x (at x y) (at (x + 1) y) (at (x + 2) y) (at x (y + 1)) (at (x + 1) (y + 1))
              (at (x + 2) (y + 1)) (at x (y + 2)) (at (x + 1) (y + 2)) (at (x + 2) (y + 2)),
          weighted_y (at x y) (at (x + 1) y) (at (x + 2) y) (at x (y + 1)) (at (x + 1) (y + 1))
              (at (x + 2) (y + 1)) (at x (y + 2)) (at (x + 1) (y + 2)) (at (x + 2) (y + 2)),
        )

  -- The two gradients of a pixel are computed without overflow, and are the differences of the
  -- weighted sides of the square around it.
  pub gradients_lem :
      (x y : ℕ)
      → gradients input w h x y
        ≡ ok (record {
          gradient_x = sub_ℕ (right input w h x y) (left input w h x y);
          gradient_y = sub_ℕ (bottom input w h x y) (top input w h x y);
        })
  unfolding gradients
  gradients_lem x y =
      let r₀ = row_lem x y 0 0 _ _ _ _ _ _ start x_row₀ y_row₀ (omega arith) (omega arith) in
      let r₁ = row_lem x y 1 1530 _ _ _ _ _ _ (row₀ x y) x_row₁ y_row₁ r₀.1 (omega arith) in
      let r₂ = row_lem x y 2 3060 _ _ _ _ _ _ (row₁ x y) x_row₂ y_row₂ r₁.1 (omega arith) in
      let (ex, ey) = row₂_parts x y in
      rw (r₀.0, r₁.0, r₂.0) (λ t. ok (record { gradient_x = ex t; gradient_y = ey t }))
