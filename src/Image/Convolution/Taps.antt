-- ===== src/Image/Convolution/Taps.antt =====
-- One kernel entry adds its weight times the padded pixel to each gradient, and nothing overflows.
use ptr24_lab.Prelude.{
  ℕ, suc, ◌+◌, ◌-◌, ◌*◌, ◌<◌, ◌≤◌, ◌≡◌, refl, List, ok, arith, length, byte_at, IsBytes, Bool, true,
  false, leb, ◌&&◌, load-ok, Bool-cases, inl, inr, ap, sym,
}
use ptr24_lab.Prelude.Int.{
  ℤ, pos, negsuc, sub_ℕ, ◌+ℤ◌, ◌-ℤ◌, ◌*ℤ◌, ltb_ℤ, leb_ℤ, -ℤ_parts, +ℤ_parts, eq_of_parts,
}
use ptr24_lab.Image.Convolution.{
  Gradient, add_int, load_int, kernel_x, kernel_y, k_center, kernel_size, tap, abs,
}
use ptr24_lab.Image.Convolution.Spec.{padded, padded-lt}

-- A position of the source, one to the left of `n`.
coord : (x i : ℕ) → pos x -ℤ pos k_center +ℤ pos i ≡ sub_ℕ (x + i) 1
coord x i =
    eq_of_parts _ _
      (ground (arith, +ℤ_parts (pos x -ℤ pos k_center) (pos i), -ℤ_parts (pos x) (pos k_center)))

scaled_bound : (p : ℕ) (k : ℤ) → p < 256 → abs k ≤ 2 → abs (pos p *ℤ k) ≤ 510
unfolding ◌*ℤ◌
scaled_bound p (pos n) h b = let e : p * n ≤ 255 * 2 = grind arith in ground arith
scaled_bound p (negsuc n) h b = let e : p * suc n ≤ 255 * 2 = grind arith in ground arith

abs-+ℤ : (a b : ℤ) → abs (a +ℤ b) ≤ abs a + abs b
unfolding ◌+ℤ◌
abs-+ℤ a b = ground arith

add_int-ok : (a b : ℤ) → abs a ≤ 10000 → abs b ≤ 10000 → add_int a b ≡ ok (a +ℤ b)
add_int-ok a b h k = ground (arith, abs-+ℤ a b)

scaled_zero : (k : ℤ) → pos 0 *ℤ k ≡ pos 0
unfolding ◌*ℤ◌
scaled_zero (pos n) = ground arith
scaled_zero (negsuc n) = ground arith

+ℤ_zero : (a : ℤ) → a +ℤ pos 0 ≡ a
unfolding ◌+ℤ◌
+ℤ_zero (pos n) = ground arith
+ℤ_zero (negsuc n) = ground arith

row_index : (u v w : ℕ) → pos u *ℤ pos w +ℤ pos v ≡ pos (u * w + v)
unfolding ◌+ℤ◌ ◌*ℤ◌
row_index u v w = ground arith

-- The test of the innermost loop, and the index behind it.
within : ℕ → ℕ → Bool
within n size = leb 1 n && leb n size

within_lem :
    (n size : ℕ) → (leb_ℤ (pos 0) (sub_ℕ n 1) && ltb_ℤ (sub_ℕ n 1) (pos size)) ≡ within n size
unfolding within
within_lem n size = ground arith

within_pos : (n size : ℕ) → within n size ≡ true → (sub_ℕ n 1 ≡ pos (n - 1)) × (1 ≤ n) × (n ≤ size)
unfolding within
within_pos n size h = ground arith

both-true : {a b : Bool} → (a && b) ≡ true → (a ≡ true) × (b ≡ true)
both-true h = ground arith

row-lt : (u v w h : ℕ) → u < h → v < w → u * w + v < w * h
row-lt u v w h p q = grind arith

padded-inside :
    (input : List ℕ) (w h x y : ℕ)
    → within x w ≡ true
    → within y h ≡ true
    → padded input w h x y ≡ byte_at input ((y - 1) * w + (x - 1))
unfolding within
padded-inside input w h x y p q = rw (p, q)

padded-outside :
    (input : List ℕ) (w h x y : ℕ) → (within x w && within y h) ≡ false → padded input w h x y ≡ 0
unfolding within
padded-outside input w h x y p = rw p

module _ (input : List ℕ) (w h : ℕ) (fits : w * h ≤ length input) (bytes : IsBytes input) where
  -- The gradients after one more kernel entry.
  abbrev pub advance : ℕ → ℕ → ℤ → ℤ → Gradient → Gradient
  advance X Y kx ky g = record {
    gradient_x = g.gradient_x +ℤ pos (padded input w h X Y) *ℤ kx;
    gradient_y = g.gradient_y +ℤ pos (padded input w h X Y) *ℤ ky;
  }

  abbrev pub IsBounded : ℕ → Gradient → Type 0
  IsBounded n g = (abs g.gradient_x ≤ n) × (abs g.gradient_y ≤ n)

  pub advance-IsBounded :
      (X Y n : ℕ) (kx ky : ℤ) (g : Gradient)
      → abs kx ≤ 2
      → abs ky ≤ 2
      → IsBounded n g
      → IsBounded (n + 510) (advance X Y kx ky g)
  advance-IsBounded X Y n kx ky g bx by b =
      let p : ℕ = padded input w h X Y in
      let small : p < 256 = padded-lt input w h bytes X Y in
      omega (
        arith,
        abs-+ℤ g.gradient_x (pos p *ℤ kx),
        abs-+ℤ g.gradient_y (pos p *ℤ ky),
        scaled_bound p kx small bx,
        scaled_bound p ky small by,
      )

  advance_zero :
      (X Y : ℕ) (kx ky : ℤ) (g : Gradient) → padded input w h X Y ≡ 0 → advance X Y kx ky g ≡ g
  advance_zero X Y kx ky g e =
      rw (e, scaled_zero kx, scaled_zero ky, +ℤ_zero g.gradient_x, +ℤ_zero g.gradient_y) refl

  pub tap_lem :
      (x y j i : ℕ) (kx ky : ℤ) (g : Gradient)
      → load_int kernel_x (j * kernel_size + i) ≡ ok kx
      → load_int kernel_y (j * kernel_size + i) ≡ ok ky
      → abs kx ≤ 2
      → abs ky ≤ 2
      → IsBounded 9000 g
      → tap input w h x y j i g ≡ ok (advance (x + i) (y + j) kx ky g)
  unfolding tap
  tap_lem x y j i kx ky g lx ly bx by b =
      rw (coord x i, coord y j, within_lem (x + i) w, within_lem (y + j) h)
        (elim (Bool-cases (within (x + i) w && within (y + j) h)) [
          | inl inside ↦
              let (in_x, in_y) = both-true inside in
              let (ex, lo_x, hi_x) = within_pos (x + i) w in_x in
              let (ey, lo_y, hi_y) = within_pos (y + j) h in_y in
              let n : ℕ = (y + j - 1) * w + (x + i - 1) in
              let p : ℕ = byte_at input n in
              let e : padded input w h (x + i) (y + j) ≡ p =
                padded-inside input w h (x + i) (y + j) in_x in_y in
              let lt : n < length input =
                omega (arith, row-lt (y + j - 1) (x + i - 1) w h (omega arith) (omega arith)) in
              let sx = scaled_bound p kx (bytes n) bx in
              let sy = scaled_bound p ky (bytes n) by in
              rw
                (
                  inside,
                  ex,
                  ey,
                  row_index (y + j - 1) (x + i - 1) w,
                  load-ok input n lt,
                  lx,
                  add_int-ok g.gradient_x (pos p *ℤ kx) (omega arith) (omega arith),
                  ly,
                  add_int-ok g.gradient_y (pos p *ℤ ky) (omega arith) (omega arith),
                  e,
                )
                refl
          | inr outside ↦ rw outside (
              sym (
                ap ok (
                  advance_zero (x + i) (y + j) kx ky g
                    (padded-outside input w h (x + i) (y + j) outside))))
        ])
