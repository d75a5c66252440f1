-- ===== src/Image/Convolution/Frame.antt =====
-- The loops over the frame: each output pixel is the Sobel filter of the input at its place.
use ptr24_lab.Prelude.{
  ℕ, ◌+◌, ◌-◌, ◌*◌, ◌/◌, ◌%◌, ◌^◌, ◌<◌, ◌≤◌, ◌≡◌, refl, List, ok, arith, length, set, byte_at,
  IsBytes, ◌∙◌, mul_int-ok, store-ok, div-of_parts, mod-of_parts,
}
use ptr24_lab.Prelude.Int.{sub_ℕ}
use native.Mathlib.Nat.{add_assoc}
use ptr24_lab.Prelude.Loop.{for_range, for_range_inv}
use ptr24_lab.Prelude.Fill.{Filled, Filled-start, Filled-set}
use ptr24_lab.Image.Convolution.{pixel, convolution_grayscale, abs}
use ptr24_lab.Image.Convolution.Spec.{left, right, top, bottom, sobel}
use ptr24_lab.Image.Convolution.Sums.{gradients_lem}

abs-sub_ℕ : (a b : ℕ) → abs (sub_ℕ a b) ≡ b - a + (a - b)
abs-sub_ℕ a b = ground arith

row-fits : (y w h : ℕ) → y < h → y * w + w ≤ w * h
row-fits y w h p = grind arith

module _ (input old : List ℕ) (w h : ℕ) (small : w * h < 2 ^ 31) (fits : w * h ≤ length input)
    (room : w * h ≤ length old) (bytes : IsBytes input) where
  -- The wanted byte of each place of the output.
  abbrev sobel_byte : ℕ → ℕ
  sobel_byte j = sobel input w h (j % w) (j / w)

  abbrev Done : ℕ → List ℕ → Type 0
  Done i out = Filled sobel_byte old i out

  keep_pixel :
      (y : ℕ)
      → y < h
      → (x : ℕ) (out : List ℕ) → x < w
      → Done (y * w + x) out
      → (t : List ℕ) × (pixel input w h y x out ≡ ok t) × Done (y * w + (x + 1)) t
  unfolding pixel
  keep_pixel y in_y x out in_x inv =
      let v : ℕ = sobel input w h x y in
      let inside : y * w + w ≤ w * h = row-fits y w h in_y in
      let e : sobel_byte (y * w + x) ≡ v =
        rw (mod-of_parts y w x in_x, div-of_parts y w x in_x) refl in
      let same = inv.same_length in
      (
        set out (y * w + x) v,
        rw
            (
              gradients_lem input w h fits bytes x y,
              mul_int-ok y w (omega arith),
              abs-sub_ℕ (right input w h x y) (left input w h x y),
              abs-sub_ℕ (bottom input w h x y) (top input w h x y),
              store-ok out (y * w + x) v (omega arith),
            )
            refl,
        rw (add_assoc (y * w) x 1) at (Filled-set (y * w + x) v out inv (omega arith) e),
      )

  keep_row :
      (y : ℕ) (out : List ℕ)
      → y < h
      → Done (y * w) out
      → (t : List ℕ) × (for_range 1 (pixel input w h y) w 0 out ≡ ok t) × Done ((y + 1) * w) t
  keep_row y out in_y inv =
      let s : y * w ≡ y * w + 0 = omega arith in
      let e : y * w + w ≡ (y + 1) * w = omega arith in
      let (t, runs, inv') =
        for_range_inv 1 (pixel input w h y) (λ x out. Done (y * w + x) out) w (keep_pixel y in_y) w
          0 out (omega arith) (omega arith) (rw s at inv) in
      (t, runs, rw e at inv')

  frame_loop :
      (t : List ℕ) × (for_range 1 (λ y. for_range 1 (pixel input w h y) w 0) h 0 old ≡ ok t)
      × Done (h * w) t
  frame_loop =
      let start : Done 0 old = Filled-start in
      let e : 0 ≡ 0 * w = omega arith in
      for_range_inv 1 (λ y. for_range 1 (pixel input w h y) w 0) (λ y out. Done (y * w) out) h
        keep_row h 0 old (omega arith) (omega arith) (rw e at start)

-- For frames of bytes that fit their buffers, with fewer than 2 ^ 31 pixels,
-- `convolution_grayscale` returns with no access out of range and no overflow; output pixel (x, y)
-- is 220 where the Sobel magnitude of the zero-padded input passes 125 and 50 elsewhere, and the
-- bytes past the frame are as they were.
pub convolution_grayscale_lem :
    (input old : List ℕ) (w h : ℕ)
    → w * h < 2 ^ 31
    → w * h ≤ length input
    → w * h ≤ length old
    → IsBytes input
    → (out : List ℕ) × (convolution_grayscale input w h old ≡ ok out)
      × (length out ≡ length old)
      × ((x y : ℕ) → x < w → y < h → byte_at out (y * w + x) ≡ sobel input w h x y)
      × ((j : ℕ) → w * h ≤ j → byte_at out j ≡ byte_at old j)
unfolding convolution_grayscale
convolution_grayscale_lem input old w h small fits room bytes =
    let (t, runs, inv) = frame_loop input old w h small fits room bytes in
    (
      t,
      runs,
      inv.same_length,
      (λ x y p q.
          inv.below (y * w + x) (omega (arith, row-fits y w h q))
          ∙ (rw (mod-of_parts y w x p, div-of_parts y w x p) refl)),
      (λ j p. inv.above j (omega arith)),
    )
