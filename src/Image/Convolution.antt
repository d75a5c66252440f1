-- ===== src/Image/Convolution.antt =====
-- code/utils/convolution.c: the Sobel filter with its threshold.
pub mod Spec
pub mod Taps
pub mod Sums
pub mod Frame
pub mod Edges
use ptr24_lab.Prelude.{
  ℕ, ◌+◌, ◌-◌, ◌*◌, ◌^◌, Bool, ◌&&◌, ◌≡◌, refl, List, [], ◌∷◌, Outcome, ok, fault, ◌>>=◌, load,
  store, mul_int, ltb, leb, if◌then◌else◌, length,
}
use ptr24_lab.Prelude.Int.{ℤ, pos, negsuc, pos_part, neg_part, ◌+ℤ◌, ◌-ℤ◌, ◌*ℤ◌, ltb_ℤ, leb_ℤ}
use ptr24_lab.Prelude.Loop.{for_range, rounds}

abbrev pub kernel_x : List ℤ
kernel_x = negsuc 0 ∷ pos 0 ∷ pos 1 ∷ negsuc 1 ∷ pos 0 ∷ pos 2 ∷ negsuc 0 ∷ pos 0 ∷ pos 1 ∷ []

abbrev pub kernel_y : List ℤ
kernel_y = negsuc 0 ∷ negsuc 1 ∷ negsuc 0 ∷ pos 0 ∷ pos 0 ∷ pos 0 ∷ pos 1 ∷ pos 2 ∷ pos 1 ∷ []

abbrev pub kernel_size : ℕ
kernel_size = 3

abbrev pub k_center : ℕ
k_center = 1

-- A read of one of the two kernels.
abbrev pub load_int : List ℤ → ℕ → Outcome ℤ
load_int [] i = fault
load_int (k ∷ ks) ℕ.zero = ok k
load_int (k ∷ ks) (ℕ.suc i) = load_int ks i

-- An array index; a negative one is out of range.
abbrev pub as_index : ℤ → Outcome ℕ
as_index (pos n) = ok n
as_index (negsuc n) = fault

-- The sum of two `int` values; overflow is undefined.
abbrev pub add_int : ℤ → ℤ → Outcome ℤ
add_int a b =
    if leb (pos_part (a +ℤ b)) (2 ^ 31 - 1) && leb (neg_part (a +ℤ b)) (2 ^ 31)
    then ok (a +ℤ b)
    else fault

-- `abs` of the C library.
abbrev pub abs : ℤ → ℕ
abs a = pos_part a + neg_part a

pub record Gradient : Type 0 where
  pub gradient_x : ℤ
  pub gradient_y : ℤ

module _ (input : List ℕ) (width height : ℕ) where
  -- The body of the innermost loop, for pixel (x, y) and kernel entry (i, j).
  unfoldable pub tap : ℕ → ℕ → ℕ → ℕ → Gradient → Outcome Gradient
  tap x y j i g =
      let x_index = pos x -ℤ pos k_center +ℤ pos i in
      let y_index = pos y -ℤ pos k_center +ℤ pos j in
      if (leb_ℤ (pos 0) x_index && ltb_ℤ x_index (pos width))
        && (leb_ℤ (pos 0) y_index && ltb_ℤ y_index (pos height))
      then (do
        index ← as_index (y_index *ℤ pos width +ℤ x_index)
        p ← load input index
        kx ← load_int kernel_x (j * kernel_size + i)
        gx ← add_int g.gradient_x (pos p *ℤ kx)
        q ← load input index
        ky ← load_int kernel_y (j * kernel_size + i)
        gy ← add_int g.gradient_y (pos q *ℤ ky)
        ok (record { gradient_x = gx; gradient_y = gy }))
      else ok g

  unfoldable pub gradients : ℕ → ℕ → Outcome Gradient
  unfolding for_range
  gradients x y =
      for_range 1 (λ j. for_range 1 (tap x y j) kernel_size 0) kernel_size 0
        (record { gradient_x = pos 0; gradient_y = pos 0 })

  -- The body of the loop over x: the store of one output pixel.
  unfoldable pub pixel : ℕ → ℕ → List ℕ → Outcome (List ℕ)
  unfolding gradients tap ◌+ℤ◌ ◌-ℤ◌ ◌*ℤ◌
  pixel y x output = do
    g ← gradients x y
    let gradient_mag = abs g.gradient_x + abs g.gradient_y
    at ← mul_int y width
    store output (at + x) (if ltb 125 gradient_mag then 220 else 50)

  -- The bytes of `output` afterwards.
  unfoldable pub convolution_grayscale : List ℕ → Outcome (List ℕ)
  unfolding pixel
  convolution_grayscale output = for_range 1 (λ y. for_range 1 (pixel y) width 0) height 0 output
