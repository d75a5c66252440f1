-- ===== src/Image/Grayscale.antt =====
-- code/utils/grayscale.c: the conversions between RGB0 frames and grey frames.
pub mod Mean
pub mod Grey32
pub mod Grey8
pub mod Rgba
use ptr24_lab.Prelude.{ℕ, ◌+◌, ◌*◌, ◌/◌, List, Outcome, ok, ◌>>=◌, u8, load, store, mul_int}
use ptr24_lab.Prelude.Loop.{for_range, rounds}

pub record Img1D : Type 0 where
  pub width : ℕ
  pub height : ℕ
  pub components : ℕ
  pub bytes : List ℕ

abbrev pub r_off : ℕ
r_off = 0

abbrev pub g_off : ℕ
g_off = 1

abbrev pub b_off : ℕ
b_off = 2

-- `((int)*(p) + *(p + 1) + *(p + 2)) / 3`, with `p` at offset `cur` of the frame.
unfoldable pub grey_of : List ℕ → ℕ → Outcome ℕ
grey_of src cur = do
  r ← load src cur
  g ← load src (cur + 1)
  b ← load src (cur + 2)
  ok ((r + g + b) / 3)

-- The variables of a loop: the offset of `current_data`, and the buffer that is written.
pub record Cursor : Type 0 where
  pub cur : ℕ
  pub out : List ℕ

pub body32 : List ℕ → ℕ → Cursor → Outcome Cursor
unfolding grey_of
body32 src i s = do
  pixel_val ← grey_of src s.cur
  out₁ ← store s.out (i + 0) (u8 pixel_val)
  out₂ ← store out₁ (i + 1) (u8 pixel_val)
  out₃ ← store out₂ (i + 2) (u8 pixel_val)
  ok (record { cur = s.cur + 4; out = out₃ })

-- The bytes that `result->data` points to afterwards.
unfoldable pub rgba_to_grayscale32 : Img1D → List ℕ → Outcome (List ℕ)
unfolding body32 for_range
rgba_to_grayscale32 img result = do
  area ← mul_int img.width img.height
  img_size ← mul_int area img.components
  s ← for_range 4 (body32 img.bytes) (rounds img_size 4) 0 (record { cur = 0; out = result })
  ok s.out

-- `result` moves along with `i`, so the loop index is its offset.
pub body8 : List ℕ → ℕ → ℕ → Cursor → Outcome Cursor
unfolding grey_of
body8 src components i s = do
  grey ← grey_of src s.cur
  out' ← store s.out i (u8 grey)
  ok (record { cur = s.cur + components; out = out' })

unfoldable pub rgba_to_grayscale8 : Img1D → List ℕ → Outcome (List ℕ)
unfolding body8 for_range
rgba_to_grayscale8 img result = do
  img_size ← mul_int img.width img.height
  s ←
      for_range 1 (body8 img.bytes img.components) (rounds img_size 1) 0
        (record { cur = 0; out = result })
  ok s.out

-- The same, where another task may write the frame as it is read: `frames i` is the frame as the loop
-- comes to pixel `i`.
unfoldable pub rgba_to_grayscale8_over : Img1D → (ℕ → List ℕ) → List ℕ → Outcome (List ℕ)
unfolding body8 for_range
rgba_to_grayscale8_over img frames result = do
  img_size ← mul_int img.width img.height
  s ←
      for_range 1 (λ i. body8 (frames i) img.components i) (rounds img_size 1) 0
        (record { cur = 0; out = result })
  ok s.out

pub body_rgba : List ℕ → ℕ → ℕ → List ℕ → Outcome (List ℕ)
body_rgba grey components i out = do
  at ← mul_int i components
  r ← load grey i
  out₁ ← store out (at + r_off) r
  g ← load grey i
  out₂ ← store out₁ (at + g_off) g
  b ← load grey i
  store out₂ (at + b_off) b

-- The bytes that `result->data` points to afterwards.
unfoldable pub grayscale_to_rgba : List ℕ → Img1D → Outcome (List ℕ)
unfolding body_rgba for_range
grayscale_to_rgba grey result = do
  area ← mul_int result.width result.height
  for_range 1 (body_rgba grey result.components) (rounds area 1) 0 result.bytes
