-- ===== src/Image/Convolution/Spec.antt =====
-- The Sobel filter as a formula: the input is surrounded by a border of zeros, the gradients are
-- weighted differences of opposite sides, and an edge is where their sum passes the threshold.
use ptr24_lab.Prelude.{
  ℕ, ◌+◌, ◌-◌, ◌*◌, ◌<◌, ◌&&◌, List, byte_at, IsBytes, ltb, leb, if◌then◌else◌, arith,
}

module _ (input : List ℕ) (width height : ℕ) where
  -- The pixel in column x - 1 and row y - 1, or zero outside the frame.
  abbrev pub padded : ℕ → ℕ → ℕ
  padded x y =
      if (leb 1 x && leb x width) && (leb 1 y && leb y height)
      then byte_at input ((y - 1) * width + (x - 1))
      else 0

  -- The weighted sides of the square around the pixel in column x and row y.
  abbrev pub left : ℕ → ℕ → ℕ
  left x y = padded x y + 2 * padded x (y + 1) + padded x (y + 2)

  abbrev pub right : ℕ → ℕ → ℕ
  right x y = padded (x + 2) y + 2 * padded (x + 2) (y + 1) + padded (x + 2) (y + 2)

  abbrev pub top : ℕ → ℕ → ℕ
  top x y = padded x y + 2 * padded (x + 1) y + padded (x + 2) y

  abbrev pub bottom : ℕ → ℕ → ℕ
  bottom x y = padded x (y + 2) + 2 * padded (x + 1) (y + 2) + padded (x + 2) (y + 2)

  abbrev pub magnitude : ℕ → ℕ → ℕ
  magnitude x y =
      (left x y - right x y + (right x y - left x y))
      + (top x y - bottom x y + (bottom x y - top x y))

  abbrev pub sobel : ℕ → ℕ → ℕ
  sobel x y = if ltb 125 (magnitude x y) then 220 else 50

  pub padded-lt : IsBytes input → (x y : ℕ) → padded x y < 256
  padded-lt bytes x y = ground (arith, bytes ((y - 1) * width + (x - 1)))
