-- ===== src/Image/Grayscale/Mean.antt =====
-- The grey value of a pixel: the mean of its three colours.
use ptr24_lab.Prelude.{ℕ, ◌+◌, ◌/◌, ◌<◌, ◌≡◌, List, ok, arith, length, byte_at, IsBytes}
use ptr24_lab.Image.Grayscale.{grey_of}

-- The mean of the three colours at an offset.
abbrev pub mean_at : List ℕ → ℕ → ℕ
mean_at src p = (byte_at src p + byte_at src (p + 1) + byte_at src (p + 2)) / 3

grey_of_lem : (src : List ℕ) (p : ℕ) → p + 2 < length src → grey_of src p ≡ ok (mean_at src p)
unfolding grey_of
grey_of_lem src p h = ground arith

pub mean_at-lt : (src : List ℕ) (p : ℕ) → IsBytes src → mean_at src p < 256
mean_at-lt src p h = omega (arith, h p, h (p + 1), h (p + 2))
