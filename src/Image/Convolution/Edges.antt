-- ===== src/Image/Convolution/Edges.antt =====
-- What the filter shows: nothing inside a flat region, a line along the border of a bright frame,
-- and the same edges whatever the brightness.
use ptr24_lab.Prelude.{
  ℕ, ◌+◌, ◌-◌, ◌*◌, ◌^◌, ◌<◌, ◌≤◌, ◌≡◌, List, ok, arith, length, byte_at, IsBytes, ltb, leb, ◌&&◌,
  if◌then◌else◌, ◌∙◌, sym,
}
use ptr24_lab.Image.Convolution.{convolution_grayscale}
use ptr24_lab.Image.Convolution.Spec.{padded, sobel}
use ptr24_lab.Image.Convolution.Frame.{convolution_grayscale_lem}

-- The padded pixel (x, y) of a frame whose pixels are all `v`.
padded_flat :
    (input : List ℕ) (w h v : ℕ)
    → ((x y : ℕ) → x < w → y < h → byte_at input (y * w + x) ≡ v)
    → (x y : ℕ)
    → padded input w h x y ≡ (if (leb 1 x && leb x w) && (leb 1 y && leb y h) then v else 0)
padded_flat input w h v flat x y = ground (arith, flat (x - 1) (y - 1))

module _ (input : List ℕ) (w h v : ℕ)
    (flat : (x y : ℕ) → x < w → y < h → byte_at input (y * w + x) ≡ v) where
  at_lem : (x y : ℕ) → 1 ≤ x → x ≤ w → 1 ≤ y → y ≤ h → padded input w h x y ≡ v
  at_lem x y a b c d = padded_flat input w h v flat x y ∙ ground arith

  at_left : (y : ℕ) → padded input w h 0 y ≡ 0
  at_left y = padded_flat input w h v flat 0 y ∙ ground arith

  sobel_inside : (x y : ℕ) → 1 ≤ x → x + 1 < w → 1 ≤ y → y + 1 < h → sobel input w h x y ≡ 50
  sobel_inside x y a b c d =
      rw
        (
          at_lem x y a (omega arith) c (omega arith),
          at_lem (x + 1) y (omega arith) (omega arith) c (omega arith),
          at_lem (x + 2) y (omega arith) (omega arith) c (omega arith),
          at_lem x (y + 1) a (omega arith) (omega arith) (omega arith),
          at_lem (x + 2) (y + 1) (omega arith) (omega arith) (omega arith) (omega arith),
          at_lem x (y + 2) a (omega arith) (omega arith) (omega arith),
          at_lem (x + 1) (y + 2) (omega arith) (omega arith) (omega arith) (omega arith),
          at_lem (x + 2) (y + 2) (omega arith) (omega arith) (omega arith) (omega arith),
        )
        (ground arith)

  sobel_border :
      (y : ℕ) → 2 ≤ w → 1 ≤ y → y + 1 < h → sobel input w h 0 y ≡ (if ltb 31 v then 220 else 50)
  sobel_border y a c d =
      rw
        (
          at_left y,
          at_left (y + 1),
          at_left (y + 2),
          at_lem 1 y (omega arith) (omega arith) c (omega arith),
          at_lem 2 y (omega arith) (omega arith) c (omega arith),
          at_lem 2 (y + 1) (omega arith) (omega arith) (omega arith) (omega arith),
          at_lem 1 (y + 2) (omega arith) (omega arith) (omega arith) (omega arith),
          at_lem 2 (y + 2) (omega arith) (omega arith) (omega arith) (omega arith),
        )
        (ground arith)

-- In a frame of bytes of one grey value that fits its buffers, two or more pixels wide and with
-- fewer than 2 ^ 31 of them, the filter shows no edge at pixels that are not on the border; at
-- those of the left border between its corners it shows one if the value is 32 or more, since the
-- frame is surrounded by zeros.
pub convolution_grayscale_flat :
    (input old : List ℕ) (w h v : ℕ)
    → w * h < 2 ^ 31
    → w * h ≤ length input
    → w * h ≤ length old
    → IsBytes input
    → 2 ≤ w
    → ((x y : ℕ) → x < w → y < h → byte_at input (y * w + x) ≡ v)
    → (out : List ℕ) × (convolution_grayscale input w h old ≡ ok out)
      × ((x y : ℕ) → 1 ≤ x → x + 1 < w → 1 ≤ y → y + 1 < h → byte_at out (y * w + x) ≡ 50)
      × ((y : ℕ) → 1 ≤ y → y + 1 < h → byte_at out (y * w + 0) ≡ (if ltb 31 v then 220 else 50))
convolution_grayscale_flat input old w h v small fits room bytes wide flat =
    let (out, runs, _, shown, _) = convolution_grayscale_lem input old w h small fits room bytes in
    (
      out,
      runs,
      (λ x y a b c d.
          shown x y (omega arith) (omega arith) ∙ sobel_inside input w h v flat x y a b c d),
      (λ y c d. shown 0 y (omega arith) (omega arith) ∙ sobel_border input w h v flat y wide c d),
    )

side_cancel :
    (k a b c d e f : ℕ)
    → a + k + 2 * (b + k) + (c + k) - (d + k + 2 * (e + k) + (f + k))
      ≡ a + 2 * b + c - (d + 2 * e + f)
side_cancel k a b c d e f = omega arith

module _ (input brighter : List ℕ) (w h k : ℕ)
    (raised : (x y : ℕ)
      → x < w
      → y < h
      → byte_at brighter (y * w + x) ≡ byte_at input (y * w + x) + k) where
  raised_lem :
      (x y : ℕ) → 1 ≤ x → x ≤ w → 1 ≤ y → y ≤ h → padded brighter w h x y ≡ padded input w h x y + k
  raised_lem x y a b c d = ground (arith, raised (x - 1) (y - 1))

  sobel_raised :
      (x y : ℕ)
      → 1 ≤ x
      → x + 1 < w
      → 1 ≤ y
      → y + 1 < h
      → sobel brighter w h x y ≡ sobel input w h x y
  sobel_raised x y a b c d =
      rw
        (
          raised_lem x y a (omega arith) c (omega arith),
          raised_lem (x + 1) y (omega arith) (omega arith) c (omega arith),
          raised_lem (x + 2) y (omega arith) (omega arith) c (omega arith),
          raised_lem x (y + 1) a (omega arith) (omega arith) (omega arith),
          raised_lem (x + 2) (y + 1) (omega arith) (omega arith) (omega arith) (omega arith),
          raised_lem x (y + 2) a (omega arith) (omega arith) (omega arith),
          raised_lem (x + 1) (y + 2) (omega arith) (omega arith) (omega arith) (omega arith),
          raised_lem (x + 2) (y + 2) (omega arith) (omega arith) (omega arith) (omega arith),
        )
        (simp side_cancel)

-- If one frame of bytes is another with each pixel brighter by the same amount, and both fit their
-- buffers and have fewer than 2 ^ 31 pixels, the filter shows the same bytes for both at pixels
-- that are not on the border.
pub convolution_grayscale_brighter :
    (input brighter old : List ℕ) (w h k : ℕ)
    → w * h < 2 ^ 31
    → w * h ≤ length input
    → w * h ≤ length brighter
    → w * h ≤ length old
    → IsBytes input
    → IsBytes brighter
    → ((x y : ℕ) → x < w → y < h → byte_at brighter (y * w + x) ≡ byte_at input (y * w + x) + k)
    → (out out' : List ℕ) × (convolution_grayscale input w h old ≡ ok out)
      × (convolution_grayscale brighter w h old ≡ ok out')
      × ((x y : ℕ)
          → 1 ≤ x
          → x + 1 < w
          → 1 ≤ y
          → y + 1 < h
          → byte_at out' (y * w + x) ≡ byte_at out (y * w + x))
convolution_grayscale_brighter input brighter old w h k small fits fits' room bytes bytes' raised =
    let (out, runs, _, shown, _) = convolution_grayscale_lem input old w h small fits room bytes in
    let (out', runs', _, shown', _) =
      convolution_grayscale_lem brighter old w h small fits' room bytes' in
    (
      out,
      out',
      runs,
      runs',
      (λ x y a b c d.
          shown' x y (omega arith) (omega arith)
          ∙ sobel_raised input brighter w h k raised x y a b c d
          ∙ sym (shown x y (omega arith) (omega arith))),
    )
