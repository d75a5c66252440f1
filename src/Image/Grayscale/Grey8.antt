-- ===== src/Image/Grayscale/Grey8.antt =====
-- `rgba_to_grayscale8` of grayscale.c, byte by byte.
use ptr24_lab.Prelude.{
  ℕ, ◌+◌, ◌*◌, ◌^◌, ◌<◌, ◌≤◌, ◌≡◌, refl, ◌∙◌, List, ok, mul_int-ok, arith, length, set, byte_at,
  IsBytes,
}
use ptr24_lab.Image.Grayscale.Mean.{mean_at, mean_at-lt}
use ptr24_lab.Prelude.Loop.{for_range, for_range_inv, rounds}
use ptr24_lab.Prelude.Fill.{Filled, Filled-start, Filled-set}
use ptr24_lab.Image.Grayscale.{Img1D, Cursor, body8, rgba_to_grayscale8, rgba_to_grayscale8_over}

module _ (frames : ℕ → List ℕ) (old : List ℕ) (bytes : (i : ℕ) → IsBytes (frames i)) (c k : ℕ)
    (three : 3 ≤ c) (fits : (i : ℕ) → k * c ≤ length (frames i)) (room : k ≤ length old) where
  record Inv8 (i : ℕ) (s : Cursor) : Type 0 where
    at : s.cur ≡ i * c
    filled : Filled (λ j. mean_at (frames j) (j * c)) old i s.out

  keep8 :
      (i : ℕ) (s : Cursor)
      → i < k
      → Inv8 i s
      → (t : Cursor) × (body8 (frames i) c i s ≡ ok t) × Inv8 (i + 1) t
  unfolding body8
  keep8 i s lt inv =
      let v : ℕ = mean_at (frames i) (i * c) in
      let small : v < 256 = mean_at-lt (frames i) (i * c) (bytes i) in
      let inside : i * c + c ≤ k * c = grind arith in
      (
        record { cur = s.cur + c; out = set s.out i v },
        ground (arith, inv.at, inv.filled.same_length, fits i),
        record {
          at = omega (arith, inv.at);
          filled = Filled-set i v s.out inv.filled (omega arith) refl;
        },
      )

  loop8 :
      (t : Cursor) × (for_range 1 (λ i. body8 (frames i) c i) k 0 (record { cur = 0; out = old })
        ≡ ok t)
      × Inv8 k t
  loop8 =
      for_range_inv 1 (λ i. body8 (frames i) c i) Inv8 k keep8 k 0 (record { cur = 0; out = old })
        (omega arith) (omega arith) (record { at = omega arith; filled = Filled-start })

-- Where the frame changes as it is read, but always is one of bytes that fits: byte `j` of the result is
-- the mean of the colours of pixel `j` in the frame as the loop comes to it.
pub rgba_to_grayscale8_over_lem :
    (img : Img1D) (frames : ℕ → List ℕ) (old : List ℕ)
    → 3 ≤ img.components
    → img.width * img.height < 2 ^ 31
    → ((i : ℕ) → img.width * img.height * img.components ≤ length (frames i))
    → img.width * img.height ≤ length old
    → ((i : ℕ) → IsBytes (frames i))
    → (out : List ℕ) × (rgba_to_grayscale8_over img frames old ≡ ok out)
      × (length out ≡ length old)
      × ((j : ℕ)
          → j < img.width * img.height
          → byte_at out j ≡ mean_at (frames j) (j * img.components))
      × ((j : ℕ) → img.width * img.height ≤ j → byte_at out j ≡ byte_at old j)
unfolding rgba_to_grayscale8_over
rgba_to_grayscale8_over_lem img frames old three small fits room bytes =
    let k : ℕ = img.width * img.height in
    let (t, runs, inv) = loop8 frames old bytes img.components k three fits room in
    let e : rounds k 1 ≡ k = omega arith in
    (
      t.out,
      rw (mul_int-ok img.width img.height small, e, runs) refl,
      inv.filled.same_length,
      inv.filled.below,
      inv.filled.above,
    )

rgba_to_grayscale8-over :
    (img : Img1D) (old : List ℕ)
    → rgba_to_grayscale8 img old ≡ rgba_to_grayscale8_over img (λ i. img.bytes) old
unfolding rgba_to_grayscale8 rgba_to_grayscale8_over
rgba_to_grayscale8-over img old = refl

-- For a frame of bytes of three or more components that fits its buffers, with fewer than 2 ^ 31
-- pixels, `rgba_to_grayscale8` returns; byte `j` of the result is the mean of the colours of pixel
-- `j`, and the bytes past the frame are as they were.
pub rgba_to_grayscale8_lem :
    (img : Img1D) (old : List ℕ)
    → 3 ≤ img.components
    → img.width * img.height < 2 ^ 31
    → img.width * img.height * img.components ≤ length img.bytes
    → img.width * img.height ≤ length old
    → IsBytes img.bytes
    → (out : List ℕ) × (rgba_to_grayscale8 img old ≡ ok out)
      × (length out ≡ length old)
      × ((j : ℕ)
          → j < img.width * img.height
          → byte_at out j ≡ mean_at img.bytes (j * img.components))
      × ((j : ℕ) → img.width * img.height ≤ j → byte_at out j ≡ byte_at old j)
rgba_to_grayscale8_lem img old three small fits room bytes =
    let (out, runs, len, mean, rest) =
      rgba_to_grayscale8_over_lem img (λ i. img.bytes) old three small (λ i. fits) room
        (λ i. bytes) in
    (out, rgba_to_grayscale8-over img old ∙ runs, len, mean, rest)
