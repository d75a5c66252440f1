-- ===== src/Image/Grayscale/Grey32.antt =====
-- `rgba_to_grayscale32` of grayscale.c, byte by byte.
use ptr24_lab.Prelude.{
  ℕ, ◌+◌, ◌*◌, ◌/◌, ◌%◌, ◌^◌, ◌<◌, ◌≤◌, ◌≡◌, refl, List, ok, mul_int-ok, arith, length, set,
  byte_at, IsBytes, ltb, if◌then◌else◌, length-set, lt→ltb, true,
}
use native.Mathlib.Nat.{add-zero}
use ptr24_lab.Image.Grayscale.Mean.{mean_at, mean_at-lt}
use ptr24_lab.Prelude.Loop.{for_range, for_range_inv, rounds}
use ptr24_lab.Prelude.Fill.{Filled, Filled-start, Filled-set_three, Filled-skip}
use ptr24_lab.Image.Grayscale.{Img1D, Cursor, body32, rgba_to_grayscale32}

-- The bytes of a frame in grey that keeps its fourth components from `old`.
abbrev pub grey32_at : List ℕ → List ℕ → ℕ → ℕ
grey32_at src old j = if ltb (j % 4) 3 then mean_at src (j / 4 * 4) else byte_at old j

pub grey32_at-mean :
    (src old : List ℕ) (i c : ℕ) → c < 3 → i % 4 ≡ 0 → grey32_at src old (i + c) ≡ mean_at src i
grey32_at-mean src old i c h al =
    let e : (i + c) / 4 * 4 ≡ i = omega arith in
    let t : ltb ((i + c) % 4) 3 ≡ true = lt→ltb ((i + c) % 4) 3 (omega arith) in rw (t, e)

module _ (src old : List ℕ) (bytes : IsBytes src) (k : ℕ) (fits : 4 * k ≤ length src)
    (room : 4 * k ≤ length old) where
  record Inv32 (i : ℕ) (s : Cursor) : Type 0 where
    at : s.cur ≡ i
    aligned : i % 4 ≡ 0
    filled : Filled (grey32_at src old) old i s.out

  keep32 :
      (i : ℕ) (s : Cursor)
      → i < 4 * k
      → Inv32 i s
      → (t : Cursor) × (body32 src i s ≡ ok t) × Inv32 (i + 4) t
  unfolding body32
  keep32 i s lt inv =
      let v : ℕ = mean_at src i in
      let small : v < 256 = mean_at-lt src i bytes in
      let o₁ = set s.out i v in
      let o₂ = set o₁ (i + 1) v in
      let o₃ = set o₂ (i + 2) v in
      let al = inv.aligned in
      (
        record { cur = s.cur + 4; out = o₃ },
        ground
            (arith, inv.at, inv.filled.same_length, length-set s.out i v, length-set o₁ (i + 1) v),
        record {
          at = omega (arith, inv.at);
          aligned = omega (arith, inv.aligned);
          filled =
              Filled-skip (i + 3) (i + 4) o₃
                (Filled-set_three i v s.out inv.filled (omega arith)
                  (rw add-zero at (grey32_at-mean src old i 0 (omega arith) al))
                  (grey32_at-mean src old i 1 (omega arith) al)
                  (grey32_at-mean src old i 2 (omega arith) al))
                (omega arith) (λ j p q. ground arith);
        },
      )

  loop32 :
      (t : Cursor) × (for_range 4 (body32 src) k 0 (record { cur = 0; out = old }) ≡ ok t)
      × Inv32 (4 * k) t
  loop32 =
      for_range_inv 4 (body32 src) Inv32 (4 * k) keep32 k 0 (record { cur = 0; out = old })
        (omega arith) (omega arith) (record { at = refl; aligned = refl; filled = Filled-start })

-- For a frame of fewer than 2 ^ 31 bytes, of four components, that fits its buffers,
-- `rgba_to_grayscale32` returns; the first three components of each pixel are the mean of its
-- colours, and each other byte of the result is as it was.
pub rgba_to_grayscale32_lem :
    (img : Img1D) (old : List ℕ)
    → img.components ≡ 4
    → img.width * img.height * 4 < 2 ^ 31
    → img.width * img.height * 4 ≤ length img.bytes
    → img.width * img.height * 4 ≤ length old
    → IsBytes img.bytes
    → (out : List ℕ) × (rgba_to_grayscale32 img old ≡ ok out)
      × (length out ≡ length old)
      × ((j : ℕ) → j < img.width * img.height * 4 → byte_at out j ≡ grey32_at img.bytes old j)
      × ((j : ℕ) → img.width * img.height * 4 ≤ j → byte_at out j ≡ byte_at old j)
unfolding rgba_to_grayscale32
rgba_to_grayscale32_lem img old four small fits room bytes =
    let k : ℕ = img.width * img.height in
    let (t, runs, inv) = loop32 img.bytes old bytes k (omega arith) (omega arith) in
    let e : rounds (k * 4) 4 ≡ k = omega arith in
    (
      t.out,
      rw (mul_int-ok img.width img.height (omega arith), four, mul_int-ok k 4 small, e, runs) refl,
      inv.filled.same_length,
      (λ j h. inv.filled.below j (omega arith)),
      (λ j h. inv.filled.above j (omega arith)),
    )
