-- ===== src/Image/Grayscale/Rgba.antt =====
-- `grayscale_to_rgba` of grayscale.c, byte by byte.
use ptr24_lab.Prelude.{
  ℕ, ◌+◌, ◌-◌, ◌*◌, ◌/◌, ◌%◌, ◌^◌, ◌<◌, ◌≤◌, ◌≡◌, refl, List, ok, mul_int-ok, load-ok, store-ok,
  arith, length, set, byte_at, div-of_parts, mod-of_parts, ltb, if◌then◌else◌, lt→ltb, length-set,
  true, false, ltb-false,
}
use native.Mathlib.Nat.{add-zero}
use ptr24_lab.Prelude.Loop.{for_range, for_range_inv, rounds}
use ptr24_lab.Prelude.Fill.{Filled, Filled-start, Filled-set_three, Filled-skip}
use ptr24_lab.Image.Grayscale.{Img1D, body_rgba, grayscale_to_rgba}

-- Byte `j` of a frame of `c` components that shows a grey frame.
abbrev pub rgba_at : ℕ → List ℕ → List ℕ → ℕ → ℕ
rgba_at c grey old j = if ltb (j % c) 3 then byte_at grey (j / c) else byte_at old j

le-mul_three : (k c : ℕ) → 3 ≤ c → k ≤ k * c
le-mul_three k c h = let e : k * 3 ≤ k * c = grind arith in omega arith

pub rgba_at-colour :
    (c i r : ℕ) (grey old : List ℕ)
    → r < 3
    → 3 ≤ c
    → rgba_at c grey old (i * c + r) ≡ byte_at grey i
rgba_at-colour c i r grey old h three =
    let p : r < c = omega arith in
    let t : ltb ((i * c + r) % c) 3 ≡ true = rw (mod-of_parts i c r p) (lt→ltb r 3 h) in
    rw (t, div-of_parts i c r p)

rgba_at-rest :
    (c i j : ℕ) (grey old : List ℕ)
    → 3 ≤ c
    → i * c + 3 ≤ j
    → j < i * c + c
    → rgba_at c grey old j ≡ byte_at old j
rgba_at-rest c i j grey old three lo hi =
    let e : i * c + (j - i * c) ≡ j = omega arith in
    let m : j % c ≡ j - i * c = rw e at (mod-of_parts i c (j - i * c) (omega arith)) in
    let t : ltb (j % c) 3 ≡ false = rw m (ltb-false (j - i * c) 3 (omega arith)) in rw t

module _ (grey old : List ℕ) (c k : ℕ) (three : 3 ≤ c) (small : k * c < 2 ^ 31)
    (fits : k ≤ length grey) (room : k * c ≤ length old) where
  abbrev InvRgba : ℕ → List ℕ → Type 0
  InvRgba i out = Filled (rgba_at c grey old) old (i * c) out

  keep_rgba :
      (i : ℕ) (out : List ℕ)
      → i < k
      → InvRgba i out
      → (t : List ℕ) × (body_rgba grey c i out ≡ ok t) × InvRgba (i + 1) t
  unfolding body_rgba
  keep_rgba i out lt inv =
      let v : ℕ = byte_at grey i in
      let inside : i * c + c ≤ k * c = grind arith in
      let next : i * c + c ≡ (i + 1) * c = omega arith in
      let o₁ = set out (i * c) v in
      let o₂ = set o₁ (i * c + 1) v in
      let o₃ = set o₂ (i * c + 2) v in
      let len₁ : length o₁ ≡ length out = length-set out (i * c) v in
      let len₂ : length o₂ ≡ length o₁ = length-set o₁ (i * c + 1) v in
      let same : length out ≡ length old = inv.same_length in
      (
        o₃,
        rw
            (
              mul_int-ok i c (omega arith),
              load-ok grey i (omega arith),
              add-zero (i * c),
              store-ok out (i * c) v (omega arith),
              store-ok o₁ (i * c + 1) v (omega arith),
              store-ok o₂ (i * c + 2) v (omega arith),
            )
            refl,
        rw next at (
            Filled-skip (i * c + 3) (i * c + c) o₃
              (Filled-set_three (i * c) v out inv (omega arith)
                (rw add-zero at (rgba_at-colour c i 0 grey old (omega arith) three))
                (rgba_at-colour c i 1 grey old (omega arith) three)
                (rgba_at-colour c i 2 grey old (omega arith) three))
              (omega arith) (λ j p q. rgba_at-rest c i j grey old three p q)),
      )

  loop_rgba : (t : List ℕ) × (for_range 1 (body_rgba grey c) k 0 old ≡ ok t) × InvRgba k t
  loop_rgba =
      let start : Filled (rgba_at c grey old) old 0 old = Filled-start in
      let e : 0 ≡ 0 * c = omega arith in
      for_range_inv 1 (body_rgba grey c) InvRgba k keep_rgba k 0 old (omega arith) (omega arith)
        (rw e at start)

-- For a result frame of fewer than 2 ^ 31 bytes, of three or more components, that fits its
-- buffers, `grayscale_to_rgba` returns; the first three components of pixel `i` are grey value
-- `i`, and each other byte of the result is as it was.
pub grayscale_to_rgba_lem :
    (grey : List ℕ) (result : Img1D)
    → 3 ≤ result.components
    → result.width * result.height * result.components < 2 ^ 31
    → result.width * result.height ≤ length grey
    → result.width * result.height * result.components ≤ length result.bytes
    → (out : List ℕ) × (grayscale_to_rgba grey result ≡ ok out)
      × (length out ≡ length result.bytes)
      × ((j : ℕ)
          → j < result.width * result.height * result.components
          → byte_at out j ≡ rgba_at result.components grey result.bytes j)
      × ((j : ℕ)
          → result.width * result.height * result.components ≤ j
          → byte_at out j ≡ byte_at result.bytes j)
unfolding grayscale_to_rgba
grayscale_to_rgba_lem grey result three small fits room =
    let k : ℕ = result.width * result.height in
    let (t, runs, inv) = loop_rgba grey result.bytes result.components k three small fits room in
    let e : rounds k 1 ≡ k = omega arith in
    let area : k < 2 ^ 31 = omega (arith, le-mul_three k result.components three) in
    (
      t,
      rw (mul_int-ok result.width result.height area, e, runs) refl,
      inv.same_length,
      inv.below,
      inv.above,
    )
