-- ===== src/Fft.antt =====
-- code/utils/fft_utils.c and fft_utils.h: the fast Fourier transform, in place over two arrays. The
-- numbers of type `double complex` are a parameter.
pub mod Reference
pub mod Butterfly
pub mod Recursion
pub mod Transform
pub mod Dft
use ptr24_lab.Prelude.{
  ℕ, zero, suc, ◌+◌, ◌*◌, ◌/◌, Bool, true, false, Outcome, ok, fault, ◌>>=◌, ltb, add_int, mul_int,
  ◌==◌, if◌then◌else◌,
}
use ptr24_lab.Prelude.Loop.{for_range, rounds}

-- `turn i n` is `cexpf(-I * (M_PI * i) / n)`.
pub record Complexes : Type 1 where
  pub C : Type 0
  pub add : C → C → C
  pub sub : C → C → C
  pub mul : C → C → C
  pub turn : ℕ → ℕ → C

-- An array in memory: what it holds, and up to where it may be used.
pub record Block (A : Type 0) : Type 0 where
  pub size : ℕ
  pub at : ℕ → A

module _ {A : Type 0} where
  abbrev pub get : Block A → ℕ → Outcome A
  get b i = if ltb i b.size then ok (b.at i) else fault

  abbrev pub put_at : (ℕ → A) → ℕ → A → ℕ → A
  put_at f i v j = if j == i then v else f j

  abbrev pub put : Block A → ℕ → A → Outcome (Block A)
  put b i v = if ltb i b.size then ok (record b { at = put_at b.at i v }) else fault

module _ (c : Complexes) where
  -- The body of the loop of `_fft`, where `buf` and `out` point to place `o` of their arrays, and then
  -- the step to the next `i`.
  unfoldable pub butterfly : ℕ → ℕ → ℕ → Block c.C → ℕ → Block c.C → Outcome (Block c.C)
  butterfly o n step out i buf = do
    x ← get out (o + (i + step))
    let t = c.mul (c.turn i n) x
    y ← get out (o + i)
    buf₁ ← put buf (o + i / 2) (c.add y t)
    z ← get out (o + i)
    last ← add_int i n
    buf₂ ← put buf₁ (o + last / 2) (c.sub z t)
    next ← add_int i (2 * step)
    ok buf₂

  -- The arrays that `buf` and `out` point into, afterwards.
  abbrev pub Arrays : Type 0
  Arrays = Block c.C × Block c.C

  -- The two branches of `_fft`, given its recursive call: offset, step, `buf` and `out`.
  unfoldable pub fft_branch :
      Bool
      → (ℕ → ℕ → Block c.C → Block c.C → Outcome Arrays)
      → ℕ
      → ℕ
      → ℕ
      → Block c.C
      → Block c.C
      → Outcome Arrays
  unfolding butterfly for_range
  fft_branch false again o n step buf out = ok (buf, out)
  fft_branch true again o n step buf out = do
    next ← mul_int step 2
    (out₁, buf₁) ← again o next out buf
    (out₂, buf₂) ← again (o + step) next out₁ buf₁
    buf₃ ← for_range (2 * step) (butterfly o n step out₂) (rounds n (2 * step)) 0 buf₂
    ok (buf₃, out₂)

  -- `_fft`. It takes fuel for the depth of its calls, and is a fault where this runs out.
  unfoldable pub fft_rec : ℕ → ℕ → ℕ → ℕ → Block c.C → Block c.C → Outcome Arrays
  unfolding fft_branch
  fft_rec zero n o step buf out = fault
  fft_rec (suc d) n o step buf out = fft_branch (ltb step n) (fft_rec d n) o n step buf out

  unfoldable pub copy_body : Block c.C → ℕ → Block c.C → Outcome (Block c.C)
  copy_body buf i out = do v ← get buf i; put out i v

  -- `fft`: a copy, and then `_fft` with step 1, for which a depth of `n` is enough.
  unfoldable pub fft : Block c.C → Block c.C → ℕ → Outcome Arrays
  unfolding fft_rec copy_body for_range
  fft buf out n = do
    out₁ ← for_range 1 (copy_body buf) (rounds n 1) 0 out
    fft_rec (suc n) n 0 1 buf out₁
