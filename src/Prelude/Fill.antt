-- ===== src/Prelude/Fill.antt =====
-- A buffer that a loop fills from left to right: below `i` it holds the wanted bytes, from `i` on
-- the old ones.
use ptr24_lab.Prelude.Memory.{byte_at}
use ptr24_lab.Prelude.Lists.{length, set, length-set, get_or-set_self, get_or-set_ne}
use Prim.Native.Nat.{ℕ, ◌+◌, ◌<◌, ◌≤◌}
use mathlib.Core.Path.{◌≡◌, refl, ◌∙◌}
use mathlib.Core.List.{List}
use native.Mathlib.Omega.{arith}
use native.Mathlib.Nat.{add_assoc}

pub record Filled (want : ℕ → ℕ) (old : List ℕ) (i : ℕ) (buf : List ℕ) : Type 0 where
  pub same_length : length buf ≡ length old
  pub below : (j : ℕ) → j < i → byte_at buf j ≡ want j
  pub above : (j : ℕ) → i ≤ j → byte_at buf j ≡ byte_at old j

module _ {want : ℕ → ℕ} {old : List ℕ} where
  pub Filled-start : Filled want old 0 old
  Filled-start = record {
    same_length = refl;
    below = λ j h. absurd (omega arith);
    above = λ j h. refl;
  }

  -- A store of the wanted byte.
  pub Filled-set :
      (i v : ℕ) (buf : List ℕ)
      → Filled want old i buf
      → i < length old
      → want i ≡ v
      → Filled want old (i + 1) (set buf i v)
  Filled-set i v buf f h e = record {
    same_length = length-set buf i v ∙ f.same_length;
    below = λ j p.
        ground
          (arith, f.same_length, f.below j, get_or-set_self buf i v 0, get_or-set_ne buf i j v 0);
    above = λ j p. ground (arith, f.above j, get_or-set_ne buf i j v 0);
  }

  -- Bytes that are left as they are.
  pub Filled-skip :
      (i k : ℕ) (buf : List ℕ)
      → Filled want old i buf
      → i ≤ k
      → ((j : ℕ) → i ≤ j → j < k → want j ≡ byte_at old j)
      → Filled want old k buf
  Filled-skip i k buf f le skipped = record {
    same_length = f.same_length;
    below = λ j p. ground (arith, f.below j, f.above j, skipped j);
    above = λ j p. f.above j (omega arith);
  }

  -- A store of one byte in three places that follow one another.
  pub Filled-set_three :
      (i v : ℕ) (buf : List ℕ)
      → Filled want old i buf
      → i + 3 ≤ length old
      → want i ≡ v
      → want (i + 1) ≡ v
      → want (i + 2) ≡ v
      → Filled want old (i + 3) (set (set (set buf i v) (i + 1) v) (i + 2) v)
  Filled-set_three i v buf f h e₀ e₁ e₂ =
      let f₁ = Filled-set i v buf f (omega arith) e₀ in
      let f₂ = Filled-set (i + 1) v (set buf i v) f₁ (omega arith) e₁ in
      let f₃ =
        Filled-set (i + 2) v (set (set buf i v) (i + 1) v) (rw add_assoc at f₂) (omega arith) e₂ in
      rw add_assoc at f₃
