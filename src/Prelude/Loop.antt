-- ===== src/Prelude/Loop.antt =====
-- Counted loops, and the rule by which an invariant shows that they return.
use ptr24_lab.Prelude.Memory.{Outcome, ok, ◌>>=◌}
use Prim.Native.Nat.{ℕ, zero, suc, ◌+◌, ◌-◌, ◌*◌, ◌/◌, ◌<◌}
use mathlib.Core.Path.{◌≡◌, refl}
use native.Mathlib.Omega.{arith}

-- The rounds of `for (i = 0; i < end; i += step)`.
abbrev pub rounds : ℕ → ℕ → ℕ
rounds end step = (end + step - 1) / step

module _ {ℓ} {S : Type ℓ} (step : ℕ) (body : ℕ → S → Outcome S) where
  -- The loop at index `i`, with `n` rounds left.
  unfoldable pub for_range : ℕ → ℕ → S → Outcome S
  for_range zero i s = ok s
  for_range (suc n) i s = body i s >>= for_range n (i + step)

module _ {ℓ κ} {S : Type ℓ} (step : ℕ) (body : ℕ → S → Outcome S) (P : ℕ → S → Type κ) (end : ℕ)
    (keep : (i : ℕ) (s : S) → i < end → P i s → (t : S) × (body i s ≡ ok t) × P (i + step) t) where
  -- An invariant that each round keeps holds at the end, and the loop returns.
  pub for_range_inv :
      (n i : ℕ) (s : S)
      → 0 < step
      → i + n * step ≡ end
      → P i s
      → (t : S) × (for_range step body n i s ≡ ok t) × P end t
  unfolding for_range
  for_range_inv zero i s pos e h = let e' : i ≡ end = omega arith in (s, refl, rw (← e') h)
  for_range_inv (suc n) i s pos e h =
      let (s', runs, h') = keep i s (grind arith) h in
      let (t, rest, h'') = for_range_inv n (i + step) s' pos (grind arith) h' in
      (t, rw runs rest, h'')
