-- ===== src/Prelude/Memory.antt =====
-- A computation on memory gives a value, or does what C leaves undefined.
use Prim.Native.Nat.{ℕ, zero, suc, ◌+◌, ◌*◌, ◌^◌, ◌<◌, ◌%◌}
use mathlib.Core.Path.{◌≡◌}
use mathlib.Core.List.{List, [], ◌∷◌, ◌++◌}
use native.Mathlib.Omega.{arith}
use ptr24_lab.Prelude.Tests.{ltb, lt→ltb, if◌then◌else◌}
use ptr24_lab.Prelude.Lists.{length, get_or, set, take, drop, get_or-drop}

-- `fault` is an access out of range, a signed overflow, or a use of an invalid pointer.
pub data Outcome {ℓ} (A : Type ℓ) : Type ℓ where
  ok : A → Outcome A
  fault : Outcome A

infixl 5 ◌>>=◌
abbrev pub ◌>>=◌ {ℓ κ} : {A : Type ℓ} {B : Type κ} → Outcome A → (A → Outcome B) → Outcome B
ok a >>= f = f a
fault >>= f = fault

pub ok-injective {ℓ} : {A : Type ℓ} {a b : A} → ok a ≡ ok b → a ≡ b
ok-injective h = cc

-- Bytes in memory: `buf[i]`, and `buf[i] = v` for a `uint8_t *buf`.
abbrev pub u8 : ℕ → ℕ
u8 n = n % 2 ^ 8

abbrev pub byte_at : List ℕ → ℕ → ℕ
byte_at buf i = get_or buf i 0

abbrev pub load : List ℕ → ℕ → Outcome ℕ
load buf i = if ltb i (length buf) then ok (byte_at buf i) else fault

abbrev pub store : List ℕ → ℕ → ℕ → Outcome (List ℕ)
store buf i v = if ltb i (length buf) then ok (set buf i v) else fault

-- The product of two `int` values that are not negative; overflow is undefined.
abbrev pub mul_int : ℕ → ℕ → Outcome ℕ
mul_int a b = if ltb (a * b) (2 ^ 31) then ok (a * b) else fault

pub mul_int-ok : (a b : ℕ) → a * b < 2 ^ 31 → mul_int a b ≡ ok (a * b)
mul_int-ok a b h = rw (lt→ltb _ _ h)

-- Their sum, likewise.
abbrev pub add_int : ℕ → ℕ → Outcome ℕ
add_int a b = if ltb (a + b) (2 ^ 31) then ok (a + b) else fault

pub load-ok : (buf : List ℕ) (i : ℕ) → i < length buf → load buf i ≡ ok (byte_at buf i)
load-ok buf i h = rw (lt→ltb _ _ h)

pub store-ok : (buf : List ℕ) (i v : ℕ) → i < length buf → store buf i v ≡ ok (set buf i v)
store-ok buf i v h = rw (lt→ltb _ _ h)

abbrev pub IsBytes : List ℕ → Type 0
IsBytes buf = (i : ℕ) → byte_at buf i < 256

-- A part of bytes has bytes.
pub take-IsBytes : (n : ℕ) (xs : List ℕ) → IsBytes xs → IsBytes (take n xs)
take-IsBytes zero xs bytes j = omega arith
take-IsBytes (suc n) [] bytes j = omega arith
take-IsBytes (suc n) (x ∷ xs) bytes zero = bytes 0
take-IsBytes (suc n) (x ∷ xs) bytes (suc j) = take-IsBytes n xs (λ i. bytes (suc i)) j

pub drop-IsBytes : (n : ℕ) (xs : List ℕ) → IsBytes xs → IsBytes (drop n xs)
drop-IsBytes n xs bytes i = rw (get_or-drop n xs i 0) (bytes (n + i))

pub append-IsBytes : (xs ys : List ℕ) → IsBytes xs → IsBytes ys → IsBytes (xs ++ ys)
append-IsBytes [] ys bytes more i = more i
append-IsBytes (x ∷ xs) ys bytes more zero = bytes 0
append-IsBytes (x ∷ xs) ys bytes more (suc i) = append-IsBytes xs ys (λ j. bytes (suc j)) more i
