-- ===== src/Tests/Transforms.antt =====
-- The theorems about the transform and the report that comes of it, in numbers modulo 5 and 2.
use ptr24_lab.Prelude.{
  ℕ, ◌+◌, ◌-◌, ◌*◌, ◌%◌, ◌^◌, ◌<◌, ◌≤◌, ◌≡◌, refl, Bool, true, false, not, ◌&&◌, ◌==◌, List, ok,
  replicate, arith,
}
use ptr24_lab.Audio.Acquisition.{samples}
use ptr24_lab.Audio.Peak.{Peak}
use ptr24_lab.Audio.Report.{Report, Numbers, RoundInputs}
use ptr24_lab.Tests.Devices.{naturals}
use ptr24_lab.Fft.{Complexes, Block, fft}
use ptr24_lab.Fft.Dft.{IsExact, dft, fft-dft}

-- Numbers modulo 5, where 2 is a fourth root of one.
abbrev modular : Complexes
modular = record {
  C = ℕ;
  add = λ a b. (a + b) % 5;
  sub = λ a b. (a + (5 - b)) % 5;
  mul = λ a b. a * b % 5;
  turn = λ i n. 3 ^ i % 5;
}

-- The field of two numbers, in which one is its own negative.
abbrev pub xor : Bool → Bool → Bool
xor true b = not b
xor false b = b

xor_comm : (a b : Bool) → xor a b ≡ xor b a
xor_comm true true = refl
xor_comm true false = refl
xor_comm false true = refl
xor_comm false false = refl

xor_assoc : (a b d : Bool) → xor (xor a b) d ≡ xor a (xor b d)
xor_assoc true true true = refl
xor_assoc true true false = refl
xor_assoc true false d = refl
xor_assoc false b d = refl

and-xor : (t a b : Bool) → (t && xor a b) ≡ xor (t && a) (t && b)
and-xor true a b = refl
and-xor false a b = refl

and_false : (t : Bool) → (t && false) ≡ false
and_false true = refl
and_false false = refl

abbrev pub parities : Complexes
parities = record { C = Bool; add = xor; sub = xor; mul = λ a b. a && b; turn = λ i n. true }

pub parities-IsExact : (n : ℕ) → IsExact parities n
parities-IsExact n = record {
  nought = false;
  add_comm = xor_comm;
  add_assoc = xor_assoc;
  add_nought = λ a. refl;
  mul_add = and-xor;
  mul_nought = and_false;
  turn_zero = λ a. refl;
  turn_add = λ i j a. refl;
  half_turn = λ i a b. refl;
  full_turn = λ i. refl;
}

abbrev four_values : Block Bool
four_values = record { size = 4; at = λ i. i == 2 }

fft-dft_example :
    (buf' out' : Block Bool) × (fft parities four_values four_values 4 ≡ ok (buf', out'))
    × ((j : ℕ) → j < 4 → buf'.at j ≡ dft parities 4 (parities-IsExact 4) 4 1 four_values.at j)
    × ((i : ℕ) → 4 ≤ i → (buf'.at i ≡ four_values.at i) × (out'.at i ≡ four_values.at i))
fft-dft_example =
    fft-dft parities 4 2 (parities-IsExact 4) four_values four_values refl (omega arith)
      (omega arith) (omega arith)

abbrev numbers : Numbers
numbers = record {
  complexes = modular;
  doubles = naturals;
  of_sample = λ v. v % 5;
  value = λ v. (v, 0);
}

abbrev tone : ℕ → List ℕ
tone k = replicate 512 (k % 256)

abbrev silence : List ℕ
silence = replicate 16384 0

abbrev sixteen : ℕ → RoundInputs
sixteen k = record {
  audio_on = true;
  message = samples (tone k);
  previous = 10;
  now = 25;
  has_room = true;
}
