-- ===== src/Tests/Frames.antt =====
-- The theorems about frames, on small frames.
use ptr24_lab.Prelude.{
  ℕ, zero, suc, ◌+◌, ◌*◌, ◌<◌, ◌≤◌, ◌≡◌, refl, Bool, true, ◌&&◌, List, [], ◌∷◌, ok, arith, length,
  if◌then◌else◌, byte_at, IsBytes, ltb,
}
use ptr24_lab.Image.Convolution.{convolution_grayscale}
use ptr24_lab.Image.Convolution.Spec.{sobel}
use ptr24_lab.Image.Convolution.Frame.{convolution_grayscale_lem}
use ptr24_lab.Image.Convolution.Edges.{convolution_grayscale_flat, convolution_grayscale_brighter}

abbrev all_bytes : List ℕ → Bool
all_bytes [] = true
all_bytes (x ∷ xs) = ltb x 256 && all_bytes xs

all_bytes-IsBytes : (xs : List ℕ) → all_bytes xs ≡ true → IsBytes xs
all_bytes-IsBytes [] h i = omega arith
all_bytes-IsBytes (x ∷ xs) h zero = ground arith
all_bytes-IsBytes (x ∷ xs) h (suc i) = all_bytes-IsBytes xs (ground arith) i

abbrev grey : List ℕ
grey = 0 ∷ 0 ∷ 9 ∷ 40 ∷ 90 ∷ 100 ∷ 200 ∷ 10 ∷ 7 ∷ []

abbrev flat : List ℕ
flat = 32 ∷ 32 ∷ 32 ∷ 32 ∷ 32 ∷ 32 ∷ 32 ∷ 32 ∷ 32 ∷ []

convolution_grayscale_lem_example :
    (out : List ℕ) × (convolution_grayscale grey 3 3 flat ≡ ok out)
    × (length out ≡ 9)
    × ((x y : ℕ) → x < 3 → y < 3 → byte_at out (y * 3 + x) ≡ sobel grey 3 3 x y)
    × ((j : ℕ) → 9 ≤ j → byte_at out j ≡ byte_at flat j)
convolution_grayscale_lem_example =
    convolution_grayscale_lem grey flat 3 3 (omega arith) (omega arith) (omega arith)
      (all_bytes-IsBytes grey refl)

-- The frame `grey` with 20 more at each pixel.
abbrev brighter : List ℕ
brighter = 20 ∷ 20 ∷ 29 ∷ 60 ∷ 110 ∷ 120 ∷ 220 ∷ 30 ∷ 27 ∷ []

raised_at : (i : ℕ) → i < 9 → byte_at brighter i ≡ byte_at grey i + 20
raised_at zero h = refl
raised_at (suc zero) h = refl
raised_at (suc (suc zero)) h = refl
raised_at (suc (suc (suc zero))) h = refl
raised_at (suc (suc (suc (suc zero)))) h = refl
raised_at (suc (suc (suc (suc (suc zero))))) h = refl
raised_at (suc (suc (suc (suc (suc (suc zero)))))) h = refl
raised_at (suc (suc (suc (suc (suc (suc (suc zero))))))) h = refl
raised_at (suc (suc (suc (suc (suc (suc (suc (suc zero)))))))) h = refl
raised_at (suc (suc (suc (suc (suc (suc (suc (suc (suc i))))))))) h = absurd (omega arith)

flat_at : (i : ℕ) → i < 9 → byte_at flat i ≡ 32
flat_at zero h = refl
flat_at (suc zero) h = refl
flat_at (suc (suc zero)) h = refl
flat_at (suc (suc (suc zero))) h = refl
flat_at (suc (suc (suc (suc zero)))) h = refl
flat_at (suc (suc (suc (suc (suc zero))))) h = refl
flat_at (suc (suc (suc (suc (suc (suc zero)))))) h = refl
flat_at (suc (suc (suc (suc (suc (suc (suc zero))))))) h = refl
flat_at (suc (suc (suc (suc (suc (suc (suc (suc zero)))))))) h = refl
flat_at (suc (suc (suc (suc (suc (suc (suc (suc (suc i))))))))) h = absurd (omega arith)

convolution_grayscale_flat_example :
    (out : List ℕ) × (convolution_grayscale flat 3 3 grey ≡ ok out)
    × ((x y : ℕ) → 1 ≤ x → x + 1 < 3 → 1 ≤ y → y + 1 < 3 → byte_at out (y * 3 + x) ≡ 50)
    × ((y : ℕ) → 1 ≤ y → y + 1 < 3 → byte_at out (y * 3 + 0) ≡ (if ltb 31 32 then 220 else 50))
convolution_grayscale_flat_example =
    convolution_grayscale_flat flat grey 3 3 32 (omega arith) (omega arith) (omega arith)
      (all_bytes-IsBytes flat refl) (omega arith) (λ x y a b. flat_at (y * 3 + x) (omega arith))

convolution_grayscale_brighter_example :
    (out out' : List ℕ) × (convolution_grayscale grey 3 3 flat ≡ ok out)
    × (convolution_grayscale brighter 3 3 flat ≡ ok out')
    × ((x y : ℕ)
        → 1 ≤ x
        → x + 1 < 3
        → 1 ≤ y
        → y + 1 < 3
        → byte_at out' (y * 3 + x) ≡ byte_at out (y * 3 + x))
convolution_grayscale_brighter_example =
    convolution_grayscale_brighter grey brighter flat 3 3 20 (omega arith) (omega arith)
      (omega arith) (omega arith) (all_bytes-IsBytes grey refl) (all_bytes-IsBytes brighter refl)
      (λ x y a b. raised_at (y * 3 + x) (omega arith))
