-- ===== src/Audio/Gaps.antt =====
-- Where the samples of sixteen full messages end up in the input of the transform.
use ptr24_lab.Prelude.{
  ℕ, zero, suc, ◌+◌, ◌-◌, ◌*◌, ◌/◌, ◌%◌, ◌<◌, ◌≤◌, ◌≡◌, refl, List, [], ◌∷◌, ◌++◌, ok, ◌>>=◌, ltb,
  leb, ◌&&◌, if◌then◌else◌, length, none, some, false, byte_at, get_or, take, drop, arith, ap, ◌∙◌,
  ltb-false, length-append, get_or-append_left, get_or-append_right, get_or-drop, length-take,
  length-drop,
}
use ptr24_lab.Wav.Files.{overwrite}
use ptr24_lab.Wav.Header.{u16_at}
use ptr24_lab.Audio.Acquisition.{samples}
use ptr24_lab.Audio.Treatment.{Treatment, left_channel, treat_message, treat_stream, copy_in}

-- A byte after bytes were written over a buffer.
byte_at-overwrite :
    (x : List ℕ) (at : ℕ) (bs : List ℕ) (j : ℕ)
    → at + length bs ≤ length x
    → byte_at (overwrite x at bs) j
      ≡ (if leb at j && ltb j (at + length bs) then byte_at bs (j - at) else byte_at x j)
byte_at-overwrite x zero bs j h =
    let e : 0 + length bs + (j - length bs) ≡ (if ltb j (length bs) then length bs else j) =
      ground arith in
    ground (
      arith,
      get_or-append_left bs (drop (0 + length bs) x) j 0,
      get_or-append_right bs (drop (0 + length bs) x) j 0,
      get_or-drop (0 + length bs) x (j - length bs) 0,
      e,
    )
byte_at-overwrite [] (suc at) bs j h = absurd (omega arith)
byte_at-overwrite (y ∷ x) (suc at) bs zero h = ground arith
byte_at-overwrite (y ∷ x) (suc at) bs (suc j) h =
    let n : suc at + length bs ≡ suc (at + length bs) = omega arith in
    let m : suc j - suc at ≡ j - at = omega arith in
    rw (n, m) (ground (arith, byte_at-overwrite x at bs j (omega arith)))

pub length-overwrite :
    (x : List ℕ) (at : ℕ) (bs : List ℕ)
    → at + length bs ≤ length x
    → length (overwrite x at bs) ≡ length x
length-overwrite x at bs h = omega (
  arith,
  length-append {0} (take at x ++ bs) (drop (at + length bs) x),
  length-append {0} (take at x) bs,
  length-take at x,
  length-drop (at + length bs) x,
)

pub get-left_channel :
    (x : List ℕ) (n i k : ℕ) → k < n → get_or (left_channel x n i) k 0 ≡ u16_at x (4 * (i + k))
unfolding left_channel
get-left_channel x zero i k h = absurd (omega arith)
get-left_channel x (suc n) i zero h = let e : 2 * (i * 2) ≡ 4 * (i + 0) = omega arith in rw e
get-left_channel x (suc n) i (suc k) h =
    let e : i + 1 + k ≡ i + suc k = omega arith in
    rw e at (get-left_channel x n (i + 1) k (omega arith))

pub length-left_channel : (x : List ℕ) (n i : ℕ) → length (left_channel x n i) ≡ n
unfolding left_channel
length-left_channel x zero i = refl
length-left_channel x (suc n) i = ap suc (length-left_channel x n (i + 1))

module _ (stream : ℕ → List ℕ) (x₀ : List ℕ) (full : (k : ℕ) → length (stream k) ≡ 512)
    (room : length x₀ ≡ 16384) where
  -- The byte at a place of `x` after `k` messages: every message fills 512 bytes of the 1024 that
  -- the next one is away.
  abbrev pub placed : ℕ → ℕ → ℕ
  placed k j =
      if ltb (j / 1024) k && ltb (j % 1024) 512
      then byte_at (stream (j / 1024)) (j % 1024)
      else byte_at x₀ j

  pub record Gathered (k : ℕ) (x : List ℕ) : Type 0 where
    pub same_length : length x ≡ 16384
    pub bytes : (j : ℕ) → byte_at x j ≡ placed k j

  abbrev pub next : ℕ → List ℕ → List ℕ
  next k x = overwrite x (2 * (512 * k)) (stream k)

  pub next-Gathered : (k : ℕ) (x : List ℕ) → k < 16 → Gathered k x → Gathered (k + 1) (next k x)
  next-Gathered k x lt g =
      let fits : 2 * (512 * k) + length (stream k) ≤ length x =
        omega (arith, g.same_length, full k) in
      record {
        same_length = length-overwrite x (2 * (512 * k)) (stream k) fits ∙ g.same_length;
        bytes = λ j.
            byte_at-overwrite x (2 * (512 * k)) (stream k) j fits
            ∙ ground (arith, g.bytes j, full k);
      }

  abbrev begin : Treatment
  begin = record { x = x₀; size = 0; frame = none }

  copy_in_lem :
      (k : ℕ) (x : List ℕ) → k < 16 → Gathered k x → copy_in x (512 * k) (stream k) ≡ ok (next k x)
  copy_in_lem k x lt g =
      rw
        (ltb-false (length x) (2 * (512 * k) + length (stream k))
          (omega (arith, g.same_length, full k)))
        refl

  pub gather_message :
      (k : ℕ) (x : List ℕ)
      → k < 15
      → Gathered k x
      → treat_message (samples (stream k)) (record { x = x; size = 512 * k; frame = none })
        ≡ ok (record { x = next k x; size = 512 * suc k; frame = none })
  unfolding treat_message
  gather_message k x lt g =
      let sum : 512 * k + length (stream k) ≡ 512 * suc k = omega (arith, full k) in
      let few : leb 8192 (512 * suc k) ≡ false = ground arith in
      simp (copy_in_lem k x (omega arith) g, sum, few)

  gather :
      (k : ℕ)
      → k < 16
      → (x : List ℕ) × (treat_stream stream k begin
          ≡ ok (record { x = x; size = 512 * k; frame = none }))
        × Gathered k x
  unfolding treat_stream
  gather zero lt = (x₀, refl, record { same_length = room; bytes = λ j. ground arith })
  gather (suc k) lt =
      let (x, runs, g) = gather k (omega arith) in
      let g' = next-Gathered k x (omega arith) g in
      let e : k + 1 ≡ suc k = omega arith in
      (next k x, rw (runs) (gather_message k x (omega arith) g), rw e at g')

  pub placed-u16 :
      (x : List ℕ) (i : ℕ)
      → i < 4096
      → Gathered 16 x
      → u16_at x (4 * i) ≡ (
          if ltb (i % 256) 128
          then u16_at (stream (i / 256)) (4 * (i % 256))
          else u16_at x₀ (4 * i))
  placed-u16 x i h g =
      let q : 4 * i / 1024 ≡ i / 256 = omega arith in
      let q' : (4 * i + 1) / 1024 ≡ i / 256 = omega arith in
      let m : 4 * i % 1024 ≡ 4 * (i % 256) = omega arith in
      let m' : (4 * i + 1) % 1024 ≡ 4 * (i % 256) + 1 = omega arith in
      rw (g.bytes (4 * i), g.bytes (4 * i + 1), q, q', m, m') (ground arith)

  stream-suc :
      (n : ℕ) (t : Treatment)
      → treat_stream stream (suc n) t
        ≡ (treat_stream stream n t >>= treat_message (samples (stream n)))
  unfolding treat_stream
  stream-suc n t = refl

  pub last_lem :
      (x : List ℕ)
      → Gathered 15 x
      → treat_message (samples (stream 15)) (record { x = x; size = 512 * 15; frame = none })
        ≡ ok (record { x = next 15 x; size = 0; frame = some (left_channel (next 15 x) 4096 0) })
  unfolding treat_message
  last_lem x g =
      let e : 512 * 15 + length (stream 15) ≡ 8192 = omega (arith, full 15) in
      simp (copy_in_lem 15 x (omega arith) g, e)

  last_message :
      (x : List ℕ)
      → Gathered 15 x
      → treat_stream stream 15 begin ≡ ok (record { x = x; size = 512 * 15; frame = none })
      → treat_stream stream 16 begin
        ≡ ok (record { x = next 15 x; size = 0; frame = some (left_channel (next 15 x) 4096 0) })
  last_message x g runs = stream-suc 15 begin ∙ (rw runs (last_lem x g))

-- With messages of 512 bytes each and 16384 bytes of memory for the samples, the transform starts
-- after the sixteenth message, and value `i` of its input is a left sample of message `i / 256` if
-- `i % 256` is below 128, where it stands at its place in the message; every other value is what
-- was in memory when `x` was allocated, and none of the sound.
treatment_gaps :
    (stream : ℕ → List ℕ) (x₀ : List ℕ)
    → ((k : ℕ) → length (stream k) ≡ 512)
    → length x₀ ≡ 16384
    → (end : Treatment) × (treat_stream stream 16 (record { x = x₀; size = 0; frame = none })
        ≡ ok end)
      × (end.size ≡ 0)
      × ((left : List ℕ) × (end.frame ≡ some left)
          × (length left ≡ 4096)
          × ((i : ℕ)
              → i < 4096
              → get_or left i 0 ≡ (
                  if ltb (i % 256) 128
                  then u16_at (stream (i / 256)) (4 * (i % 256))
                  else u16_at x₀ (4 * i))))
treatment_gaps stream x₀ full room =
    let (x, runs, g) = gather stream x₀ full room 15 (omega arith) in
    let x' = next stream x₀ full room 15 x in
    let g' = next-Gathered stream x₀ full room 15 x (omega arith) g in
    (
      record { x = x'; size = 0; frame = some (left_channel x' 4096 0) },
      last_message stream x₀ full room x g runs,
      refl,
      (
        left_channel x' 4096 0,
        refl,
        length-left_channel x' 4096 0,
        (λ i h.
            let z : 0 + i ≡ i = omega arith in
            (rw z at (get-left_channel x' 4096 0 i h)) ∙ placed-u16 stream x₀ full room x' i h g'),
      ),
    )
