-- ===== src/Audio/Overflow.antt =====
-- Which messages `treatment_task_t_lol` has room for: it copies each to twice the place that its count of
-- bytes says.
use ptr24_lab.Prelude.{
  ℕ, zero, suc, ◌+◌, ◌*◌, ◌<◌, ◌≤◌, ◌≡◌, refl, sym, Bool, ap, ◌∙◌, true, false, List, ok, fault,
  ◌>>=◌, leb, lt→ltb, ltb-false, if◌then◌else◌, length, none, some, Bool-cases, inl, inr, arith,
}
use ptr24_lab.Wav.Files.{overwrite}
use ptr24_lab.Audio.Acquisition.{samples}
use ptr24_lab.Audio.Gaps.{length-overwrite}
use ptr24_lab.Audio.Treatment.{
  Treatment, treat_message, treat_stream, left_channel, copy_in, fft_buffer_size_left_canal,
}

-- What a round leaves of the count and of the memory.
record Kept (t : Treatment) (n : ℕ) (t' : Treatment) : Type 0 where
  same_length : length t'.x ≡ length t.x
  count : t'.size ≡ (if leb 8192 (t.size + n) then 0 else t.size + n)

-- The end of a round, by whether there is enough for a transform.
abbrev ended : List ℕ → ℕ → Bool → Treatment
ended x size enough =
    if enough
    then record { x = x; size = 0; frame = some (left_channel x fft_buffer_size_left_canal 0) }
    else record { x = x; size = size; frame = none }

ended-Kept :
    (t : Treatment) (x : List ℕ) (n : ℕ)
    → length x ≡ length t.x
    → Kept t n (ended x (t.size + n) (leb 8192 (t.size + n)))
ended-Kept t x n same = by_test (leb 8192 (t.size + n)) refl
  where
    by_test : (b : Bool) → leb 8192 (t.size + n) ≡ b → Kept t n (ended x (t.size + n) b)
    by_test true e = record {
      same_length = same;
      count = ap (λ b. if b then 0 else t.size + n) (sym e);
    }
    by_test false e = record {
      same_length = same;
      count = ap (λ b. if b then 0 else t.size + n) (sym e);
    }

copied :
    (bs x : List ℕ) (size : ℕ)
    → 2 * size + length bs ≤ length x
    → copy_in x size bs ≡ ok (overwrite x (2 * size) bs)
copied bs x size room = rw (ltb-false (length x) (2 * size + length bs) room) refl

-- A message for which there is room.
message_fits :
    (bs : List ℕ) (t : Treatment)
    → 2 * t.size + length bs ≤ length t.x
    → (t' : Treatment) × (treat_message (samples bs) t ≡ ok t') × Kept t (length bs) t'
unfolding treat_message
message_fits bs t room =
    let size' = t.size + length bs in
    let x' = overwrite t.x (2 * t.size) bs in
    (
      ended x' size' (leb 8192 size'),
      ap (λ r. r >>= λ x. ok (ended x size' (leb 8192 size'))) (copied bs t.x t.size room),
      ended-Kept t x' (length bs) (length-overwrite t.x (2 * t.size) bs room),
    )

abbrev begin : List ℕ → Treatment
begin x = record { x = x; size = 0; frame = none }

-- With 16384 bytes of memory and messages each of 0, 256 or 512 bytes, however many come in and in any
-- mixture, each is copied within the memory, and the count of bytes is a multiple of 256 below 8192.
pub treat_stream_fits :
    (stream : ℕ → List ℕ) (blocks : ℕ → ℕ) (x₀ : List ℕ)
    → ((k : ℕ) → blocks k ≤ 2)
    → ((k : ℕ) → length (stream k) ≡ 256 * blocks k)
    → length x₀ ≡ 16384
    → (n : ℕ)
    → (t : Treatment) × (treat_stream stream n (begin x₀) ≡ ok t)
      × (length t.x ≡ 16384)
      × ((m : ℕ) × (m < 32) × (t.size ≡ 256 * m))
unfolding treat_stream
treat_stream_fits stream blocks x₀ few sized room zero =
    (begin x₀, refl, room, (0, omega arith, refl))
treat_stream_fits stream blocks x₀ few sized room (suc n) =
    let (t, runs, len, (m, low, at)) = treat_stream_fits stream blocks x₀ few sized room n in
    let (t', takes, k) = message_fits (stream n) t (omega (arith, few n, sized n, len, at, low)) in
    (
      t',
      ap (λ r. r >>= treat_message (samples (stream n))) runs ∙ takes,
      k.same_length ∙ len,
      elim (Bool-cases (leb 32 (m + blocks n))) [
        | inl full ↦ (0, omega arith, ground (arith, k.count, sized n, at))
        | inr more ↦ (m + blocks n, ground arith, ground (arith, k.count, sized n, at))
      ],
    )

-- A message for which there is no room.
message_overruns :
    (bs : List ℕ) (t : Treatment)
    → length t.x < 2 * t.size + length bs
    → treat_message (samples bs) t ≡ fault
unfolding treat_message
message_overruns bs t past =
    ap
      (λ b. (if b then fault else ok (overwrite t.x (2 * t.size) bs)) >>= λ x.
        ok (ended x (t.size + length bs) (leb 8192 (t.size + length bs))))
      (lt→ltb (length t.x) (2 * t.size + length bs) past)

after_fault :
    (stream : ℕ → List ℕ) (n : ℕ) (t : Treatment)
    → treat_stream stream n t ≡ fault
    → treat_stream stream (suc n) t ≡ fault
unfolding treat_stream
after_fault stream n t e = ap (λ r. r >>= treat_message (samples (stream n))) e

module _ (stream : ℕ → List ℕ) (x₀ : List ℕ) (full : (k : ℕ) → k < 15 → length (stream k) ≡ 512)
    (room : length x₀ ≡ 16384) where
  full_messages :
      (k : ℕ)
      → k ≤ 15
      → (t : Treatment) × (treat_stream stream k (begin x₀) ≡ ok t)
        × (length t.x ≡ 16384)
        × (t.size ≡ 512 * k)
  unfolding treat_stream
  full_messages zero h = (begin x₀, refl, room, refl)
  full_messages (suc k) h =
      let (t, runs, len, at) = full_messages k (omega (arith, h)) in
      let size : length (stream k) ≡ 512 = full k (omega (arith, h)) in
      let (t', takes, kept) = message_fits (stream k) t (omega (arith, size, len, at, h)) in
      (
        t',
        ap (λ r. r >>= treat_message (samples (stream k))) runs ∙ takes,
        kept.same_length ∙ len,
        ground (arith, kept.count, size, at, h),
      )

  module _ (more : 256 < length (stream 15)) (short : length (stream 15) < 512)
      (last : length (stream 16) ≡ 512) where
    overruns_at : treat_stream stream 17 (begin x₀) ≡ fault
    unfolding treat_stream
    overruns_at =
        let (t, runs, len, at) = full_messages 15 (omega arith) in
        let (t', takes, kept) = message_fits (stream 15) t (omega (arith, short, len, at)) in
        let count : t'.size ≡ 7680 + length (stream 15) = ground (arith, kept.count, short, at) in
        ap (λ r. r >>= treat_message (samples (stream 15)) >>= treat_message (samples (stream 16)))
          runs
        ∙ ap (λ r. r >>= treat_message (samples (stream 16))) takes
        ∙ message_overruns (stream 16) t' (omega (arith, kept.same_length, len, count, more, last))

    overruns_after : (n : ℕ) → treat_stream stream (n + 17) (begin x₀) ≡ fault
    overruns_after zero = overruns_at
    overruns_after (suc n) =
        let e : suc n + 17 ≡ suc (n + 17) = omega arith in
        ap (λ m. treat_stream stream m (begin x₀)) e
        ∙ after_fault stream (n + 17) (begin x₀) (overruns_after n)

-- With 16384 bytes of memory: if fifteen messages of 512 bytes are followed by one of more than 256 and
-- fewer than 512, and that by one of 512, then the task writes past the end of its memory, in its
-- seventeenth round at the latest.
pub treat_stream_overruns :
    (stream : ℕ → List ℕ) (x₀ : List ℕ) (n : ℕ)
    → ((k : ℕ) → k < 15 → length (stream k) ≡ 512)
    → 256 < length (stream 15)
    → length (stream 15) < 512
    → length (stream 16) ≡ 512
    → length x₀ ≡ 16384
    → treat_stream stream (n + 17) (begin x₀) ≡ fault
treat_stream_overruns stream x₀ n full more short last room =
    overruns_after stream x₀ full room more short last n
