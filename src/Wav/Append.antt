-- ===== src/Wav/Append.antt =====
-- `append_wav_data`: what it does when nothing fails, and where its loop does not end.
use native.Mathlib.Nat.{add-zero}
use mathlib.Core.List.{append-nil}
use ptr24_lab.Prelude.{
  ℕ, zero, suc, ◌+◌, ◌%◌, ◌^◌, ◌<◌, ◌≤◌, ◌≡◌, refl, List, [], ◌∷◌, ◌++◌, true, false, ltb, ◌==◌,
  length, take, drop, arith, ap, ◌∙◌, length-take, length-drop, ltb-false, lt→ltb, take-length,
  length-append, get_or-drop, drop_past,
}
use ptr24_lab.Wav.Files.{
  Files, IsRegular, IsPrompt, got, wrote, success, failure, returns, spent, overwrite, sub_size,
}
use ptr24_lab.Wav.Header.{le32, u32_at}
use ptr24_lab.Wav.Data.{slice, append_loop, append_finish, append_wav_data, write_wav_data}

module _ (fs : Files) (stuck : (f : fs.File) (bs : List ℕ) → (fs.write f bs).0 ≡ wrote 0) where
  append_loop_stalls :
      (n : ℕ) (f : fs.File) (mem : List ℕ) (at left : ℕ)
      → 0 < left
      → left < 2 ^ 32
      → at + left ≤ length mem
      → append_loop fs n f mem at left ≡ spent
  unfolding append_loop
  append_loop_stalls zero f mem at left pos small fits = refl
  append_loop_stalls (suc n) f mem at left pos small fits =
      let inside : ltb (length mem) (at + left) ≡ false = ltb-false _ _ fits in
      let same : sub_size left 0 ≡ left = omega arith in
      let more : (left == 0) ≡ false = ground arith in
      let here : at + 0 ≡ at = omega arith in
      simp (inside, stuck, same, more, here)
        (append_loop_stalls n (fs.write f (slice fs mem at left)).1 mem at left pos small fits)

-- If the device takes no byte and reports no error, as on a full medium it may, and the data size
-- could be read, then with some samples to write the loop of `append_wav_data` never ends,
-- whatever fuel it is given; the loop of `write_wav_data`, which tests for this, returns -1.
pub append_wav_data_stalls :
    (fs : Files) (f : fs.File) (samples garbage bs : List ℕ) (size fuel : ℕ)
    → ((g : fs.File) (out : List ℕ) → (fs.write g out).0 ≡ wrote 0)
    → (fs.read (fs.seek f 40) 4).0 ≡ got bs
    → 0 < size
    → size < 2 ^ 32
    → size ≤ length samples
    → (append_wav_data fs fuel f samples size garbage ≡ spent)
      × ((g : fs.File) × (write_wav_data fs (suc fuel) f size samples ≡ returns (failure, g)))
unfolding append_wav_data write_wav_data append_finish
append_wav_data_stalls fs f samples garbage bs size fuel stuck e pos small fits =
    let inside : ltb (length samples) (0 + size) ≡ false = ltb-false _ _ (omega arith) in
    let some_left : ltb 0 size ≡ true = lt→ltb 0 size pos in
    (
      simp (
        e,
        append_loop_stalls fs stuck fuel
            (fs.seek (fs.read (fs.seek f 40) 4).1
              ((44 + u32_at (overwrite garbage 0 bs) 0) % 2 ^ 32))
            samples 0 size pos small (omega arith),
      ),
      ((fs.write (fs.seek f 44) (slice fs samples 0 size)).1, simp (inside, stuck, some_left)),
    )

u32_at-take : (xs : List ℕ) → 4 ≤ length xs → u32_at (take 4 xs) 0 ≡ u32_at xs 0
u32_at-take [] h = absurd (omega arith)
u32_at-take (a ∷ []) h = absurd (omega arith)
u32_at-take (a ∷ b ∷ []) h = absurd (omega arith)
u32_at-take (a ∷ b ∷ c ∷ []) h = absurd (omega arith)
u32_at-take (a ∷ b ∷ c ∷ d ∷ xs) h = refl

u32_at-drop : (n : ℕ) (xs : List ℕ) → u32_at (drop n xs) 0 ≡ u32_at xs n
u32_at-drop n xs =
    rw
      (
        get_or-drop n xs 0 0,
        get_or-drop n xs 1 0,
        get_or-drop n xs 2 0,
        get_or-drop n xs 3 0,
        add-zero n,
      )
      refl

-- The four bytes that a read of the data size puts over what was in memory.
datasize_lem :
    (c garbage : List ℕ)
    → 44 ≤ length c
    → length garbage ≡ 4
    → u32_at (overwrite garbage 0 (take 4 (drop 40 c))) 0 ≡ u32_at c 40
datasize_lem c garbage h g =
    let l : length (take 4 (drop 40 c)) ≡ 4 =
      omega (arith, length-take 4 (drop 40 c), length-drop 40 c) in
    let none : drop 4 garbage ≡ [] = drop_past 4 garbage (omega arith) in
    simp (l, none, append-nil)
      (u32_at-take (drop 40 c) (omega (arith, length-drop 40 c)) ∙ u32_at-drop 40 c)

module _ (fs : Files) (r : IsRegular fs) (p : IsPrompt fs r) where
  -- A write of a whole buffer at an offset in the file.
  write_at :
      (f : fs.File) (n : ℕ) (bs : List ℕ)
      → n ≤ length (r.content f)
      → r.content (fs.write (fs.seek f n) bs).1 ≡ overwrite (r.content f) n bs
  write_at f n bs h =
      let (_, e, _) =
        r.write_wrote (fs.seek f n) bs (length bs) (p.write_all (fs.seek f n) bs)
          (rw (r.offset-seek f n, r.content-seek f n) h) in
      e ∙ simp (r.offset-seek, r.content-seek, take-length)

  append_loop_once :
      (n : ℕ) (f : fs.File) (mem : List ℕ) (size : ℕ)
      → size ≤ length mem
      → size < 2 ^ 32
      → append_loop fs (suc n) f mem 0 size ≡ returns (success, (fs.write f (take size mem)).1)
  unfolding append_loop
  append_loop_once n f mem size h small =
      let inside : ltb (length mem) (0 + size) ≡ false = ltb-false _ _ (omega arith) in
      let l : length (take size mem) ≡ size = omega (arith, length-take size mem) in
      let all : sub_size size size ≡ 0 = omega arith in simp (inside, p.write_all, l, all)

length-overwrite :
    (old : List ℕ) (at : ℕ) (bs : List ℕ) → length (take at old) ≤ length (overwrite old at bs)
length-overwrite old at bs = omega (
  arith,
  length-append {0} (take at old ++ bs) (drop (at + length bs) old),
  length-append {0} (take at old) bs,
)

-- On a regular file on which nothing fails, with a data size `ds` that its bytes bear out, enough
-- samples in memory and a size in all below 2 ^ 32, `append_wav_data` returns 0 after one round;
-- the samples then lie behind the `ds` bytes of data that were there, the data size is `ds` and
-- their number together, and nothing else has changed.
pub append_wav_data_prompt :
    (fs : Files) (r : IsRegular fs) (p : IsPrompt fs r) (f : fs.File) (samples garbage : List ℕ)
    (size fuel ds : ℕ)
    → u32_at (r.content f) 40 ≡ ds
    → 44 + ds ≤ length (r.content f)
    → 44 + ds + size < 2 ^ 32
    → size ≤ length samples
    → length garbage ≡ 4
    → (g : fs.File) × (append_wav_data fs (suc fuel) f samples size garbage ≡ returns (success, g))
      × (r.content g
          ≡ overwrite (overwrite (r.content f) (44 + ds) (take size samples)) 40 (le32 (ds + size)))
unfolding append_wav_data append_finish
append_wav_data_prompt fs r p f samples garbage size fuel ds e in_file small fits four =
    let bs = take 4 (drop 40 (r.content f)) in
    let f₁ = (fs.read (fs.seek f 40) 4).1 in
    let taken = take size samples in
    let f₂ = (fs.write (fs.seek f₁ (44 + ds)) taken).1 in
    let c₁ : r.content f₁ ≡ r.content f = r.content-read (fs.seek f 40) 4 ∙ r.content-seek f 40 in
    let reads : (fs.read (fs.seek f 40) 4).0 ≡ got bs =
      p.read_all (fs.seek f 40) 4 ∙ simp (r.offset-seek, r.content-seek) in
    let size_read : u32_at (overwrite garbage 0 bs) 0 ≡ ds =
      datasize_lem (r.content f) garbage (omega arith) four ∙ e in
    let at : (44 + ds) % 2 ^ 32 ≡ 44 + ds = omega arith in
    let new : (ds + size) % 2 ^ 32 ≡ ds + size = omega arith in
    let c₂ : r.content f₂ ≡ overwrite (r.content f) (44 + ds) taken =
      write_at fs r p f₁ (44 + ds) taken (rw c₁ in_file)
      ∙ ap (λ c. overwrite c (44 + ds) taken) c₁ in
    let enough : 40 ≤ length (r.content f₂) = rw c₂ (
      omega (
        arith,
        length-overwrite (r.content f) (44 + ds) taken,
        length-take (44 + ds) (r.content f),
      )) in
    (
      (fs.write (fs.seek f₂ 40) (le32 (ds + size))).1,
      simp (
        reads,
        size_read,
        at,
        append_loop_once fs r p fuel (fs.seek f₁ (44 + ds)) samples size fits (omega arith),
        new,
        p.write_all,
      ),
      write_at fs r p f₂ 40 (le32 (ds + size)) enough
          ∙ ap (λ c. overwrite c 40 (le32 (ds + size))) c₂,
    )
