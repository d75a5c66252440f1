-- ===== src/Wav/Recorder.antt =====
-- A recording behind the calls of audio_utils.h: a file that holds a sequence of samples. The calls of
-- audio_utils.c make one, add to it and read it back.
use ptr24_lab.Prelude.{
  ℕ, suc, ◌+◌, ◌^◌, ◌<◌, ◌≤◌, ◌≡◌, refl, ap, ◌∙◌, List, [], ◌++◌, false, true, ltb, ltb-false, ◌==◌,
  ◌&&◌, arith, length, take, drop, length-append, length-take, take-length, drop_past, replicate,
}
use mathlib.Core.List.{append-nil}
use ptr24_lab.Wav.Files.{Files, IsRegular, IsPrompt, got, success, returns, sub_size, overwrite}
use ptr24_lab.Wav.Interface.{AudioUtils, Copied}
use ptr24_lab.Wav.Header.{
  WavHeader, encode, decode, new_header, check_header, header_size, le32, u32_at,
}
use ptr24_lab.Wav.HeaderLaws.{
  FitsFields, length-encode, read_back, parse-write_wav_header, decode-encode,
}
use ptr24_lab.Wav.Data.{copy_wav_data, copy_loop, copy_reply, append_wav_data}
use ptr24_lab.Wav.Append.{append_wav_data_prompt}
use ptr24_lab.Wav.Device.{audio_utils}

-- The header of a recording of `n` bytes, with what happens to be in its `file_size`.
abbrev pub header_of : ℕ → ℕ → WavHeader
header_of g n = record (new_header g) { data_size = n }

-- `Blank` says of which files a recording can be made, and `Recording` which bytes of samples a file
-- holds.
pub record IsRecorder (a : AudioUtils) (Blank : a.File → Type 0)
    (Recording : a.File → List ℕ → Type 0) : Type 0 where
  pub created :
      (f : a.File) (g : ℕ)
      → Blank f
      → g < 2 ^ 32
      → ((a.write_wav_header f g).0 ≡ success) × Recording (a.write_wav_header f g).1 []
  pub appended :
      (f : a.File) (xs samples : List ℕ) (size : ℕ) (garbage : List ℕ)
      → Recording f xs
      → 44 + length xs + size < 2 ^ 32
      → size ≤ length samples
      → length garbage ≡ 4
      → (t : a.File) × (a.append_wav_data f samples size garbage ≡ returns (success, t))
        × Recording t (xs ++ take size samples)
  pub parsed :
      (f : a.File) (xs wh : List ℕ)
      → Recording f xs
      → length xs < 2 ^ 32
      → length wh ≡ header_size
      → ((a.parse_wav_header f wh).0 ≡ success)
        × ((decode (a.parse_wav_header f wh).1).data_size ≡ length xs)
  pub copied :
      (f : a.File) (xs old : List ℕ)
      → Recording f xs
      → length xs < 2 ^ 32
      → length xs ≤ length old
      → (end : Copied a.File) × (a.copy_wav_data f (length xs) old ≡ returns end)
        × (end.code ≡ success)
        × (end.memory ≡ xs ++ drop (length xs) old)
        × Recording end.file xs

module _ (fs : Files) (r : IsRegular fs) where
  -- A file with nothing behind the place of the header.
  abbrev pub Blank : fs.File → Type 0
  Blank f = length (r.content f) ≤ header_size

  -- A header with the right data size, and the samples behind it.
  abbrev pub Recording : fs.File → List ℕ → Type 0
  Recording f xs = (g : ℕ) × (g < 2 ^ 32) × (r.content f ≡ encode (header_of g (length xs)) ++ xs)

drop-encode : (h : WavHeader) (xs : List ℕ) → drop 44 (encode h ++ xs) ≡ xs
unfolding encode
drop-encode h xs = refl

-- The data size of a header stands at byte 40.
size-encode : (g n : ℕ) (xs : List ℕ) → n < 2 ^ 32 → u32_at (encode (header_of g n) ++ xs) 40 ≡ n
unfolding encode
size-encode g n xs h = omega arith

header_of-FitsFields : (g n : ℕ) → g < 2 ^ 32 → n < 2 ^ 32 → FitsFields (header_of g n)
unfolding new_header
header_of-FitsFields g n h h' = omega arith

header_of-check : (g n : ℕ) → check_header (header_of g n) ≡ success
unfolding new_header check_header
header_of-check g n = refl

header_of-zero : (g : ℕ) → new_header g ≡ header_of g 0
unfolding new_header
header_of-zero g = refl

overwrite-end : (xs bs : List ℕ) → overwrite xs (length xs) bs ≡ xs ++ bs
overwrite-end xs bs =
    let none : drop (length xs + length bs) xs ≡ [] = drop_past _ xs (omega arith) in
    simp (take-length, none, append-nil)

-- A block behind the data, and then the new data size.
appended_bytes :
    (g n m : ℕ) (xs bs : List ℕ)
    → length xs ≡ n
    → overwrite (overwrite (encode (header_of g n) ++ xs) (44 + n) bs) 40 (le32 m)
      ≡ encode (header_of g m) ++ (xs ++ bs)
unfolding encode new_header
appended_bytes g n m xs bs e =
    let c = encode (header_of g n) ++ xs in
    let len : 44 + n ≡ length c = omega (arith, e, length-append (encode (header_of g n)) xs) in
    rw len (ap (λ ys. overwrite ys 40 (le32 m)) (overwrite-end c bs) ∙ refl)

module _ (fs : Files) (r : IsRegular fs) (p : IsPrompt fs r) where
  copy_prompt :
      (f : fs.File) (xs old : List ℕ)
      → Recording fs r f xs
      → length xs < 2 ^ 32
      → length xs ≤ length old
      → (end : Copied fs.File) × (copy_wav_data fs (suc (length xs)) f (length xs) old
          ≡ returns end)
        × (end.code ≡ success)
        × (end.memory ≡ xs ++ drop (length xs) old)
        × Recording fs r end.file xs
  unfolding copy_wav_data copy_loop copy_reply
  copy_prompt f xs old (g, small, e) fits room =
      let f' = fs.seek f 44 in
      let ahead : drop 44 (r.content f) ≡ xs =
        ap (drop 44) e ∙ drop-encode (header_of g (length xs)) xs in
      let bytes : (fs.read f' (length xs)).0 ≡ got xs =
        p.read_all f' (length xs)
        ∙ ap got (simp (r.offset-seek, r.content-seek, ahead) (take-length xs)) in
      let some_read : (length xs == 0 && ltb 0 (length xs)) ≡ false = ground arith in
      let inside : ltb (length old) (0 + length xs) ≡ false = ltb-false _ _ (omega arith) in
      let all : (sub_size (length xs) (length xs) == 0) ≡ true = ground arith in
      let start : 0 + length xs ≡ length xs = omega arith in
      (
        record { code = success; memory = overwrite old 0 xs; file = (fs.read f' (length xs)).1 },
        simp (bytes, some_read, inside, all) refl,
        refl,
        ap (λ (n : ℕ). xs ++ drop n old) start,
        (g, small, r.content-read f' (length xs) ∙ r.content-seek f 44 ∙ e),
      )

  length-image : (h : WavHeader) (xs : List ℕ) → length (encode h ++ xs) ≡ 44 + length xs
  length-image h xs = omega (arith, length-append (encode h) xs, length-encode h)

  append_prompt :
      (f : fs.File) (xs samples : List ℕ) (size : ℕ) (garbage : List ℕ)
      → Recording fs r f xs
      → 44 + length xs + size < 2 ^ 32
      → size ≤ length samples
      → length garbage ≡ 4
      → (t : fs.File) × (append_wav_data fs (suc size) f samples size garbage
          ≡ returns (success, t))
        × Recording fs r t (xs ++ take size samples)
  append_prompt f xs samples size garbage (g, small, e) fits room four =
      let taken = take size samples in
      let len : length (r.content f) ≡ 44 + length xs =
        ap length e ∙ length-image (header_of g (length xs)) xs in
      let sum : length xs + size ≡ length (xs ++ taken) =
        omega (arith, length-append xs taken, length-take size samples) in
      let (t, runs, content) =
        append_wav_data_prompt fs r p f samples garbage size size (length xs)
          (ap (λ c. u32_at c 40) e ∙ size-encode g (length xs) xs (omega arith))
          (omega (arith, len)) fits room four in
      (
        t,
        runs,
        (
          g,
          small,
          content
              ∙ ap
                  (λ c. overwrite (overwrite c (44 + length xs) taken) 40 (le32 (length xs + size)))
                  e
              ∙ appended_bytes g (length xs) (length xs + size) xs taken refl
              ∙ ap (λ n. encode (header_of g n) ++ (xs ++ taken)) sum,
        ),
      )

-- On regular files on which nothing fails, the calls of audio_utils.c are a recorder: from a file with
-- nothing behind its header they make an empty recording; an append adds its samples at the end and
-- leaves the others; the header that is read back tells the number of bytes; and a copy gives them all,
-- in order. The memory for it has to have the room, and all sizes to stay below 2 ^ 32.
pub audio_utils-IsRecorder :
    (fs : Files) (r : IsRegular fs)
    → IsPrompt fs r
    → IsRecorder (audio_utils fs) (Blank fs r) (Recording fs r)
audio_utils-IsRecorder fs r p = record {
  created = λ f g blank small.
      let wh : List ℕ = replicate 44 0 in
      let (wrote', content, _, _) = parse-write_wav_header fs r p f g wh small refl in
      let none : drop header_size (r.content f) ≡ [] = drop_past _ _ blank in
      (
        wrote',
        (
          g,
          small,
          content
              ∙ ap (λ ys. encode (new_header g) ++ ys) none
              ∙ ap (λ h. encode h ++ []) (header_of-zero g),
        ),
      );
  appended = append_prompt fs r p;
  parsed = λ f xs wh rec fits four.
      let (g, small, e) = rec in
      let h = header_of g (length xs) in
      let whole = header_of-FitsFields g (length xs) small fits in
      let (code, bytes) = read_back fs r p f h xs wh e four whole in
      (
        code ∙ header_of-check g (length xs),
        ap (λ bs. (decode bs).data_size) bytes
            ∙ ap (λ (h : WavHeader). h.data_size) (decode-encode h whole),
      );
  copied = copy_prompt fs r p;
}
