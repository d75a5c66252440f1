-- ===== src/Wav/HeaderLaws.antt =====
-- The header survives a trip through a file; what a header that is accepted guarantees, and what not.
use ptr24_lab.Prelude.{
  ℕ, ◌+◌, ◌*◌, ◌/◌, ◌%◌, ◌^◌, ◌<◌, ◌≡◌, refl, List, [], ◌++◌, length, drop, arith, ap, ◌∙◌, lt→ltb,
  take-length, take-length-append, drop_past,
}
use mathlib.Core.List.{append-nil}
use Prim.Native.Nat.{zero-le}
use ptr24_lab.Wav.Files.{Files, IsRegular, IsPrompt, Read, got, success, failure}
use ptr24_lab.Wav.Header.{
  WavHeader, encode, decode, check_header, header_size, parse_wav_header, write_wav_header,
  new_header,
}

-- Each field fits its type.
pub record FitsFields (h : WavHeader) : Type 0 where
  pub file_blkid : h.file_blkid < 2 ^ 32
  pub file_size : h.file_size < 2 ^ 32
  pub file_fmtid : h.file_fmtid < 2 ^ 32
  pub fmt_blkid : h.fmt_blkid < 2 ^ 32
  pub blk_size : h.blk_size < 2 ^ 32
  pub audio_fmt : h.audio_fmt < 2 ^ 16
  pub num_chan : h.num_chan < 2 ^ 16
  pub freq : h.freq < 2 ^ 32
  pub bytes_per_sec : h.bytes_per_sec < 2 ^ 32
  pub bytes_per_blk : h.bytes_per_blk < 2 ^ 16
  pub bits_per_sample : h.bits_per_sample < 2 ^ 16
  pub data_blkid : h.data_blkid < 2 ^ 32
  pub data_size : h.data_size < 2 ^ 32

word32 :
    (n : ℕ)
    → n < 2 ^ 32
    → n % 256 + 256 * (n / 256 % 256) + 65536 * (n / 65536 % 256) + 16777216 * (n / 16777216 % 256)
      ≡ n
word32 n h = omega arith

word16 : (n : ℕ) → n < 2 ^ 16 → n % 256 + 256 * (n / 256 % 256) ≡ n
word16 n h = omega arith

-- For a header whose fields fit their types, its bytes give back the header.
pub decode-encode : (h : WavHeader) → FitsFields h → decode (encode h) ≡ h
unfolding decode encode
decode-encode h f = λ i. record {
  file_blkid = word32 h.file_blkid f.file_blkid i;
  file_size = word32 h.file_size f.file_size i;
  file_fmtid = word32 h.file_fmtid f.file_fmtid i;
  fmt_blkid = word32 h.fmt_blkid f.fmt_blkid i;
  blk_size = word32 h.blk_size f.blk_size i;
  audio_fmt = word16 h.audio_fmt f.audio_fmt i;
  num_chan = word16 h.num_chan f.num_chan i;
  freq = word32 h.freq f.freq i;
  bytes_per_sec = word32 h.bytes_per_sec f.bytes_per_sec i;
  bytes_per_blk = word16 h.bytes_per_blk f.bytes_per_blk i;
  bits_per_sample = word16 h.bits_per_sample f.bits_per_sample i;
  data_blkid = word32 h.data_blkid f.data_blkid i;
  data_size = word32 h.data_size f.data_size i;
}

pub length-encode : (h : WavHeader) → length (encode h) ≡ 44
unfolding encode
length-encode h = refl

pub new_header-FitsFields : (g : ℕ) → g < 2 ^ 32 → FitsFields (new_header g)
unfolding new_header
new_header-FitsFields g h = omega arith

new_header-check : (g : ℕ) → check_header (new_header g) ≡ success
unfolding new_header check_header
new_header-check g = refl

module _ (fs : Files) (r : IsRegular fs) (p : IsPrompt fs r) (f : fs.File) (g : ℕ) where
  abbrev image : List ℕ
  image = encode (new_header g)

  abbrev started : fs.File
  started = fs.seek f 0

  -- A write of the whole header at the start.
  written : r.content (fs.write started image).1 ≡ image ++ drop header_size (r.content f)
  unfolding encode
  written =
      let (_, e, _) =
        r.write_wrote started image (length image) (p.write_all started image)
          (rw (r.offset-seek f 0) zero-le) in
      e ∙ simp (r.offset-seek, r.content-seek, take-length, length-encode)

  write_lem : write_wav_header fs f g ≡ (success, (fs.write started image).1)
  unfolding write_wav_header
  write_lem = simp (p.write_all, length-encode)

-- A header that lies at the start of a regular file is read into memory as it is.
pub read_back :
    (fs : Files) (r : IsRegular fs) (p : IsPrompt fs r) (f : fs.File) (h : WavHeader)
    (rest wh : List ℕ)
    → r.content f ≡ encode h ++ rest
    → length wh ≡ header_size
    → FitsFields h
    → ((parse_wav_header fs f wh).0 ≡ check_header h) × ((parse_wav_header fs f wh).1 ≡ encode h)
unfolding parse_wav_header
read_back fs r p f h rest wh e len fits =
    let bytes : (fs.read (fs.seek f 0) header_size).0 ≡ got (encode h) =
      p.read_all (fs.seek f 0) header_size
      ∙ ap got (
          simp (r.offset-seek, r.content-seek, e)
            (rw (← length-encode h) (take-length-append (encode h) rest))) in
    let all : drop header_size wh ≡ [] = drop_past header_size wh (omega arith) in
    simp (bytes, length-encode, all, append-nil, decode-encode h fits) (refl, refl)

-- On a regular file on which nothing fails, with 44 bytes of memory for the header that is read,
-- `write_wav_header` followed by `parse_wav_header` both return 0, whatever the file and that
-- memory held; the header that is read is the one that was written, with the 32-bit number that
-- happened to be in its `file_size`; and the bytes of the file behind the header are as they were.
pub parse-write_wav_header :
    (fs : Files) (r : IsRegular fs) (p : IsPrompt fs r) (f : fs.File) (g : ℕ) (wh : List ℕ)
    → g < 2 ^ 32
    → length wh ≡ header_size
    → ((write_wav_header fs f g).0 ≡ success)
      × (r.content (write_wav_header fs f g).1
          ≡ encode (new_header g) ++ drop header_size (r.content f))
      × ((parse_wav_header fs (write_wav_header fs f g).1 wh).0 ≡ success)
      × (decode (parse_wav_header fs (write_wav_header fs f g).1 wh).1 ≡ new_header g)
parse-write_wav_header fs r p f g wh small len =
    let fits = new_header-FitsFields g small in
    let back =
      read_back fs r p (fs.write (fs.seek f 0) (encode (new_header g))).1 (new_header g)
        (drop header_size (r.content f)) wh (written fs r p f g) len fits in
    rw (write_lem fs r p f g) (
      refl,
      written fs r p f g,
      back.0 ∙ new_header-check g,
      ap decode back.1 ∙ decode-encode (new_header g) fits,
    )

-- If the header of one file was read whole and passes the checks, then with the same memory
-- `parse_wav_header` returns -1 on a file whose read gives fewer than 44 bytes; but on a file whose read
-- fails, it returns 0 and hands out the header of the first file.
pub parse_wav_header_stale :
    (fs : Files) (whole cut broken : fs.File) (h : WavHeader) (bs wh : List ℕ)
    → (fs.read (fs.seek whole 0) header_size).0 ≡ got (encode h)
    → (fs.read (fs.seek cut 0) header_size).0 ≡ got bs
    → (fs.read (fs.seek broken 0) header_size).0 ≡ Read.failed
    → FitsFields h
    → check_header h ≡ success
    → length bs < header_size
    → length wh ≡ header_size
    → ((parse_wav_header fs whole wh).0 ≡ success)
      × ((parse_wav_header fs cut (parse_wav_header fs whole wh).1).0 ≡ failure)
      × ((parse_wav_header fs broken (parse_wav_header fs whole wh).1).0 ≡ success)
      × (decode (parse_wav_header fs broken (parse_wav_header fs whole wh).1).1 ≡ h)
unfolding parse_wav_header
parse_wav_header_stale fs whole cut broken h bs wh reads stops fails fits ids less len =
    let all : drop header_size wh ≡ [] = drop_past header_size wh (omega (arith, len)) in
    let first : ((parse_wav_header fs whole wh).0 ≡ success)
        × ((parse_wav_header fs whole wh).1 ≡ encode h) =
      simp (reads, length-encode, all, append-nil, decode-encode h fits, ids) (refl, refl) in
    (
      first.0,
      simp (stops, lt→ltb (length bs) header_size less) refl,
      rw first.1 (simp (fails, decode-encode h fits, ids) refl),
      rw first.1 (simp (fails, decode-encode h fits) refl),
    )
