-- ===== src/Wav/Header.antt =====
-- `struct wav_header` and the two functions that read and write it.
use ptr24_lab.Prelude.{
  ℕ, ◌+◌, ◌-◌, ◌*◌, ◌/◌, ◌%◌, ◌^◌, List, [], ◌∷◌, ◌++◌, length, drop, byte_at, ltb, ◌==◌, not,
  if◌then◌else◌,
}
use ptr24_lab.Wav.Files.{Files, Read, got, Write, wrote, Code, success, failure}

abbrev pub wav_file_blkid : ℕ
wav_file_blkid = 0x46464952

abbrev pub wav_file_fmt_id : ℕ
wav_file_fmt_id = 0x45564157

abbrev pub wav_fmt_blkid : ℕ
wav_fmt_blkid = 0x20746d66

abbrev pub wav_data_blkid : ℕ
wav_data_blkid = 0x61746164

pub record WavHeader : Type 0 where
  pub file_blkid : ℕ
  pub file_size : ℕ
  pub file_fmtid : ℕ
  pub fmt_blkid : ℕ
  pub blk_size : ℕ
  pub audio_fmt : ℕ
  pub num_chan : ℕ
  pub freq : ℕ
  pub bytes_per_sec : ℕ
  pub bytes_per_blk : ℕ
  pub bits_per_sample : ℕ
  pub data_blkid : ℕ
  pub data_size : ℕ

-- The `sizeof` of the struct, which has no padding.
abbrev pub header_size : ℕ
header_size = 44

-- A field in memory, its low byte first.
abbrev pub le16 : ℕ → List ℕ
le16 n = n % 256 ∷ n / 256 % 256 ∷ []

abbrev pub le32 : ℕ → List ℕ
le32 n = n % 256 ∷ n / 256 % 256 ∷ n / 65536 % 256 ∷ n / 16777216 % 256 ∷ []

abbrev pub u16_at : List ℕ → ℕ → ℕ
u16_at bs i = byte_at bs i + 256 * byte_at bs (i + 1)

abbrev pub u32_at : List ℕ → ℕ → ℕ
u32_at bs i =
    byte_at bs i
    + 256 * byte_at bs (i + 1)
    + 65536 * byte_at bs (i + 2)
    + 16777216 * byte_at bs (i + 3)

-- The bytes of the struct in memory, as the C ABI of the board lays them out: `write` gets these, and `read`
-- puts its bytes there. audio_utils.c counts on it where it takes `data_size` at 40 and the samples from 44.
unfoldable pub encode : WavHeader → List ℕ
encode h =
    le32 h.file_blkid
    ++ (le32 h.file_size
        ++ (le32 h.file_fmtid
            ++ (le32 h.fmt_blkid
                ++ (le32 h.blk_size
                    ++ (le16 h.audio_fmt
                        ++ (le16 h.num_chan
                            ++ (le32 h.freq
                                ++ (le32 h.bytes_per_sec
                                    ++ (le16 h.bytes_per_blk
                                        ++ (le16 h.bits_per_sample
                                            ++ (le32 h.data_blkid ++ le32 h.data_size)))))))))))

-- The struct whose bytes these are.
unfoldable pub decode : List ℕ → WavHeader
decode bs = record {
  file_blkid = u32_at bs 0;
  file_size = u32_at bs 4;
  file_fmtid = u32_at bs 8;
  fmt_blkid = u32_at bs 12;
  blk_size = u32_at bs 16;
  audio_fmt = u16_at bs 20;
  num_chan = u16_at bs 22;
  freq = u32_at bs 24;
  bytes_per_sec = u32_at bs 28;
  bytes_per_blk = u16_at bs 32;
  bits_per_sample = u16_at bs 34;
  data_blkid = u32_at bs 36;
  data_size = u32_at bs 40;
}

-- The checks on a header that was read.
unfoldable pub check_header : WavHeader → Code
check_header wh =
    if not (wh.file_blkid == wav_file_blkid)
    then failure
    else if not (wh.fmt_blkid == wav_fmt_blkid)
    then failure
    else if not (wh.data_blkid == wav_data_blkid)
    then failure
    else success

-- The header that is written; `file_size` is never set, so it is what was in memory.
unfoldable pub new_header : ℕ → WavHeader
new_header garbage = record {
  file_blkid = wav_file_blkid;
  file_size = garbage;
  file_fmtid = wav_file_fmt_id;
  fmt_blkid = wav_fmt_blkid;
  blk_size = 16;
  audio_fmt = 1;
  num_chan = 2;
  freq = 48000;
  bytes_per_sec = 192000;
  bytes_per_blk = 4;
  bits_per_sample = 16;
  data_blkid = wav_data_blkid;
  data_size = 0;
}

unfoldable pub after_write : Write → Code
after_write Write.failed = failure
after_write (wrote n) = if ltb n header_size then failure else success

-- What a read leaves in memory.
abbrev pub put_bytes : Read → List ℕ → List ℕ
put_bytes Read.failed mem = mem
put_bytes (got bs) mem = bs ++ drop (length bs) mem

-- The result of `read` as it is compared with `header_size`: it is converted to `size_t`, which has 32 bits
-- on the board, so that -1 becomes the greatest.
abbrev pub as_size : Read → ℕ
as_size Read.failed = 2 ^ 32 - 1
as_size (got bs) = length bs

module _ (fs : Files) where
  -- `wh` is the memory of the header before the call.
  unfoldable pub after_read : Read → fs.File → List ℕ → Code × List ℕ × fs.File
  after_read r f wh =
      let wh' = put_bytes r wh in
      if ltb (as_size r) header_size then (failure, wh', f) else (check_header (decode wh'), wh', f)

  unfoldable pub parse_wav_header : fs.File → List ℕ → Code × List ℕ × fs.File
  unfolding after_read
  parse_wav_header f wh = let (r, f') = fs.read (fs.seek f 0) header_size in after_read r f' wh

  unfoldable pub write_wav_header : fs.File → ℕ → Code × fs.File
  unfolding after_write
  write_wav_header f garbage =
      let (r, f') = fs.write (fs.seek f 0) (encode (new_header garbage)) in (after_write r, f')
