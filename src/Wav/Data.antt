-- ===== src/Wav/Data.antt =====
-- The loops of audio_utils.c that move samples between memory and a file. Each `do … while` takes
-- fuel; its first round is made whatever the count.
use ptr24_lab.Prelude.{
  ℕ, zero, suc, ◌+◌, ◌%◌, ◌^◌, List, ◌&&◌, ltb, ◌==◌, if◌then◌else◌, length, take, drop,
}
use ptr24_lab.Wav.Files.{
  Files, Read, got, Write, wrote, Code, success, failure, Run, returns, fault, spent, overwrite,
  sub_size,
}
use ptr24_lab.Wav.Interface.{Copied}
use ptr24_lab.Wav.Header.{le32, u32_at}

module _ (fs : Files) where
  -- The rest of a round after `read`; `again` is the loop with the new position and count.
  unfoldable pub copy_reply :
      Read
      → (List ℕ → ℕ → ℕ → Run (Copied fs.File))
      → fs.File
      → List ℕ
      → ℕ
      → ℕ
      → Run (Copied fs.File)
  copy_reply Read.failed again f mem at to_read =
      returns (record { code = failure; memory = mem; file = f })
  copy_reply (got bs) again f mem at to_read =
      if length bs == 0 && ltb 0 to_read
      then returns (record { code = failure; memory = mem; file = f })
      else if ltb (length mem) (at + length bs)
      then fault
      else if sub_size to_read (length bs) == 0
      then returns (record { code = success; memory = overwrite mem at bs; file = f })
      else again (overwrite mem at bs) (at + length bs) (sub_size to_read (length bs))

  unfoldable pub copy_loop : ℕ → fs.File → List ℕ → ℕ → ℕ → Run (Copied fs.File)
  unfolding copy_reply
  copy_loop zero f mem at to_read = spent
  copy_loop (suc n) f mem at to_read =
      let (r, f') = fs.read f to_read in copy_reply r (copy_loop n f') f' mem at to_read

  -- `mem` is what `audio_datas` points to.
  unfoldable pub copy_wav_data : ℕ → fs.File → ℕ → List ℕ → Run (Copied fs.File)
  unfolding copy_loop
  copy_wav_data fuel f data_size mem = copy_loop fuel (fs.seek f 44) mem 0 data_size

  -- The bytes that a `write` of `n` bytes from `mem + at` is given.
  abbrev pub slice : List ℕ → ℕ → ℕ → List ℕ
  slice mem at n = take n (drop at mem)

  unfoldable pub write_reply :
      Write → (ℕ → ℕ → Run (Code × fs.File)) → fs.File → ℕ → ℕ → Run (Code × fs.File)
  write_reply Write.failed again f at to_write = returns (failure, f)
  write_reply (wrote k) again f at to_write =
      if k == 0 && ltb 0 to_write
      then returns (failure, f)
      else if sub_size to_write k == 0
      then returns (success, f)
      else again (at + k) (sub_size to_write k)

  unfoldable pub write_loop : ℕ → fs.File → List ℕ → ℕ → ℕ → Run (Code × fs.File)
  unfolding write_reply
  write_loop zero f mem at to_write = spent
  write_loop (suc n) f mem at to_write =
      if ltb (length mem) (at + to_write)
      then fault
      else (let (r, f') = fs.write f (slice mem at to_write) in
          write_reply r (write_loop n f' mem) f' at to_write)

  unfoldable pub write_wav_data : ℕ → fs.File → ℕ → List ℕ → Run (Code × fs.File)
  unfolding write_loop
  write_wav_data fuel f data_size mem = write_loop fuel (fs.seek f 44) mem 0 data_size

  -- The loop of `append_wav_data` has no test for a write of nothing.
  unfoldable pub append_reply :
      Write → (ℕ → ℕ → Run (Code × fs.File)) → fs.File → ℕ → ℕ → Run (Code × fs.File)
  append_reply Write.failed again f at to_write = returns (failure, f)
  append_reply (wrote k) again f at to_write =
      if sub_size to_write k == 0
      then returns (success, f)
      else again (at + k) (sub_size to_write k)

  unfoldable pub append_loop : ℕ → fs.File → List ℕ → ℕ → ℕ → Run (Code × fs.File)
  unfolding append_reply
  append_loop zero f mem at to_write = spent
  append_loop (suc n) f mem at to_write =
      if ltb (length mem) (at + to_write)
      then fault
      else (let (r, f') = fs.write f (slice mem at to_write) in
          append_reply r (append_loop n f' mem) f' at to_write)

  unfoldable pub size_reply : Write → fs.File → Run (Code × fs.File)
  size_reply Write.failed f = returns (failure, f)
  size_reply (wrote k) f = returns (success, f)

  -- The update of the data size, after the samples.
  unfoldable pub append_finish : ℕ → ℕ → Run (Code × fs.File) → Run (Code × fs.File)
  unfolding size_reply
  append_finish datasize size (returns (failure, f)) = returns (failure, f)
  append_finish datasize size (returns (success, f)) =
      let (r, f') = fs.write (fs.seek f 40) (le32 ((datasize + size) % 2 ^ 32)) in size_reply r f'
  append_finish datasize size fault = fault
  append_finish datasize size spent = spent

  -- `garbage` is what is in the four bytes of `datasize` before it is read.
  unfoldable pub append_start : Read → List ℕ → ℕ → fs.File → List ℕ → ℕ → Run (Code × fs.File)
  append_start Read.failed garbage fuel f samples size = returns (failure, f)
  append_start (got bs) garbage fuel f samples size =
      let datasize = u32_at (overwrite garbage 0 bs) 0 in
      append_finish datasize size
        (append_loop fuel (fs.seek f ((44 + datasize) % 2 ^ 32)) samples 0 size)

  unfoldable pub append_wav_data : ℕ → fs.File → List ℕ → ℕ → List ℕ → Run (Code × fs.File)
  unfolding append_start
  append_wav_data fuel f samples size garbage =
      let (r, f') = fs.read (fs.seek f 40) 4 in append_start r garbage fuel f' samples size
