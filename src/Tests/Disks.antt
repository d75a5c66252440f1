-- ===== src/Tests/Disks.antt =====
-- Files held in memory, on which nothing fails; files that take no byte; and files that cannot be read.
use ptr24_lab.Prelude.{
  ℕ, zero, suc, ◌+◌, ◌≤◌, ◌≡◌, refl, List, [], ◌∷◌, arith, length, take, drop, ap, sym, take-length,
  length-take,
}
use ptr24_lab.Wav.Files.{Files, IsRegular, IsPrompt, Read, got, Write, wrote, overwrite}

pub record DiskFile : Type 0 where
  pub bytes : List ℕ
  pub position : ℕ

abbrev ahead : DiskFile → ℕ → List ℕ
ahead f n = take n (drop f.position f.bytes)

abbrev read_disk : DiskFile → ℕ → Read × DiskFile
read_disk f n = (got (ahead f n), record f { position = f.position + length (ahead f n) })

abbrev write_disk : DiskFile → List ℕ → Write × DiskFile
write_disk f bs = (
  wrote (length bs),
  record { bytes = overwrite f.bytes f.position bs; position = f.position + length bs },
)

abbrev pub disk : Files
disk = record {
  File = DiskFile;
  seek = λ f n. record f { position = n };
  read = read_disk;
  write = write_disk;
}

pub got-injective : {bs cs : List ℕ} → got bs ≡ got cs → bs ≡ cs
got-injective h = cc

pub wrote-injective : {j k : ℕ} → wrote j ≡ wrote k → j ≡ k
wrote-injective h = cc

pub length-take_le : (n : ℕ) (xs : List ℕ) → length (take n xs) ≤ n
length-take_le n xs = omega (arith, length-take n xs)

pub take-length-take : (n : ℕ) (xs : List ℕ) → take (length (take n xs)) xs ≡ take n xs
take-length-take zero xs = refl
take-length-take (suc n) [] = refl
take-length-take (suc n) (x ∷ xs) = ap (λ zs. x ∷ zs) (take-length-take n xs)

unfoldable pub disk-IsRegular : IsRegular disk
disk-IsRegular = record {
  content = λ f. f.bytes;
  offset = λ f. f.position;
  content-seek = λ f n. refl;
  offset-seek = λ f n. refl;
  content-read = λ f n. refl;
  read_got = λ f n bs e.
      let same : ahead f n ≡ bs = got-injective e in
      rw (← same) (length-take_le n _, sym (take-length-take n _), refl);
  write_wrote = λ f bs k e inside.
      let all : length bs ≡ k = wrote-injective e in
      rw (← all, take-length bs) (omega arith, refl, refl);
}

pub disk-IsPrompt : IsPrompt disk disk-IsRegular
unfolding disk-IsRegular
disk-IsPrompt = record { read_all = λ f n. refl; write_all = λ f bs. refl }

-- The data size is read as zero, and no byte is taken.
abbrev pub full_disk : Files
full_disk = record {
  File = Unit;
  seek = λ f n. f;
  read = λ f n. (got (take n (0 ∷ 0 ∷ 0 ∷ 0 ∷ [])), f);
  write = λ f bs. (wrote 0, f);
}

-- Each file is what its reads give.
abbrev pub answering_disk : Files
answering_disk = record {
  File = Read;
  seek = λ f n. f;
  read = λ f n. (f, f);
  write = λ f bs. (Write.failed, f);
}
