-- ===== src/Wav/Files.antt =====
-- Open files as the code uses them: `lseek` from the start, `read` and `write`, which may fail or
-- move fewer bytes than asked.
use ptr24_lab.Prelude.{
  ℕ, ◌+◌, ◌-◌, ◌%◌, ◌^◌, ◌≤◌, ◌≡◌, ◌⊎◌, inl, inr, refl, List, ◌++◌, length, take, drop,
}

-- What `read` gives: -1, or the bytes that it put into memory.
pub data Read : Type 0 where
  failed : Read
  got : List ℕ → Read

pub Read-cases : (x : Read) → (x ≡ failed) ⊎ ((bs : List ℕ) × (x ≡ got bs))
Read-cases failed = inl refl
Read-cases (got bs) = inr (bs, refl)

-- What `write` gives: -1, or the number of bytes that it took.
pub data Write : Type 0 where
  failed : Write
  wrote : ℕ → Write

pub Write-cases : (x : Write) → (x ≡ failed) ⊎ ((k : ℕ) × (x ≡ wrote k))
Write-cases failed = inl refl
Write-cases (wrote k) = inr (k, refl)

pub record Files : Type 1 where
  pub File : Type 0
  pub seek : File → ℕ → File
  pub read : File → ℕ → Read × File
  pub write : File → List ℕ → Write × File

-- The bytes of a file after a write at an offset that is not past its end.
abbrev pub overwrite : List ℕ → ℕ → List ℕ → List ℕ
overwrite old at bs = take at old ++ bs ++ drop (at + length bs) old

-- A regular file is a sequence of bytes with an offset. A read that succeeds gives bytes from the
-- offset on and no more than asked, a write takes bytes from the front of its buffer, and both move
-- the offset past them.
pub record IsRegular (fs : Files) : Type 0 where
  pub content : fs.File → List ℕ
  pub offset : fs.File → ℕ
  pub content-seek : (f : fs.File) (n : ℕ) → content (fs.seek f n) ≡ content f
  pub offset-seek : (f : fs.File) (n : ℕ) → offset (fs.seek f n) ≡ n
  pub content-read : (f : fs.File) (n : ℕ) → content (fs.read f n).1 ≡ content f
  pub read_got :
      (f : fs.File) (n : ℕ) (bs : List ℕ)
      → (fs.read f n).0 ≡ got bs
      → (length bs ≤ n)
        × (bs ≡ take (length bs) (drop (offset f) (content f)))
        × (offset (fs.read f n).1 ≡ offset f + length bs)
  pub write_wrote :
      (f : fs.File) (bs : List ℕ) (k : ℕ)
      → (fs.write f bs).0 ≡ wrote k
      → offset f ≤ length (content f)
      → (k ≤ length bs)
        × (content (fs.write f bs).1 ≡ overwrite (content f) (offset f) (take k bs))
        × (offset (fs.write f bs).1 ≡ offset f + k)

-- Nothing fails or is cut short but at the end of the file.
pub record IsPrompt (fs : Files) (r : IsRegular fs) : Type 0 where
  pub read_all :
      (f : fs.File) (n : ℕ) → (fs.read f n).0 ≡ got (take n (drop (r.offset f) (r.content f)))
  pub write_all : (f : fs.File) (bs : List ℕ) → (fs.write f bs).0 ≡ wrote (length bs)

-- The result of a function that returns 0 or -1.
pub data Code : Type 0 where
  success failure : Code

-- A loop returns, does what C leaves undefined, or has spent its fuel.
pub data Run {ℓ} (A : Type ℓ) : Type ℓ where
  returns : A → Run A
  fault : Run A
  spent : Run A

-- `a - b` in `size_t`, which has 32 bits on the board.
abbrev pub sub_size : ℕ → ℕ → ℕ
sub_size a b = (a + 2 ^ 32 - b) % 2 ^ 32
