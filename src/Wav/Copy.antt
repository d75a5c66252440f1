-- ===== src/Wav/Copy.antt =====
-- `copy_wav_data` fills memory with the samples of the file, round by round, and always returns.
use ptr24_lab.Prelude.{
  drop-drop, ℕ, zero, suc, ◌+◌, ◌-◌, ◌^◌, ◌<◌, ◌≤◌, ◌≡◌, refl, List, [], ◌∷◌, ◌++◌, ◌&&◌, false,
  ltb, ◌==◌, length, take, drop, arith, ap, ◌∙◌, length-take, length-drop, ltb-false, Bool-cases,
  inl, inr,
}
use ptr24_lab.Wav.Files.{
  Files, IsRegular, Read-cases, got, success, failure, Run, returns, overwrite, sub_size,
}
use ptr24_lab.Wav.Interface.{Copied}
use ptr24_lab.Wav.Data.{copy_reply, copy_loop, copy_wav_data}

-- The first `k` elements of one list in front of the rest of another.
abbrev pub patch : List ℕ → List ℕ → ℕ → List ℕ
patch src old k = take k src ++ drop k old

overwrite-patch :
    (src old : List ℕ) (at : ℕ) (bs : List ℕ)
    → at ≤ length src
    → at ≤ length old
    → bs ≡ take (length bs) (drop at src)
    → overwrite (patch src old at) at bs ≡ patch src old (at + length bs)
overwrite-patch src old zero bs p q e =
    let n : 0 + length bs ≡ length bs = omega arith in
    rw n (ap (λ xs. xs ++ drop (length bs) old) e)
overwrite-patch [] old (suc at) bs p q e = absurd (omega arith)
overwrite-patch (x ∷ src) [] (suc at) bs p q e = absurd (omega arith)
overwrite-patch (x ∷ src) (y ∷ old) (suc at) bs p q e =
    let n : suc at + length bs ≡ suc (at + length bs) = omega arith in
    rw n (ap (λ xs. x ∷ xs) (overwrite-patch src old at bs (omega arith) (omega arith) e))

length-patch :
    (src old : List ℕ) (k : ℕ)
    → k ≤ length src
    → k ≤ length old
    → length (patch src old k) ≡ length old
length-patch src old zero p q = refl
length-patch [] old (suc k) p q = absurd (omega arith)
length-patch (x ∷ src) [] (suc k) p q = absurd (omega arith)
length-patch (x ∷ src) (y ∷ old) (suc k) p q =
    ap suc (length-patch src old k (omega arith) (omega arith))

module _ (fs : Files) (r : IsRegular fs) (src old : List ℕ) (size : ℕ) (small : size < 2 ^ 32)
    (room : size ≤ length old) where
  -- What a run of the loop ends in: the first `k` samples are in memory and the rest of it is as it
  -- was, and all samples are there if it reports success.
  pub record IsCopied (result : Run (Copied fs.File)) (content : List ℕ) : Type 0 where
    pub last : Copied fs.File
    pub returned : result ≡ returns last
    pub kept : r.content last.file ≡ content
    pub k : ℕ
    pub within : k ≤ size
    pub filled : last.memory ≡ patch src old k
    pub complete : last.code ≡ success → (k ≡ size) × (size ≤ length src)

  -- A round in which bytes arrived, if what follows it is right.
  copy_got :
      (n : ℕ) (f : fs.File) (at left : ℕ) (bs : List ℕ)
      → (fs.read f left).0 ≡ got bs
      → left < suc n
      → at + left ≡ size
      → at ≤ length src
      → r.offset f ≡ 44 + at
      → drop 44 (r.content f) ≡ src
      → (length bs ≤ left
          → at + length bs ≤ length src
          → 0 < length bs
          → IsCopied
              (copy_loop fs n
                (fs.read f left).1
                (patch src old (at + length bs))
                (at + length bs)
                (left - length bs))
              (r.content f))
      → IsCopied
          (copy_reply fs
            (got bs)
            (copy_loop fs n (fs.read f left).1)
            (fs.read f left).1
            (patch src old at)
            at
            left)
          (r.content f)
  unfolding copy_reply
  copy_got n f at left bs e fuel sum in_src off eq rest =
      let (short, taken, _) = r.read_got f left bs e in
      let here : drop (r.offset f) (r.content f) ≡ drop at src =
        rw (off, drop-drop 44 at (r.content f), eq) in
      let bytes : bs ≡ take (length bs) (drop at src) = rw here at taken in
      let in_src' : at + length bs ≤ length src =
        omega (arith, ap length bytes, length-take (length bs) (drop at src), length-drop at src) in
      let sub : sub_size left (length bs) ≡ left - length bs = omega arith in
      let patched = overwrite-patch src old at bs in_src (omega arith) bytes in
      let fits : ltb (length (patch src old at)) (at + length bs) ≡ false =
        ltb-false _ _ (omega (arith, length-patch src old at in_src (omega arith))) in
      rw (fits, sub, patched)
        (elim (Bool-cases (length bs == 0 && ltb 0 left)) [
          | inl stop ↦ rw stop (record {
            last = record { code = failure; memory = patch src old at; file = (fs.read f left).1 };
            returned = refl;
            kept = r.content-read f left;
            k = at;
            within = ground arith;
            filled = refl;
            complete = λ c. cc;
          })
          | inr go ↦ rw go (elim (Bool-cases (left - length bs == 0)) [
            | inl done ↦ rw done (record {
              last = record {
                code = success;
                memory = patch src old (at + length bs);
                file = (fs.read f left).1;
              };
              returned = refl;
              kept = r.content-read f left;
              k = at + length bs;
              within = ground arith;
              filled = refl;
              complete = λ c. ground arith;
            })
            | inr more ↦ rw more (rest short in_src' (ground arith))
          ])
        ])

  copy_loop-IsCopied :
      (n : ℕ) (f : fs.File) (at left : ℕ)
      → left < n
      → at + left ≡ size
      → at ≤ length src
      → r.offset f ≡ 44 + at
      → drop 44 (r.content f) ≡ src
      → IsCopied (copy_loop fs n f (patch src old at) at left) (r.content f)
  unfolding copy_loop
  copy_loop-IsCopied zero f at left fuel sum in_src off eq = absurd (omega arith)
  copy_loop-IsCopied (suc n) f at left fuel sum in_src off eq =
      elim (Read-cases (fs.read f left).0) [
        | inl e ↦ rw e (record {
          last = record { code = failure; memory = patch src old at; file = (fs.read f left).1 };
          returned = refl;
          kept = r.content-read f left;
          k = at;
          within = omega arith;
          filled = refl;
          complete = λ c. cc;
        })
        | inr (bs, e) ↦ rw e (
            copy_got n f at left bs e fuel sum in_src off eq (λ short in_src' pos.
              rw (r.content-read f left) at (
                copy_loop-IsCopied n (fs.read f left).1 (at + length bs) (left - length bs)
                  (omega arith) (omega arith) in_src' (omega (arith, (r.read_got f left bs e).2))
                  (rw (r.content-read f left) eq))))
      ]

-- On a regular file, with memory for the samples, fewer than 2 ^ 32 bytes of them and more fuel
-- than that, the loop of `copy_wav_data` returns, whatever reads fail or are short. The file keeps
-- its bytes; the memory holds some number of the bytes behind the header, in order, in front of
-- what it held; and if the result is 0 the file has all that were asked for and they are all in
-- memory.
pub copy_wav_data-IsCopied :
    (fs : Files) (r : IsRegular fs) (f : fs.File) (old : List ℕ) (size fuel : ℕ)
    → size < 2 ^ 32
    → size ≤ length old
    → size < fuel
    → (end : Copied fs.File) × (copy_wav_data fs fuel f size old ≡ returns end)
      × (r.content end.file ≡ r.content f)
      × ((k : ℕ) × (k ≤ size)
          × (end.memory ≡ patch (drop 44 (r.content f)) old k)
          × (end.code ≡ success → (k ≡ size) × (size ≤ length (drop 44 (r.content f)))))
unfolding copy_wav_data
copy_wav_data-IsCopied fs r f old size fuel small room enough =
    let src : List ℕ = drop 44 (r.content f) in
    let c =
      copy_loop-IsCopied fs r src old size small room fuel (fs.seek f 44) 0 size enough
        (omega arith) (omega arith) (rw (r.offset-seek f 44) refl)
        (rw (r.content-seek f 44) refl) in
    (c.last, c.returned, c.kept ∙ r.content-seek f 44, (c.k, c.within, c.filled, c.complete))
