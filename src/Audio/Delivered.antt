-- ===== src/Audio/Delivered.antt =====
-- What reaches the treatment task, where the sound device is a file of bytes.
use ptr24_lab.Prelude.{
  ℕ, zero, suc, ◌+◌, ◌*◌, ◌<◌, ◌≤◌, ◌≡◌, refl, sym, ap, ◌∙◌, Bool, true, false, List, [], ◌∷◌, ◌++◌,
  some, length, take, drop, length-take, length-drop, drop-drop, take_add, arith, ◌==◌,
}
use mathlib.Core.List.{append-nil, append_assoc}
use ptr24_lab.Wav.Files.{Files, IsRegular, IsPrompt, got}
use ptr24_lab.Wav.Device.{SoundDevice, audio_utils, read_samples}
use ptr24_lab.Audio.Acquisition.{
  Message, samples, unsized, Mailbox, round_with, acquisition_round, receive, take_first,
}
use ptr24_lab.Audio.Deliver.{
  Line, terminated, acquire_once, take_message, take_some, acquisition_loop, acquisition_task,
}

-- The bytes of messages, in order.
abbrev pub bytes_of : List Message → List ℕ
bytes_of [] = []
bytes_of (samples bs ∷ q) = bs ++ bytes_of q
bytes_of (unsized ∷ q) = bytes_of q

pub bytes_of-append : (q q' : List Message) → bytes_of (q ++ q') ≡ bytes_of q ++ bytes_of q'
bytes_of-append [] q' = refl
bytes_of-append (samples bs ∷ q) q' =
    ap (λ ys. bs ++ ys) (bytes_of-append q q') ∙ sym (append_assoc bs (bytes_of q) (bytes_of q'))
bytes_of-append (unsized ∷ q) q' = bytes_of-append q q'

-- At each round the treatment task takes at least one message.
abbrev pub Serves : List ℕ → Type 0
Serves [] = Unit
Serves (n ∷ ns) = (0 < n) × Serves ns

round_full :
    (accepts : Bool) (p : ℕ) (bs : List ℕ) (m : Mailbox)
    → 0 < length bs
    → round_with accepts (suc p) (got bs) m
      ≡ record { free = p; queue = m.queue ++ samples bs ∷ [] }
unfolding round_with
round_full accepts p [] m h = absurd (omega (arith, h))
round_full accepts p (b ∷ bs) m h = refl

-- The first 512 bytes from an offset, and then those from 512 further.
add_block :
    (m at : ℕ) (xs : List ℕ) (at' : ℕ) (xs' : List ℕ)
    → at' ≡ at + 512
    → xs' ≡ xs
    → (all : ℕ) → all ≡ 512 + m
    → take 512 (drop at xs) ++ take m (drop at' xs') ≡ take all (drop at xs)
add_block m at xs at' xs' e e' all whole =
    rw (e, e', whole, drop-drop at 512 xs) (sym (take_add 512 m (drop at xs)))

block_first :
    (rec : List Message) (bs ys all : List ℕ)
    → bs ++ ys ≡ all
    → bytes_of (rec ++ samples bs ∷ []) ++ ys ≡ bytes_of rec ++ all
block_first rec bs ys all e =
    ap (λ zs. zs ++ ys)
      (bytes_of-append rec (samples bs ∷ []) ∙ ap (λ zs. bytes_of rec ++ zs) (append-nil bs))
    ∙ append_assoc (bytes_of rec) bs ys
    ∙ ap (λ zs. bytes_of rec ++ zs) e

module _ (fs : Files) where
  take_none :
      (n : ℕ) (l : Line (audio_utils fs))
      → (l.mailbox).queue ≡ []
      → take_some (audio_utils fs) n l ≡ l
  unfolding take_some
  take_none zero l empty = refl
  take_none (suc n) l empty =
      ap (λ q. take_some (audio_utils fs) n (take_message (audio_utils fs) q l)) empty
      ∙ take_none n l empty

  module _ (r : IsRegular fs) (p : IsPrompt fs r) (accepts : Bool) (k : ℕ) where
    -- Nothing waits in the mailbox.
    abbrev pub caught_up : SoundDevice fs → List Message → Line (audio_utils fs)
    caught_up s rec = record {
      sound = s;
      mailbox = record { free = suc k; queue = [] };
      received = rec;
    }

    abbrev pub next_bytes : SoundDevice fs → List ℕ
    next_bytes s = take 512 (drop (r.offset s.snd) (r.content s.snd))

    abbrev pub next_sound : SoundDevice fs → SoundDevice fs
    next_sound s = record s { snd = (fs.read s.snd 512).1 }

    pub length-next_bytes :
        (s : SoundDevice fs)
        → r.offset s.snd + 512 ≤ length (r.content s.snd)
        → length (next_bytes s) ≡ 512
    length-next_bytes s enough = omega (
      arith,
      length-take 512 (drop (r.offset s.snd) (r.content s.snd)),
      length-drop (r.offset s.snd) (r.content s.snd),
    )

    acquired :
        (s : SoundDevice fs) (rec : List Message)
        → s.snd_fd ≡ true
        → r.offset s.snd + 512 ≤ length (r.content s.snd)
        → acquire_once (audio_utils fs) accepts (caught_up s rec) ≡ record {
          sound = next_sound s;
          mailbox = record { free = k; queue = samples (next_bytes s) ∷ [] };
          received = rec;
        }
    unfolding acquire_once acquisition_round read_samples
    acquired s rec opened enough =
        let full : 0 < length (next_bytes s) = omega (arith, length-next_bytes s enough) in
        let sent = round_full accepts k (next_bytes s) (record { free = suc k; queue = [] }) full in
        let some_free : (suc k == 0) ≡ false = ground arith in
        simp (some_free, opened, p.read_all s.snd 512, sent) refl

    -- One round, and the treatment task catches up.
    pub delivered :
        (s : SoundDevice fs) (rec : List Message) (n : ℕ)
        → s.snd_fd ≡ true
        → r.offset s.snd + 512 ≤ length (r.content s.snd)
        → take_some
            (audio_utils fs)
            (suc n)
            (acquire_once (audio_utils fs) accepts (caught_up s rec))
          ≡ caught_up (next_sound s) (rec ++ samples (next_bytes s) ∷ [])
    unfolding take_some receive take_first
    delivered s rec n opened enough =
        let one : k + 1 ≡ suc k = omega arith in
        ap (take_some (audio_utils fs) (suc n)) (acquired s rec opened enough)
        ∙ take_none n _ refl
        ∙ ap
            (λ f. record {
              sound = next_sound s;
              mailbox = record { free = f; queue = [] };
              received = rec ++ samples (next_bytes s) ∷ [];
            })
            one

    pub moved :
        (s : SoundDevice fs)
        → s.snd_fd ≡ true
        → r.offset s.snd + 512 ≤ length (r.content s.snd)
        → r.offset (next_sound s).snd ≡ r.offset s.snd + 512
    moved s opened enough =
        let (_, _, offset) = r.read_got s.snd 512 (next_bytes s) (p.read_all s.snd 512) in
        offset ∙ ap (λ m. r.offset s.snd + m) (length-next_bytes s enough)

    delivers :
        (ns : List ℕ) (s : SoundDevice fs) (rec : List Message)
        → Serves ns
        → s.snd_fd ≡ true
        → r.offset s.snd + 512 * length ns ≤ length (r.content s.snd)
        → bytes_of (acquisition_loop (audio_utils fs) accepts ns (caught_up s rec)).received
          ≡ bytes_of rec ++ take (512 * length ns) (drop (r.offset s.snd) (r.content s.snd))
    unfolding acquisition_loop
    delivers [] s rec serves opened enough = sym (append-nil (bytes_of rec))
    delivers (zero ∷ ns) s rec serves opened enough = absurd (omega (arith, serves.0))
    delivers (suc n ∷ ns) s rec serves opened enough =
        let rest = drop (r.offset s.snd) (r.content s.snd) in
        let step = delivered s rec n opened (omega (arith, enough)) in
        let off = moved s opened (omega (arith, enough)) in
        let same : r.content (next_sound s).snd ≡ r.content s.snd = r.content-read s.snd 512 in
        let later =
          delivers ns (next_sound s) (rec ++ samples (next_bytes s) ∷ []) serves.1 opened
            (rw (off, same) (omega (arith, enough))) in
        ap (λ l. bytes_of (acquisition_loop (audio_utils fs) accepts ns l).received) step
        ∙ later
        ∙ block_first rec (next_bytes s) _ _ (
            add_block (512 * length ns) (r.offset s.snd) (r.content s.snd) _ _ off same _
              (omega arith))

-- If the queue has a buffer, the task can be made periodic, the sound device is open, a file on which
-- nothing fails, with at least 512 bytes for each round ahead, and the treatment task takes at least
-- one message after each round, then the task terminates, and what was received is all that the
-- rounds read: the bytes of the device from where it stood, in order, with none left out.
pub acquisition_task_delivers :
    (fs : Files) (r : IsRegular fs) (accepts : Bool) (pool : ℕ) (ns : List ℕ) (s : SoundDevice fs)
    → IsPrompt fs r
    → 0 < pool
    → Serves ns
    → s.snd_fd ≡ true
    → r.offset s.snd + 512 * length ns ≤ length (r.content s.snd)
    → (end : Line (audio_utils fs)) × (acquisition_task
          (audio_utils fs)
          accepts
          (some pool)
          true
          ns
          s
        ≡ (terminated, end))
      × (bytes_of end.received ≡ take (512 * length ns) (drop (r.offset s.snd) (r.content s.snd)))
unfolding acquisition_task
acquisition_task_delivers fs r accepts zero ns s p pos = absurd (omega (arith, pos))
acquisition_task_delivers fs r accepts (suc k) ns s p pos = λ serves opened enough.
    let end = acquisition_loop (audio_utils fs) accepts ns (caught_up fs r p accepts k s []) in
    (
      record end { mailbox = record { free = 0; queue = [] } },
      refl,
      delivers fs r p accepts k ns s [] serves opened enough,
    )
