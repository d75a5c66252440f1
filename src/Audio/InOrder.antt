-- ===== src/Audio/InOrder.antt =====
-- However the acquisition and the treatment take turns, no byte of the sound is lost, doubled or
-- reordered.
use ptr24_lab.Prelude.{
  ℕ, zero, suc, ◌+◌, ◌≡◌, refl, sym, ap, ap₂, ◌∙◌, Bool, true, false, List, [], ◌∷◌, ◌++◌, length,
  take, drop, drop-drop, take_add, arith, ◌==◌,
}
use mathlib.Core.List.{append-nil, append_assoc}
use ptr24_lab.Wav.Files.{Files, IsRegular, IsPrompt, got}
use ptr24_lab.Wav.Device.{SoundDevice, audio_utils, read_samples}
use ptr24_lab.Audio.Acquisition.{
  Message, samples, Mailbox, round_with, acquisition_round, receive, take_first,
}
use ptr24_lab.Audio.Deliver.{Line, Mover, acquires, receives, acquire_once, take_message, line_run}
use ptr24_lab.Audio.Delivered.{bytes_of, bytes_of-append}

module _ (fs : Files) (r : IsRegular fs) (p : IsPrompt fs r) (accepts : Bool) where
  -- All that was read and not lost: what was received, and what waits.
  abbrev in_line : Line (audio_utils fs) → List ℕ
  in_line l = bytes_of (l.received ++ (l.mailbox).queue)

  abbrev device : Line (audio_utils fs) → fs.File
  device l = (l.sound).snd

  -- The `n` bytes of the device from `at` are in the line, in order.
  record InOrder (bytes : List ℕ) (at n : ℕ) (l : Line (audio_utils fs)) : Type 0 where
    opened : (l.sound).snd_fd ≡ true
    content : r.content (device l) ≡ bytes
    offset : r.offset (device l) ≡ at + n
    line : in_line l ≡ take n (drop at bytes)

  -- A message that is sent adds its bytes at the end.
  sent_bytes :
      (k : ℕ) (bs : List ℕ) (m : Mailbox)
      → bytes_of (round_with accepts (suc k) (got bs) m).queue ≡ bytes_of m.queue ++ bs
  unfolding round_with
  sent_bytes k [] m = sym (append-nil (bytes_of m.queue))
  sent_bytes k (b ∷ bs) m =
      bytes_of-append m.queue (samples (b ∷ bs) ∷ [])
      ∙ ap (λ ys. bytes_of m.queue ++ ys) (append-nil (b ∷ bs))

  more :
      (at n : ℕ) (bytes bs : List ℕ)
      → bs ≡ take (length bs) (drop (at + n) bytes)
      → take n (drop at bytes) ++ bs ≡ take (n + length bs) (drop at bytes)
  more at n bytes bs e =
      let there : drop n (drop at bytes) ≡ drop (at + n) bytes = sym (drop-drop at n bytes) in
      sym (
        take_add n (length bs) (drop at bytes)
        ∙ ap (λ ys. take n (drop at bytes) ++ take (length bs) ys) there
        ∙ ap (λ ys. take n (drop at bytes) ++ ys) (sym e))

  -- A round with a free buffer.
  acquired_line :
      (k : ℕ) (s : SoundDevice fs) (q rec : List Message)
      → s.snd_fd ≡ true
      → acquire_once
          (audio_utils fs)
          accepts
          (record { sound = s; mailbox = record { free = suc k; queue = q }; received = rec })
        ≡ record {
          sound = record s { snd = (fs.read s.snd 512).1 };
          mailbox =
              round_with accepts
                (suc k)
                (got (take 512 (drop (r.offset s.snd) (r.content s.snd))))
                (record { free = suc k; queue = q });
          received = rec;
        }
  unfolding acquire_once acquisition_round read_samples
  acquired_line k s q rec opened =
      let some_free : (suc k == 0) ≡ false = ground arith in
      simp (some_free, opened, p.read_all s.snd 512) refl

  no_buffer :
      (s : SoundDevice fs) (q rec : List Message)
      → acquire_once
          (audio_utils fs)
          accepts
          (record { sound = s; mailbox = record { free = zero; queue = q }; received = rec })
        ≡ record { sound = s; mailbox = record { free = zero; queue = q }; received = rec }
  unfolding acquire_once
  no_buffer s q rec = refl

  acquire-InOrder :
      (bytes : List ℕ) (at n free' : ℕ) (s : SoundDevice fs) (q rec : List Message)
      → InOrder bytes at n
          (record { sound = s; mailbox = record { free = free'; queue = q }; received = rec })
      → (n' : ℕ) × InOrder bytes at n' (
          acquire_once
            (audio_utils fs)
            accepts
            (record { sound = s; mailbox = record { free = free'; queue = q }; received = rec }))
  acquire-InOrder bytes at n zero s q rec o = (n, rw (no_buffer s q rec) o)
  acquire-InOrder bytes at n (suc k) s q rec o =
      let bs = take 512 (drop (r.offset s.snd) (r.content s.snd)) in
      let (_, taken, moved) = r.read_got s.snd 512 bs (p.read_all s.snd 512) in
      let m : Mailbox = record { free = suc k; queue = q } in
      let from : bs ≡ take (length bs) (drop (at + n) bytes) =
        taken ∙ ap₂ (λ m ys. take (length bs) (drop m ys)) o.offset o.content in
      (
        n + length bs,
        rw (acquired_line k s q rec o.opened) (record {
          opened = o.opened;
          content = r.content-read s.snd 512 ∙ o.content;
          offset = moved ∙ omega (arith, o.offset);
          line =
              bytes_of-append rec (round_with accepts (suc k) (got bs) m).queue
              ∙ ap (λ ys. bytes_of rec ++ ys) (sent_bytes k bs m)
              ∙ sym (append_assoc (bytes_of rec) (bytes_of q) bs)
              ∙ ap (λ ys. ys ++ bs) (sym (bytes_of-append rec q) ∙ o.line)
              ∙ more at n bytes bs from;
        }),
      )

  receive-InOrder :
      (bytes : List ℕ) (at n free' : ℕ) (s : SoundDevice fs) (q rec : List Message)
      → InOrder bytes at n
          (record { sound = s; mailbox = record { free = free'; queue = q }; received = rec })
      → InOrder bytes at n (
          take_message
            (audio_utils fs)
            q
            (record { sound = s; mailbox = record { free = free'; queue = q }; received = rec }))
  unfolding receive take_first
  receive-InOrder bytes at n free' s [] rec o = o
  receive-InOrder bytes at n free' s (x ∷ q) rec o = record {
    opened = o.opened;
    content = o.content;
    offset = o.offset;
    line = ap bytes_of (append_assoc rec (x ∷ []) q) ∙ o.line;
  }

  run-InOrder :
      (bytes : List ℕ) (at n : ℕ) (ms : List Mover) (l : Line (audio_utils fs))
      → InOrder bytes at n l
      → (n' : ℕ) × InOrder bytes at n' (line_run (audio_utils fs) accepts ms l)
  unfolding line_run
  run-InOrder bytes at n [] l o = (n, o)
  run-InOrder bytes at n (acquires ∷ ms) l o =
      let (n', o') =
        acquire-InOrder bytes at n (l.mailbox).free l.sound (l.mailbox).queue l.received o in
      run-InOrder bytes at n' ms _ o'
  run-InOrder bytes at n (receives ∷ ms) l o =
      run-InOrder bytes at n ms _
        (receive-InOrder bytes at n (l.mailbox).free l.sound (l.mailbox).queue l.received o)

-- With an open device, a file on which nothing fails, and an empty mailbox, and however the acquisition
-- and the treatment take turns: the bytes of the messages received, and then of those that wait, are
-- just the bytes that the device has moved past, in order.
pub line_in_order :
    (fs : Files) (r : IsRegular fs) (accepts : Bool) (ms : List Mover) (s : SoundDevice fs)
    (pool : ℕ)
    → IsPrompt fs r
    → s.snd_fd ≡ true
    → let end =
        line_run
          (audio_utils fs)
          accepts
          ms
          (record { sound = s; mailbox = record { free = pool; queue = [] }; received = [] }) in
      (n : ℕ) × (r.offset (end.sound).snd ≡ r.offset s.snd + n)
      × (bytes_of end.received ++ bytes_of (end.mailbox).queue
          ≡ take n (drop (r.offset s.snd) (r.content s.snd)))
line_in_order fs r accepts ms s pool p opened =
    let begin : Line (audio_utils fs) = record {
      sound = s;
      mailbox = record { free = pool; queue = [] };
      received = [];
    } in
    let zero' : r.offset s.snd ≡ r.offset s.snd + 0 = omega arith in
    let (n, o) =
      run-InOrder fs r p accepts (r.content s.snd) (r.offset s.snd) 0 ms begin
        (record { opened = opened; content = refl; offset = zero'; line = refl }) in
    let end = line_run (audio_utils fs) accepts ms begin in
    (n, o.offset, sym (bytes_of-append end.received (end.mailbox).queue) ∙ o.line)
