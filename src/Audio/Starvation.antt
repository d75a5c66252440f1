-- ===== src/Audio/Starvation.antt =====
-- The buffers of the mailbox: none appears from nowhere, and those that a round does not send are lost.
use ptr24_lab.Prelude.{
  ℕ, zero, suc, ◌+◌, ◌≤◌, ◌≡◌, refl, List, [], ◌∷◌, ◌++◌, Bool, length, length-append, arith,
  replicate,
}
use ptr24_lab.Wav.Files.{Read, got}
use ptr24_lab.Audio.Acquisition.{
  Message, Mailbox, round_with, take_first, Turn, acquire, treat, turn, run,
}

-- The buffers that are free or in the queue.
abbrev in_use : Mailbox → ℕ
in_use m = m.free + length m.queue

module _ (accepts : Bool) where
  length-snoc : (q : List Message) (x : Message) → length (q ++ x ∷ []) ≡ length q + 1
  length-snoc q x = length-append q (x ∷ [])

  round-in_use :
      (n : ℕ) (r : Read) (m : Mailbox) → m.free ≡ n → in_use (round_with accepts n r m) ≤ in_use m
  unfolding round_with
  round-in_use zero r m e = omega arith
  round-in_use (suc n) Read.failed m e = ground (arith, length-snoc m.queue Message.unsized)
  round-in_use (suc n) (got []) m e = omega arith
  round-in_use (suc n) (got (b ∷ bs)) m e =
      omega (arith, length-snoc m.queue (Message.samples (b ∷ bs)))

  first-in_use : (q : List Message) (m : Mailbox) → m.queue ≡ q → in_use (take_first q m) ≤ in_use m
  unfolding take_first
  first-in_use [] m e = omega arith
  first-in_use (x ∷ q) m e = rw e (omega arith)

  turn-in_use : (t : Turn) (m : Mailbox) → in_use (turn accepts t m) ≤ in_use m
  unfolding turn
  turn-in_use (acquire r) m = round-in_use m.free r m refl
  turn-in_use treat m = first-in_use m.queue m refl

  -- However the tasks take turns, the free buffers and the messages together never get more.
  run-in_use : (ts : List Turn) (m : Mailbox) → in_use (run accepts ts m) ≤ in_use m
  unfolding run
  run-in_use [] m = omega arith
  run-in_use (t ∷ ts) m = omega (arith, run-in_use ts (turn accepts t m), turn-in_use t m)

  abbrev empty : Mailbox
  empty = record { free = 0; queue = [] }

  run-empty : (ts : List Turn) → run accepts ts empty ≡ empty
  unfolding run
  run-empty [] = refl
  run-empty (acquire r ∷ ts) = run-empty ts
  run-empty (treat ∷ ts) = run-empty ts

  -- If the device gives nothing for as many rounds as there are free buffers, with no message under
  -- way, then no message is ever sent again, whatever the device gives later and however the tasks
  -- take turns.
  pub acquisition_starves :
      (n extra : ℕ) (ts : List Turn)
      → run accepts
          (replicate (n + extra) (acquire (got [])) ++ ts)
          (record { free = n; queue = [] })
        ≡ record { free = 0; queue = [] }
  unfolding run
  acquisition_starves zero extra ts = run-empty (replicate (0 + extra) (acquire (got [])) ++ ts)
  acquisition_starves (suc n) extra ts =
      let e : suc n + extra ≡ suc (n + extra) = omega arith in rw e (acquisition_starves n extra ts)
