-- ===== src/Audio/Acquisition.antt =====
-- The loop of `acquisition_task` over the mailbox to the treatment task. The mailbox has a pool of
-- buffers; its functions belong to the real-time library, and here they are what the loop relies on:
-- an allocation takes a buffer from the pool, or gives none; a send moves a buffer into the queue; a
-- buffer comes back to the pool when the receiver frees it.
use ptr24_lab.Prelude.{ℕ, zero, suc, ◌+◌, List, [], ◌∷◌, ◌++◌, Bool, if◌then◌else◌}
use ptr24_lab.Wav.Files.{Read, got}

-- A message: bytes, or a buffer that was sent with the size -1.
pub data Message : Type 0 where
  samples : List ℕ → Message
  unsized : Message

pub record Mailbox : Type 0 where
  pub free : ℕ
  pub queue : List Message

-- `accepts` says whether a send takes a size beyond the buffer's.
module _ (accepts : Bool) where
  -- One round, with the buffers that are free and what the sound device would give. With no buffer
  -- the device is asked to fill a null pointer, and fails, and nothing is sent; a result of -1 is
  -- sent as a size; a result of 0 is not sent, and nothing frees the buffer.
  unfoldable pub round_with : ℕ → Read → Mailbox → Mailbox
  round_with zero r m = m
  round_with (suc n) Read.failed m = record {
    free = n;
    queue = if accepts then m.queue ++ Message.unsized ∷ [] else m.queue;
  }
  round_with (suc n) (got []) m = record m { free = n }
  round_with (suc n) (got (b ∷ bs)) m = record {
    free = n;
    queue = m.queue ++ Message.samples (b ∷ bs) ∷ [];
  }

  unfoldable pub acquisition_round : Read → Mailbox → Mailbox
  unfolding round_with
  acquisition_round r m = round_with m.free r m

-- The receiver takes the first message, copies it and frees its buffer.
unfoldable pub take_first : List Message → Mailbox → Mailbox
take_first [] m = m
take_first (x ∷ q) m = record { free = m.free + 1; queue = q }

unfoldable pub receive : Mailbox → Mailbox
unfolding take_first
receive m = take_first m.queue m

-- The two tasks interleaved: a round of the acquisition, or a receipt by the treatment.
pub data Turn : Type 0 where
  acquire : Read → Turn
  treat : Turn

module _ (accepts : Bool) where
  unfoldable pub turn : Turn → Mailbox → Mailbox
  unfolding acquisition_round receive
  turn (acquire r) m = acquisition_round accepts r m
  turn treat m = receive m

  unfoldable pub run : List Turn → Mailbox → Mailbox
  unfolding turn
  run [] m = m
  run (t ∷ ts) m = run ts (turn t m)
