-- ===== src/Audio/Deliver.antt =====
-- `acquisition_task` over the sound device, with the treatment task taking messages between its rounds.
use ptr24_lab.Prelude.{
  ℕ, zero, suc, Bool, List, [], ◌∷◌, ◌++◌, Option, none, some, if◌then◌else◌, ◌==◌,
}
use ptr24_lab.Wav.Interface.{AudioUtils}
use ptr24_lab.Audio.Period.{message_size}
use ptr24_lab.Audio.Acquisition.{Message, Mailbox, acquisition_round, receive}

-- Where the task is at its end: the program exited as the queue could not be created, the task could
-- not be made periodic, or it terminated.
pub data TaskEnd : Type 0 where
  no_queue no_period terminated : TaskEnd

-- Which task takes a turn: a round of the acquisition, or a receipt by the treatment.
pub data Mover : Type 0 where
  acquires receives : Mover

module _ (a : AudioUtils) where
  -- The device, the mailbox, and what the treatment task has received, in order.
  pub record Line : Type 0 where
    pub sound : a.Sound
    pub mailbox : Mailbox
    pub received : List Message

  -- The treatment task takes the first message.
  abbrev pub take_message : List Message → Line → Line
  take_message [] l = l
  take_message (x ∷ q) l = record l { mailbox = receive l.mailbox; received = l.received ++ x ∷ [] }

  unfoldable pub take_some : ℕ → Line → Line
  unfolding receive
  take_some zero l = l
  take_some (suc n) l = take_some n (take_message (l.mailbox).queue l)

  module _ (accepts : Bool) where
    -- A round. With no free buffer the device is asked to fill a null pointer, and gives no byte away.
    unfoldable pub acquire_once : Line → Line
    unfolding acquisition_round
    acquire_once l =
        let (r, sound') = a.read_samples message_size l.sound in
        if l.mailbox.free == 0
        then l
        else record l { sound = sound'; mailbox = acquisition_round accepts r l.mailbox }

    -- The two tasks in any order.
    unfoldable pub line_run : List Mover → Line → Line
    unfolding acquire_once
    line_run [] l = l
    line_run (acquires ∷ ms) l = line_run ms (acquire_once l)
    line_run (receives ∷ ms) l = line_run ms (take_message (l.mailbox).queue l)

    -- The loop: after each round the treatment task takes the number of messages of the list.
    unfoldable pub acquisition_loop : List ℕ → Line → Line
    unfolding acquire_once take_some
    acquisition_loop [] l = l
    acquisition_loop (n ∷ ns) l = acquisition_loop ns (take_some n (acquire_once l))

    -- The task; `pool` is the number of buffers that a queue of its size has. The queue is deleted at the
    -- end, with the messages that are still in it.
    unfoldable pub acquisition_task : Option ℕ → Bool → List ℕ → a.Sound → TaskEnd × Line
    unfolding acquisition_loop
    acquisition_task none periodic ns s =
        (no_queue, record { sound = s; mailbox = record { free = 0; queue = [] }; received = [] })
    acquisition_task (some pool) periodic ns s =
        let start : Line = record {
          sound = s;
          mailbox = record { free = pool; queue = [] };
          received = [];
        } in
        if periodic
        then (
          terminated,
          record (acquisition_loop ns start) { mailbox = record { free = 0; queue = [] } },
        )
        else (no_period, start)
