-- ===== src/Tests/Sounds.antt =====
-- The theorems about the sound tasks, on given messages and numbers.
use ptr24_lab.Prelude.{◌+◌, ◌≡◌, true, List, [], ◌∷◌, ◌++◌, replicate}
use ptr24_lab.Wav.Files.{Read, got}
use ptr24_lab.Audio.Acquisition.{Mailbox, Turn, acquire, treat, run}
use ptr24_lab.Audio.Starvation.{acquisition_starves}

abbrev turns : List Turn
turns = acquire (got (1 ∷ 2 ∷ [])) ∷ treat ∷ acquire Read.failed ∷ treat ∷ treat ∷ []

abbrev three_free : Mailbox
three_free = record { free = 3; queue = [] }

acquisition_starves_example :
    run true (replicate (3 + 0) (acquire (got [])) ++ turns) three_free
    ≡ record { free = 0; queue = [] }
acquisition_starves_example = acquisition_starves true 3 0 turns
