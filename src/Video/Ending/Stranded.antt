-- ===== src/Video/Ending/Stranded.antt =====
-- The filters of video_setup.c after `video_task` has ended.
use ptr24_lab.Prelude.{◌≡◌, ◌⊎◌, inl, inr, refl, arith}
use ptr24_lab.Control.Events.{Events}
use ptr24_lab.Wav.Files.{Files}
use ptr24_lab.Video.Ending.{
  TaskPlace, ended, crashed, PictureTasks, PictureStep, control, enter, wait, leave, wake, play,
  test_on, test_off, test_lost, start, start_faulty, start_lost, finish, finish_faulty, finish_lost,
  grey_on, grey_off, grey_lost, grey_wake, grey_wake_lost, show_grey, show_grey_faulty,
  show_grey_lost, PictureReach, here, later,
}

module _ (fs : Files) (e : Events) where
  -- `video_task` has ended, and each filter has crashed or not moved.
  record Stranded (at at' : TaskPlace) (s : PictureTasks fs e) : Type 0 where
    lost : s.video ≡ ended
    edges_stay : (s.edges ≡ at) ⊎ (s.edges ≡ crashed)
    greys_stay : (s.greys ≡ at') ⊎ (s.greys ≡ crashed)

  step-Stranded :
      (at at' : TaskPlace) (s t : PictureTasks fs e)
      → Stranded at at' s
      → PictureStep fs e s t
      → Stranded at at' t
  step-Stranded at at' s t h (control keys word alive on) = record {
    lost = h.lost;
    edges_stay = h.edges_stay;
    greys_stay = h.greys_stay;
  }
  step-Stranded at at' s t h (enter top on shown) = absurd (ground (arith, h.lost))
  step-Stranded at at' s t h (wait top on shown) = absurd (ground (arith, h.lost))
  step-Stranded at at' s t h (leave top off') = absurd (ground (arith, h.lost))
  step-Stranded at at' s t h (wake top set) = absurd (ground (arith, h.lost))
  step-Stranded at at' s t h (play top) = absurd (ground (arith, h.lost))
  step-Stranded at at' s t h (test_on top alive on) = absurd (alive h.lost)
  step-Stranded at at' s t h (test_off top alive off') = absurd (alive h.lost)
  step-Stranded at at' s t h (start task top alive runs) = absurd (alive h.lost)
  step-Stranded at at' s t h (start_faulty top alive runs) = absurd (alive h.lost)
  step-Stranded at at' s t h (finish p task top alive runs) = absurd (alive h.lost)
  step-Stranded at at' s t h (finish_faulty top alive runs) = absurd (alive h.lost)
  step-Stranded at at' s t h (grey_on top alive on) = absurd (alive h.lost)
  step-Stranded at at' s t h (grey_off top alive off') = absurd (alive h.lost)
  step-Stranded at at' s t h (grey_wake top alive up) = absurd (alive h.lost)
  step-Stranded at at' s t h (show_grey p img top alive runs) = absurd (alive h.lost)
  step-Stranded at at' s t h (show_grey_faulty top alive runs) = absurd (alive h.lost)
  step-Stranded at at' s t h (test_lost top lost) = record {
    lost = h.lost;
    edges_stay = inr refl;
    greys_stay = h.greys_stay;
  }
  step-Stranded at at' s t h (start_lost top lost set) = record {
    lost = h.lost;
    edges_stay = inr refl;
    greys_stay = h.greys_stay;
  }
  step-Stranded at at' s t h (finish_lost top lost) = record {
    lost = h.lost;
    edges_stay = inr refl;
    greys_stay = h.greys_stay;
  }
  step-Stranded at at' s t h (grey_lost top lost) = record {
    lost = h.lost;
    edges_stay = h.edges_stay;
    greys_stay = inr refl;
  }
  step-Stranded at at' s t h (grey_wake_lost top lost up) = record {
    lost = h.lost;
    edges_stay = h.edges_stay;
    greys_stay = inr refl;
  }
  step-Stranded at at' s t h (show_grey_lost top lost) = record {
    lost = h.lost;
    edges_stay = h.edges_stay;
    greys_stay = inr refl;
  }

  reach-Stranded :
      (at at' : TaskPlace) (s t : PictureTasks fs e)
      → Stranded at at' s
      → PictureReach fs e s t
      → Stranded at at' t
  reach-Stranded at at' s t h here = h
  reach-Stranded at at' s t h (later before step) =
      step-Stranded at at' _ t (reach-Stranded at at' s _ h before) step

  -- Once `video_task` has ended, the filters do nothing more that C defines: in all that can be reached
  -- each is where it was, or it has crashed.
  pub filters_stranded :
      (s t : PictureTasks fs e)
      → s.video ≡ ended
      → PictureReach fs e s t
      → (t.video ≡ ended)
        × ((t.edges ≡ s.edges) ⊎ (t.edges ≡ crashed))
        × ((t.greys ≡ s.greys) ⊎ (t.greys ≡ crashed))
  filters_stranded s t lost reach =
      let h =
        reach-Stranded s.edges s.greys s t
          (record { lost = lost; edges_stay = inl refl; greys_stay = inl refl }) reach in
      (h.lost, h.edges_stay, h.greys_stay)
