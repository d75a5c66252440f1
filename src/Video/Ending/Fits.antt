-- ===== src/Video/Ending/Fits.antt =====
-- What `video_task` and the edge filter keep of the sizes of their memory.
use ptr24_lab.Prelude.{
  ℕ, ◌+◌, ◌≤◌, ◌≡◌, refl, inl, inr, ◌∙◌, ap, true, false, Bool, Bool-cases, Outcome, ok, fault,
  Option, some, none, List, [], ◌∷◌, length, take, drop, length-take, length-drop, length-append,
  le→leb, IsBytes, take-IsBytes, drop-IsBytes, append-IsBytes, arith,
}
use ptr24_lab.Control.Events.{Events, greyscale_activation, convolution_activation}
use ptr24_lab.Control.Task.{CtlData}
use ptr24_lab.Image.Grayscale.{Img1D}
use ptr24_lab.Image.Grayscale.Grey32.{rgba_to_grayscale32_lem}
use ptr24_lab.Wav.Files.{Files, IsRegular, Read, got}
use ptr24_lab.Video.Filters.{video_resolution, video_image, EdgeTask, greyscale_round}
use ptr24_lab.Video.Play.{
  Player, Round, waits, exits, replays, plays, choose, after_frame, convolution_running,
}
use ptr24_lab.Video.Rounds.{treated, choose_lem}
use ptr24_lab.Video.Halves.{memcpy_lem, take-GreyTaken, show-EdgesPut}
use ptr24_lab.Video.Edges.{edge_start, edge_finish, grey_round}
use ptr24_lab.Video.Overrun.{finished}
use ptr24_lab.Video.Ending.{frame_round}

-- The buffers of the filter have the room for a frame.
pub record TaskFit (t : EdgeTask) : Type 0 where
  pub shown : List ℕ
  pub result_as : t.result ≡ video_image shown
  pub room_shown : video_resolution ≤ length shown
  pub room_conv : 76800 ≤ length t.conv_data
  pub room_grey : 76800 ≤ length t.grey_8
  pub grey_bytes : IsBytes t.grey_8

-- The image of the grey filter has the room for a frame.
abbrev pub ImageFit : Img1D → Type 0
ImageFit img = video_resolution ≤ length img.bytes

module _ (fs : Files) (r : IsRegular fs) (e : Events) where
  -- The memory for the frame has just its size, the screen has the room, and all are bytes.
  pub record PlayerFit (p : Player fs e) : Type 0 where
    pub whole : length p.frame ≡ video_resolution
    pub frame_bytes : IsBytes p.frame
    pub room : video_resolution ≤ length p.screen
    pub film_bytes : IsBytes (r.content p.video_file)

  -- The results of a round, which past its wait does not wait, of the two halves of one of the edge filter, and of one of the grey filter,
  -- are defined and fit.
  abbrev pub RoundFit : Outcome (Round fs e) → Type 0
  RoundFit fault = ⊥
  RoundFit (ok waits) = ⊥
  RoundFit (ok exits) = Unit
  RoundFit (ok (replays p)) = PlayerFit p
  RoundFit (ok (plays p)) = PlayerFit p

  abbrev pub StartFit : Outcome (Option EdgeTask) → Type 0
  StartFit fault = ⊥
  StartFit (ok none) = Unit
  StartFit (ok (some t)) = TaskFit t

  abbrev pub FinishFit : Outcome (Player fs e × EdgeTask) → Type 0
  FinishFit fault = ⊥
  FinishFit (ok (p, t)) = PlayerFit p × TaskFit t

  abbrev pub GreyFit : Outcome (Player fs e × Img1D) → Type 0
  GreyFit fault = ⊥
  GreyFit (ok (p, img)) = PlayerFit p × ImageFit img

  treated-PlayerFit :
      (edges grey : Bool) (p : Player fs e) → PlayerFit p → PlayerFit (treated fs e edges grey p)
  treated-PlayerFit true grey p h = record {
    whole = h.whole;
    frame_bytes = h.frame_bytes;
    room = h.room;
    film_bytes = h.film_bytes;
  }
  treated-PlayerFit false true p h = record {
    whole = h.whole;
    frame_bytes = h.frame_bytes;
    room = h.room;
    film_bytes = h.film_bytes;
  }
  treated-PlayerFit false false p h = record {
    whole = h.whole;
    frame_bytes = h.frame_bytes;
    room = omega (
      arith,
      h.whole,
      length-append (take video_resolution p.frame) (drop video_resolution p.screen),
      length-take video_resolution p.frame,
    );
    film_bytes = h.film_bytes;
  }

  choose-RoundFit : (g : e.Group) (p : Player fs e) → PlayerFit p → RoundFit (choose fs e g p)
  choose-RoundFit g p h =
      rw (choose_lem fs e g p (omega (arith, h.whole)) h.room) (
        treated-PlayerFit (e.is_set g convolution_activation) (e.is_set g greyscale_activation) p h)

  after_frame-RoundFit :
      (x : Read) (g : e.Group) (p : Player fs e)
      → PlayerFit p
      → ((bs : List ℕ) → x ≡ got bs → (length bs ≤ video_resolution) × IsBytes bs)
      → RoundFit (after_frame fs e x g p)
  unfolding after_frame
  after_frame-RoundFit Read.failed g p h reads = tt
  after_frame-RoundFit (got []) g p h reads = record {
    whole = h.whole;
    frame_bytes = h.frame_bytes;
    room = h.room;
    film_bytes = rw (r.content-seek p.video_file 0) h.film_bytes;
  }
  after_frame-RoundFit (got (b ∷ bs)) g p h reads =
      let (short, bytes) = reads (b ∷ bs) refl in
      rw (le→leb (length (b ∷ bs)) (length p.frame) (omega (arith, short, h.whole))) (
        choose-RoundFit g _ (record {
          whole = omega (
            arith,
            h.whole,
            short,
            length-append bs (drop (0 + length (b ∷ bs)) p.frame),
            length-drop (0 + length (b ∷ bs)) p.frame,
          );
          frame_bytes =
              append-IsBytes (b ∷ bs) _ bytes
                (drop-IsBytes (0 + length (b ∷ bs)) p.frame h.frame_bytes);
          room = h.room;
          film_bytes = h.film_bytes;
        }))

  pub frame_round-RoundFit :
      (ctl : CtlData e) (p : Player fs e) → PlayerFit p → RoundFit (frame_round fs e ctl p)
  unfolding frame_round
  frame_round-RoundFit ctl p h =
      after_frame-RoundFit (fs.read p.video_file video_resolution).0 ctl.control_event _
        (record {
          whole = h.whole;
          frame_bytes = h.frame_bytes;
          room = h.room;
          film_bytes = rw (r.content-read p.video_file video_resolution) h.film_bytes;
        })
        (λ bs reads.
          let (short, same, _) = r.read_got p.video_file video_resolution bs reads in
          (
            short,
            rw same (
                take-IsBytes (length bs) (drop (r.offset p.video_file) (r.content p.video_file))
                  (drop-IsBytes (r.offset p.video_file) (r.content p.video_file) h.film_bytes)),
          ))

  pub edge_start-StartFit :
      (p : Player fs e) (t : EdgeTask) → PlayerFit p → TaskFit t → StartFit (edge_start fs e p t)
  unfolding edge_start
  edge_start-StartFit p t h k =
      let g =
        take-GreyTaken p.frame t.grey_8 (omega (arith, h.whole)) k.room_grey h.frame_bytes
          k.grey_bytes in
      elim (Bool-cases (e.is_set p.video_task_event convolution_running)) [
        | inl woken ↦
            rw (woken, g.runs)
              (record {
                shown = k.shown;
                result_as = k.result_as;
                room_shown = k.room_shown;
                room_conv = k.room_conv;
                room_grey = g.room_grey;
                grey_bytes = g.grey_bytes;
              })
        | inr off ↦ rw off tt
      ]

  pub edge_finish-FinishFit :
      (p : Player fs e) (t : EdgeTask) → PlayerFit p → TaskFit t → FinishFit (edge_finish fs e p t)
  edge_finish-FinishFit p t h k =
      let s =
        show-EdgesPut t.conv_data t.grey_8 k.shown p.screen k.room_conv k.room_grey k.room_shown
          h.room k.grey_bytes in
      let same : t
          ≡ record { conv_data = t.conv_data; grey_8 = t.grey_8; result = video_image k.shown } =
        ap (λ x. record t { result = x }) k.result_as in
      rw (ap (λ x. edge_finish fs e p x) same ∙ finished fs e p t.conv_data t.grey_8 k.shown s) (
        record {
          whole = h.whole;
          frame_bytes = h.frame_bytes;
          room = s.room;
          film_bytes = h.film_bytes;
        },
        record {
          shown = s.shown';
          result_as = refl;
          room_shown = s.room_shown;
          room_conv = s.room_conv;
          room_grey = k.room_grey;
          grey_bytes = k.grey_bytes;
        },
      )

  pub grey_round-GreyFit :
      (p : Player fs e) (img : Img1D) → PlayerFit p → ImageFit img → GreyFit (grey_round fs e p img)
  unfolding grey_round greyscale_round
  grey_round-GreyFit p img h k =
      let (s, runs, len, grey, _) =
        rgba_to_grayscale32_lem (video_image p.frame) img.bytes refl (omega arith)
          (omega (arith, h.whole)) k h.frame_bytes in
      let room : video_resolution ≤ length s = omega (arith, len, k) in
      rw (runs, memcpy_lem p.screen s video_resolution room h.room)
        (
          record {
            whole = h.whole;
            frame_bytes = h.frame_bytes;
            room = omega (
              arith,
              length-append (take video_resolution s) (drop video_resolution p.screen),
              length-take video_resolution s,
              room,
            );
            film_bytes = h.film_bytes;
          },
          room,
        )
