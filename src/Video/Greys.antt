-- ===== src/Video/Greys.antt =====
-- `video_task` and `greyscale_task` in turn, over as many frames as the film has.
use ptr24_lab.Prelude.{
  ℕ, zero, suc, ◌+◌, ◌*◌, ◌<◌, ◌≤◌, ◌≡◌, refl, ap, ap₂, ◌∙◌, inl, true, false, Option, some, none,
  Outcome, ok, ◌>>=◌, List, length, take, drop, length-take, length-drop, byte_at, IsBytes,
  take-IsBytes, drop-IsBytes, arith,
}
use ptr24_lab.Control.Events.{Events, IsGroup}
use ptr24_lab.Control.Task.{CtlData}
use ptr24_lab.Control.Laws.{Shows, switch_up}
use ptr24_lab.Image.Grayscale.{Img1D}
use ptr24_lab.Image.Grayscale.Mean.{mean_at}
use ptr24_lab.Wav.Files.{Files, IsRegular, IsPrompt}
use ptr24_lab.Video.Filters.{width, height, video_resolution, video_image, greyscale_round}
use ptr24_lab.Video.Play.{
  Player, Round, waits, exits, replays, plays, video_round, greyscale_running,
}
use ptr24_lab.Video.Rounds.{treated, video_round_lem}
use ptr24_lab.Video.Shown.{greyscale_round_lem}
use ptr24_lab.Video.Edges.{grey_round, grey_turn, greyscale_stop}

-- Frame `k` of a film, counted from a place of its file.
abbrev pub frame_at : ℕ → List ℕ → ℕ → List ℕ
frame_at at film k = take video_resolution (drop (at + k * video_resolution) film)

module _ (fs : Files) (e : Events) where
  -- The two tasks, with what `greyscale_task` keeps; none where the program has exited.
  abbrev pub Both : Type 0
  Both = Option (Player fs e × Img1D)

  abbrev pub then_grey : Player fs e → Img1D → Outcome Both
  then_grey p t = do both ← grey_turn fs e p t; ok (some both)

  -- After a round of `video_task`, `greyscale_task` takes a turn.
  abbrev pub grey_after : Player fs e → Img1D → Round fs e → Outcome Both
  grey_after p t waits = then_grey p t
  grey_after p t exits = ok none
  grey_after p t (replays q) = then_grey q t
  grey_after p t (plays q) = then_grey q t

  module _ (ctl : CtlData e) where
    unfoldable pub next_grey : Both → Outcome Both
    unfolding video_round
    next_grey none = ok none
    next_grey (some (p, t)) = video_round fs e ctl p >>= grey_after p t

    -- The first `n` rounds of the two.
    unfoldable pub grey_film : ℕ → Player fs e → Img1D → Outcome Both
    unfolding next_grey
    grey_film zero p t = ok (some (p, t))
    grey_film (suc n) p t = grey_film n p t >>= next_grey

  -- A turn that was woken.
  grey_turn_woken :
      (p : Player fs e) (t t' : Img1D) (screen' : List ℕ)
      → greyscale_round (video_image p.frame) t p.screen ≡ ok (t', screen')
      → e.is_set p.video_task_event greyscale_running ≡ true
      → grey_turn fs e p t
        ≡ ok (
          record p {
            screen = screen';
            video_task_event =
                e.signal (e.clear p.video_task_event greyscale_running) greyscale_stop;
          },
          t',
        )
  unfolding grey_turn grey_round
  grey_turn_woken p t t' screen' runs woken = rw (woken, runs) refl

module _ (fs : Files) (r : IsRegular fs) (prompt : IsPrompt fs r) (e : Events) (group : IsGroup e)
    (word : ℕ) (ctl : CtlData e) (shows : Shows e word ctl) (on : switch_up 1 word ≡ true)
    (no_edges : switch_up 9 word ≡ false) (grey : switch_up 8 word ≡ true) (film : List ℕ) (at : ℕ)
    (film_bytes : IsBytes film) where
  -- Between the rounds, where `n` frames were played.
  record Between (n : ℕ) (p : Player fs e) (shown : List ℕ) : Type 0 where
    one_frame : length p.frame ≡ video_resolution
    room : video_resolution ≤ length p.screen
    room_shown : video_resolution ≤ length shown
    content : r.content p.video_file ≡ film
    offset : r.offset p.video_file ≡ at + n * video_resolution

  -- What a round leaves of frame `n`.
  record GreyShown (n : ℕ) (p : Player fs e) : Type 0 where
    pixels :
        (j c : ℕ)
        → j < width * height
        → c < 3
        → byte_at p.screen (j * 4 + c) ≡ mean_at (frame_at at film n) (j * 4)
    asleep : e.is_set p.video_task_event greyscale_running ≡ false
    done : e.is_set p.video_task_event greyscale_stop ≡ true

  frame_at-IsBytes : (n : ℕ) → IsBytes (frame_at at film n)
  frame_at-IsBytes n =
      take-IsBytes video_resolution _ (drop-IsBytes (at + n * video_resolution) film film_bytes)

  length-frame_at :
      (n : ℕ)
      → at + suc n * video_resolution ≤ length film
      → length (frame_at at film n) ≡ video_resolution
  length-frame_at n ahead = omega (
    arith,
    ahead,
    length-take video_resolution (drop (at + n * video_resolution) film),
    length-drop (at + n * video_resolution) film,
  )

  one_round :
      (n : ℕ) (p : Player fs e) (shown : List ℕ)
      → at + suc n * video_resolution ≤ length film
      → Between n p shown
      → (p' : Player fs e) × (shown' : List ℕ) × (next_grey fs e ctl (some (p, video_image shown))
          ≡ ok (some (p', video_image shown')))
        × Between (suc n) p' shown'
        × GreyShown n p'
  unfolding next_grey
  one_round n p shown ahead b =
      let (f, plays_it, content, offset) =
        video_round_lem fs r prompt e word ctl p shows on b.one_frame b.room
          (omega (arith, ahead, b.offset, ap length b.content)) in
      let frame = frame_at at film n in
      let same : take video_resolution (drop (r.offset p.video_file) (r.content p.video_file))
          ≡ frame =
        ap₂ (λ m ys. take video_resolution (drop m ys)) b.offset b.content in
      let q : Player fs e = record p {
        video_file = f;
        frame = frame;
        video_task_event = e.signal p.video_task_event greyscale_running;
      } in
      let played : video_round fs e ctl p ≡ ok (plays q) = plays_it ∙ (λ i. ok (
        plays
          (treated fs e (no_edges i) (grey i) (record p { video_file = f; frame = same i })))) in
      let len = length-frame_at n ahead in
      let (shown', screen', runs, room_shown, room, pixels) =
        greyscale_round_lem frame shown p.screen (omega (arith, len)) b.room_shown b.room
          (frame_at-IsBytes n) in
      let g = e.signal p.video_task_event greyscale_running in
      let p' : Player fs e = record q {
        screen = screen';
        video_task_event = e.signal (e.clear g greyscale_running) greyscale_stop;
      } in
      let turn =
        grey_turn_woken fs e q (video_image shown) (video_image shown') screen' runs
          (group.set_self p.video_task_event greyscale_running (inl refl)) in
      (
        p',
        shown',
        ap (λ a. a >>= grey_after fs e p (video_image shown)) played
            ∙ ap (λ a. a >>= λ both. ok (some both)) turn,
        record {
          one_frame = len;
          room = room;
          room_shown = room_shown;
          content = content ∙ b.content;
          offset = omega (arith, offset, b.offset);
        },
        record {
          pixels = pixels;
          asleep =
              group.set_other (e.clear g greyscale_running) greyscale_stop greyscale_running
                (omega arith) (omega arith) (omega arith)
              ∙ group.clear_self g greyscale_running (omega arith);
          done = group.set_self (e.clear g greyscale_running) greyscale_stop (omega arith);
        },
      )

  rounds-Between :
      (n : ℕ) (p : Player fs e) (shown : List ℕ)
      → at + n * video_resolution ≤ length film
      → Between 0 p shown
      → (p' : Player fs e) × (shown' : List ℕ) × (grey_film fs e ctl n p (video_image shown)
          ≡ ok (some (p', video_image shown')))
        × Between n p' shown'
  unfolding grey_film
  rounds-Between zero p shown ahead b = (p, shown, refl, b)
  rounds-Between (suc n) p shown ahead b =
      let (p', shown', runs, b') = rounds-Between n p shown (omega (arith, ahead)) b in
      let (p'', shown'', runs', b'', _) = one_round n p' shown' ahead b' in
      (p'', shown'', ap (λ a. a >>= next_grey fs e ctl) runs ∙ runs', b'')

-- With switches 1 and 8 up and 9 down, the shared state showing the switches, memory for one frame, a
-- screen and a result of the filter that have the room, and `n + 1` whole frames of bytes ahead in a
-- regular file on which nothing fails: `n + 1` rounds of `video_task`, each with a turn of
-- `greyscale_task` after it, return; the first three components of each pixel of the screen are then the
-- mean of its colours in the last of these frames, the file stands behind that frame, and the filter
-- waits and says that it is done.
pub film_greys :
    (fs : Files) (r : IsRegular fs) (prompt : IsPrompt fs r) (e : Events) (group : IsGroup e)
    (word : ℕ) (ctl : CtlData e) (p : Player fs e) (shown : List ℕ) (n : ℕ)
    → Shows e word ctl
    → switch_up 1 word ≡ true
    → switch_up 9 word ≡ false
    → switch_up 8 word ≡ true
    → length p.frame ≡ video_resolution
    → video_resolution ≤ length p.screen
    → video_resolution ≤ length shown
    → r.offset p.video_file + suc n * video_resolution ≤ length (r.content p.video_file)
    → IsBytes (r.content p.video_file)
    → (p' : Player fs e) × (shown' : List ℕ) × (grey_film fs e ctl (suc n) p (video_image shown)
        ≡ ok (some (p', video_image shown')))
      × ((j c : ℕ)
          → j < width * height
          → c < 3
          → byte_at p'.screen (j * 4 + c)
            ≡ mean_at (frame_at (r.offset p.video_file) (r.content p.video_file) n) (j * 4))
      × (r.offset p'.video_file ≡ r.offset p.video_file + suc n * video_resolution)
      × (e.is_set p'.video_task_event greyscale_running ≡ false)
      × (e.is_set p'.video_task_event greyscale_stop ≡ true)
unfolding grey_film
film_greys fs r prompt e group word ctl p shown n shows on no_edges grey whole room room_shown ahead
      bytes =
    let at = r.offset p.video_file in
    let film = r.content p.video_file in
    let start : Between fs r prompt e group word ctl shows on no_edges grey film at bytes 0 p
        shown =
      record {
        one_frame = whole;
        room = room;
        room_shown = room_shown;
        content = refl;
        offset = omega arith;
      } in
    let (q, shown', runs, b) =
      rounds-Between fs r prompt e group word ctl shows on no_edges grey film at bytes n p shown
        (omega (arith, ahead)) start in
    let (p', shown'', runs', b', s) =
      one_round fs r prompt e group word ctl shows on no_edges grey film at bytes n q shown' ahead
        b in
    (
      p',
      shown'',
      ap (λ a. a >>= next_grey fs e ctl) runs ∙ runs',
      s.pixels,
      b'.offset,
      s.asleep,
      s.done,
    )
