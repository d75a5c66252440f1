-- ===== src/Video/Film.antt =====
-- What `video_task` shows over many rounds.
use ptr24_lab.Prelude.{
  ℕ, suc, ◌+◌, ◌*◌, ◌≤◌, ◌≡◌, refl, ap, ◌∙◌, Bool, true, false, List, [], ◌∷◌, ◌++◌, some, ok,
  ◌>>=◌, arith, length, take, drop, length-take, length-drop, length-append, take-length-append,
  take-length,
}
use ptr24_lab.Control.Events.{Events}
use ptr24_lab.Control.Task.{CtlData}
use ptr24_lab.Control.Laws.{Shows, switch_up}
use ptr24_lab.Wav.Files.{Files, IsRegular, IsPrompt}
use ptr24_lab.Video.Filters.{video_resolution}
use ptr24_lab.Video.Play.{Player, plays, video_round}
use ptr24_lab.Video.Rounds.{treated, video_round_lem}
use ptr24_lab.Video.Task.{terminated, VideoAnswers, woken_round, next_video, video_loop, video_task}

module _ (fs : Files) (e : Events) where
  treated_file : (a b : Bool) (p : Player fs e) → (treated fs e a b p).video_file ≡ p.video_file
  treated_file true b p = refl
  treated_file false true p = refl
  treated_file false false p = refl

  treated_frame : (a b : Bool) (p : Player fs e) → (treated fs e a b p).frame ≡ p.frame
  treated_frame true b p = refl
  treated_frame false true p = refl
  treated_frame false false p = refl

  treated_screen :
      (a b : Bool) (p : Player fs e)
      → video_resolution ≤ length p.screen
      → video_resolution ≤ length p.frame
      → video_resolution ≤ length (treated fs e a b p).screen
  treated_screen true b p room full = room
  treated_screen false true p room full = room
  treated_screen false false p room full = omega (
    arith,
    length-append (take video_resolution p.frame) (drop video_resolution p.screen),
    length-take video_resolution p.frame,
  )

  -- The switches in each round, with switch 1 up.
  abbrev pub Watching : List (CtlData e) → Type 0
  Watching [] = Unit
  Watching (ctl ∷ ctls) =
      ((word : ℕ) × Shows e word ctl × (switch_up 1 word ≡ true)) × Watching ctls

  module _ (r : IsRegular fs) (prompt : IsPrompt fs r) (bytes : List ℕ) where
    -- A player at byte `at` of the film `bytes`.
    pub record At (at : ℕ) (p : Player fs e) : Type 0 where
      pub content : r.content p.video_file ≡ bytes
      pub offset : r.offset p.video_file ≡ at
      pub whole : length p.frame ≡ video_resolution
      pub room : video_resolution ≤ length p.screen

    one_round :
        (ctl : CtlData e) (word at : ℕ) (p : Player fs e)
        → Shows e word ctl
        → switch_up 1 word ≡ true
        → At at p
        → at + video_resolution ≤ length bytes
        → (q : Player fs e) × (video_round fs e ctl p
            ≡ ok (plays (treated fs e (switch_up 9 word) (switch_up 8 word) q)))
          × (q.frame ≡ take video_resolution (drop at bytes))
          × (q.screen ≡ p.screen)
          × At (at + video_resolution) (treated fs e (switch_up 9 word) (switch_up 8 word) q)
    one_round ctl word at p shows on a ahead =
        let (f, runs, content, offset) =
          video_round_lem fs r prompt e word ctl p shows on a.whole a.room
            (rw (a.content, a.offset) ahead) in
        let q : Player fs e = record p {
          video_file = f;
          frame = take video_resolution (drop (r.offset p.video_file) (r.content p.video_file));
        } in
        let s9 = switch_up 9 word in
        let s8 = switch_up 8 word in
        let len : length q.frame ≡ video_resolution = omega (
          arith,
          length-take video_resolution (drop (r.offset p.video_file) (r.content p.video_file)),
          length-drop (r.offset p.video_file) (r.content p.video_file),
          a.offset,
          ap length a.content,
          ahead,
        ) in
        (
          q,
          runs,
          rw (a.content, a.offset) refl,
          refl,
          record {
            content = ap r.content (treated_file s9 s8 q) ∙ content ∙ a.content;
            offset =
                ap r.offset (treated_file s9 s8 q)
                ∙ offset
                ∙ ap (λ m. m + video_resolution) a.offset;
            whole = ap length (treated_frame s9 s8 q) ∙ len;
            room = treated_screen s9 s8 q a.room (omega (arith, len));
          },
        )

    rounds_on :
        (ctls rest : List (CtlData e)) (at : ℕ) (p : Player fs e)
        → Watching ctls
        → At at p
        → at + video_resolution * length ctls ≤ length bytes
        → (q : Player fs e) × (video_loop fs e (ctls ++ rest) false p
            ≡ video_loop fs e rest false q)
          × At (at + video_resolution * length ctls) q
    unfolding video_loop woken_round
    rounds_on [] rest at p watching a ahead =
        let e' : at + video_resolution * 0 ≡ at = omega arith in (p, refl, rw e' a)
    rounds_on (ctl ∷ ctls) rest at p ((word, shows, on), watching) a ahead =
        let (q, runs, _, _, a') = one_round ctl word at p shows on a (omega (arith, ahead)) in
        let t = treated fs e (switch_up 9 word) (switch_up 8 word) q in
        let (q', later, a'') =
          rounds_on ctls rest (at + video_resolution) t watching a' (omega (arith, ahead)) in
        let sum : at + video_resolution * suc (length ctls)
            ≡ at + video_resolution + video_resolution * length ctls =
          omega arith in
        (
          q',
          ap (λ x. x >>= λ y. next_video fs e y p (video_loop fs e (ctls ++ rest))) runs ∙ later,
          rw sum a'',
        )

take_whole : (n : ℕ) (xs : List ℕ) → length xs ≡ n → take n xs ≡ xs
take_whole n xs e = rw (← e) (take-length xs)

-- With all that it asks for, `video_task` is its loop.
task_loop :
    (fs : Files) (e : Events) (ans : VideoAnswers fs e) (g : e.Group) (f : fs.File)
    (ctls : List (CtlData e)) (frame screen : List ℕ)
    → ans.event ≡ some g
    → ans.greyscale_starts ≡ true
    → ans.convolution_starts ≡ true
    → ans.periodic ≡ true
    → ans.video_file ≡ some f
    → video_task fs e ans ctls frame screen ≡ (
        video_loop fs e ctls false
          (record { video_file = f; frame = frame; screen = screen; video_task_event = g })
        >>= λ y. ok (y.0, (y.1).screen))
unfolding video_task
task_loop fs e ans g f ctls frame screen event grey edges periodic file =
    rw (event, grey, edges, periodic, file) refl

take_first_part : (n : ℕ) (xs ys : List ℕ) → length xs ≡ n → take n (xs ++ ys) ≡ xs
take_first_part n xs ys e = rw (← e) (take-length-append xs ys)

-- If the event group, the two filter tasks, the period and the file of `video_task` are there, the file
-- is a regular one on which nothing fails, at its start, with a whole frame for each round, switch 1 is
-- up in each round and in the last one switches 8 and 9 are down, and memory is for exactly one frame
-- and the screen holds it, then the task terminates, and its last round put the frame with its own
-- number on the screen, whatever the switches asked for before.
pub video_task_plays :
    (fs : Files) (r : IsRegular fs) (prompt : IsPrompt fs r) (e : Events) (ans : VideoAnswers fs e)
    (g : e.Group) (f : fs.File) (ctls : List (CtlData e)) (ctl : CtlData e) (word : ℕ)
    (frame screen : List ℕ)
    → ans.event ≡ some g
    → ans.greyscale_starts ≡ true
    → ans.convolution_starts ≡ true
    → ans.periodic ≡ true
    → ans.video_file ≡ some f
    → r.offset f ≡ 0
    → Watching fs e ctls
    → Shows e word ctl
    → switch_up 1 word ≡ true
    → switch_up 9 word ≡ false
    → switch_up 8 word ≡ false
    → length frame ≡ video_resolution
    → video_resolution ≤ length screen
    → video_resolution * suc (length ctls) ≤ length (r.content f)
    → (screen' : List ℕ) × (video_task fs e ans (ctls ++ ctl ∷ []) frame screen
        ≡ ok (terminated, screen'))
      × (take video_resolution screen'
          ≡ take video_resolution (drop (video_resolution * length ctls) (r.content f)))
unfolding video_loop woken_round
video_task_plays fs r prompt e ans g f ctls ctl word frame screen event grey edges periodic file
      start watching shows on no_edges no_grey whole room ahead =
    let p : Player fs e = record {
      video_file = f;
      frame = frame;
      screen = screen;
      video_task_event = g;
    } in
    let begin : At fs e r prompt (r.content f) 0 p = record {
      content = refl;
      offset = start;
      whole = whole;
      room = room;
    } in
    let (q, runs, a) =
      rounds_on fs e r prompt (r.content f) ctls (ctl ∷ []) 0 p watching begin
        (omega (arith, ahead)) in
    let (q', last, shown, same, _) =
      one_round fs e r prompt (r.content f) ctl word (0 + video_resolution * length ctls) q shows on
        a (omega (arith, ahead)) in
    let t : Player fs e = treated fs e (switch_up 9 word) (switch_up 8 word) q' in
    let whole_run : video_loop fs e (ctls ++ ctl ∷ []) false p ≡ ok (terminated, t) =
      runs ∙ ap (λ x. x >>= λ y. next_video fs e y q (video_loop fs e [])) last in
    let on_screen : t.screen ≡ take video_resolution q'.frame ++ drop video_resolution q'.screen =
      ap (λ s9. (treated fs e s9 (switch_up 8 word) q').screen) no_edges
      ∙ ap (λ s8. (treated fs e false s8 q').screen) no_grey in
    let at = video_resolution * length ctls in
    let none_before : 0 + at ≡ at = omega arith in
    let len : length q'.frame ≡ video_resolution = omega (
      arith,
      ap length shown,
      length-take video_resolution (drop (0 + at) (r.content f)),
      length-drop (0 + at) (r.content f),
      ahead,
    ) in
    let all : take video_resolution q'.frame ≡ q'.frame =
      take_whole video_resolution q'.frame len in
    (
      t.screen,
      task_loop fs e ans g f (ctls ++ ctl ∷ []) frame screen event grey edges periodic file
          ∙ ap (λ x. x >>= λ y. ok (y.0, (y.1).screen)) whole_run,
      ap (take video_resolution) on_screen
          ∙ take_first_part video_resolution (take video_resolution q'.frame)
              (drop video_resolution q'.screen) (ap length all ∙ len)
          ∙ all
          ∙ shown
          ∙ ap (λ m. take video_resolution (drop m (r.content f))) none_before,
    )
