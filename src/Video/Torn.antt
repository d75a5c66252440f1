-- ===== src/Video/Torn.antt =====
-- `video_task` goes before the edge filter, and reads the next frame into the memory that the filter is
-- reading: the filter then works on a part of each.
use ptr24_lab.Prelude.{
  ℕ, ◌+◌, ◌*◌, ◌<◌, ◌≤◌, ◌≡◌, refl, inl, inr, true, false, Option, some, none, Outcome, ok, ◌>>=◌,
  Bool, Bool-cases, List, length, take, drop, byte_at, IsBytes, take-IsBytes, drop-IsBytes, ltb,
  if◌then◌else◌, arith,
}
use ptr24_lab.Control.Events.{Events, IsGroup}
use ptr24_lab.Control.Task.{CtlData}
use ptr24_lab.Control.Laws.{Shows, switch_up}
use ptr24_lab.Image.Grayscale.{rgba_to_grayscale8_over}
use ptr24_lab.Image.Grayscale.Grey8.{rgba_to_grayscale8_over_lem}
use ptr24_lab.Image.Grayscale.Mean.{mean_at, mean_at-lt}
use ptr24_lab.Image.Convolution.Spec.{sobel}
use ptr24_lab.Wav.Files.{Files, IsRegular, IsPrompt}
use ptr24_lab.Video.Filters.{width, height, video_resolution, video_image, EdgeTask}
use ptr24_lab.Video.Play.{Player, plays, video_round, convolution_running}
use ptr24_lab.Video.Halves.{show-EdgesPut}
use ptr24_lab.Video.Edges.{edge_start, edge_finish}
use ptr24_lab.Video.Signals.{length-frame, with_frame, two_signalled}
use ptr24_lab.Video.Overrun.{finished, asleep}

-- The frame that is in memory as pixel `i` is read, where a second one comes in before pixel `k`.
abbrev pub torn : ℕ → List ℕ → List ℕ → ℕ → List ℕ
torn k frame frame' i = if ltb i k then frame else frame'

torn_keeps :
    (P : List ℕ → Type 0) (k : ℕ) (frame frame' : List ℕ)
    → P frame
    → P frame'
    → (i : ℕ) → P (torn k frame frame' i)
torn_keeps P k frame frame' h h' i = by_test (ltb i k)
  where
    by_test : (b : Bool) → P (if b then frame else frame')
    by_test true = h
    by_test false = h'

module _ (fs : Files) (e : Events) where
  -- The first half of a turn of the edge filter, woken with the player `p`, if `video_task` makes of it
  -- the player `p'` as the filter comes to pixel `k`.
  unfoldable pub torn_start : ℕ → Player fs e → Player fs e → EdgeTask → Outcome (Option EdgeTask)
  torn_start k p p' t =
      if e.is_set p.video_task_event convolution_running
      then (do
        grey ← rgba_to_grayscale8_over (video_image p.frame) (torn k p.frame p'.frame) t.grey_8
        ok (some (record t { grey_8 = grey })))
      else ok none

  torn_started :
      (k : ℕ) (p p' : Player fs e) (t : EdgeTask) (grey : List ℕ)
      → e.is_set p.video_task_event convolution_running ≡ true
      → rgba_to_grayscale8_over (video_image p.frame) (torn k p.frame p'.frame) t.grey_8 ≡ ok grey
      → torn_start k p p' t ≡ ok (some (record t { grey_8 = grey }))
  unfolding torn_start
  torn_started k p p' t grey woken runs = rw (woken, runs) refl

frame-IsBytes : (n at : ℕ) (film : List ℕ) → IsBytes film → IsBytes (take n (drop at film))
frame-IsBytes n at film bytes = take-IsBytes n (drop at film) (drop-IsBytes at film bytes)

-- What the loop leaves of two frames.
record Mixed (k : ℕ) (frame frame' grey : List ℕ) : Type 0 where
  out : List ℕ
  runs : rgba_to_grayscale8_over (video_image frame) (torn k frame frame') grey ≡ ok out
  room_out : 76800 ≤ length out
  out_bytes : IsBytes out
  mean : (j : ℕ) → j < 76800 → byte_at out j ≡ mean_at (torn k frame frame' j) (j * 4)

mixed :
    (k : ℕ) (frame frame' grey : List ℕ)
    → length frame ≡ video_resolution
    → length frame' ≡ video_resolution
    → 76800 ≤ length grey
    → IsBytes frame
    → IsBytes frame'
    → IsBytes grey
    → Mixed k frame frame' grey
mixed k frame frame' grey len len' room bytes bytes' grey_bytes =
    let frames-IsBytes = torn_keeps IsBytes k frame frame' bytes bytes' in
    let frames_length = torn_keeps (λ l. length l ≡ video_resolution) k frame frame' len len' in
    let (out, runs, same, mean, rest) =
      rgba_to_grayscale8_over_lem (video_image frame) (torn k frame frame') grey (omega arith)
        (omega arith) (λ i. omega (arith, frames_length i)) room frames-IsBytes in
    record {
      out = out;
      runs = runs;
      room_out = omega (arith, same, room);
      out_bytes = λ j. elim (Bool-cases (ltb j 76800)) [
        | inl below ↦
            ground (arith, mean j, mean_at-lt (torn k frame frame' j) (j * 4) (frames-IsBytes j))
        | inr past ↦ ground (arith, rest j, grey_bytes j)
      ];
      mean = mean;
    }

-- With switches 1 and 9 up, two whole frames of bytes ahead in a regular file on which nothing fails,
-- and buffers that have the room: if the edge filter starts on the first frame, and `video_task` plays
-- the second one just before the filter reads pixel `k`, then the grey picture has the pixels before `k`
-- of the first frame and the others of the second, the screen shows the edges of that mixture, and the
-- filter is not woken again.
pub frame_torn :
    (fs : Files) (r : IsRegular fs) (prompt : IsPrompt fs r) (e : Events) (group : IsGroup e)
    (word : ℕ) (ctl : CtlData e) (p : Player fs e) (conv grey shown : List ℕ) (k : ℕ)
    → Shows e word ctl
    → switch_up 1 word ≡ true
    → switch_up 9 word ≡ true
    → length p.frame ≡ video_resolution
    → video_resolution ≤ length p.screen
    → r.offset p.video_file + 2 * video_resolution ≤ length (r.content p.video_file)
    → IsBytes (r.content p.video_file)
    → 76800 ≤ length conv
    → 76800 ≤ length grey
    → IsBytes grey
    → video_resolution ≤ length shown
    → (p₁ p₂ p₃ : Player fs e) × (t₁ t₃ : EdgeTask) × (video_round fs e ctl p ≡ ok (plays p₁))
      × (video_round fs e ctl p₁ ≡ ok (plays p₂))
      × (torn_start fs e k p₁ p₂
            (record { conv_data = conv; grey_8 = grey; result = video_image shown })
          ≡ ok (some t₁))
      × (edge_finish fs e p₂ t₁ ≡ ok (p₃, t₃))
      × ((j : ℕ)
          → j < 76800
          → byte_at t₁.grey_8 j
            ≡ mean_at
                (torn k
                  (take video_resolution (drop (r.offset p.video_file) (r.content p.video_file)))
                  (take video_resolution
                    (drop (r.offset p.video_file + video_resolution) (r.content p.video_file)))
                  j)
                (j * 4))
      × ((x y c : ℕ)
          → x < width
          → y < height
          → c < 3
          → byte_at p₃.screen ((y * width + x) * 4 + c) ≡ sobel t₁.grey_8 width height x y)
      × (edge_start fs e p₃ t₃ ≡ ok none)
frame_torn fs r prompt e group word ctl p conv grey shown k shows on edges whole room ahead bytes
      room_c room_g grey_bytes room_s =
    let at = r.offset p.video_file in
    let film = r.content p.video_file in
    let frame = take video_resolution (drop at film) in
    let second = take video_resolution (drop (at + video_resolution) film) in
    let (f, f', runs, runs') =
      two_signalled fs e r prompt word ctl p shows on edges whole room ahead in
    let p₁ = with_frame fs e r prompt p f frame in
    let p₂ = with_frame fs e r prompt p₁ f' second in
    let g =
      mixed k frame second grey (length-frame video_resolution at film (omega (arith, ahead)))
        (length-frame video_resolution (at + video_resolution) film (omega (arith, ahead))) room_g
        (frame-IsBytes video_resolution at film bytes)
        (frame-IsBytes video_resolution (at + video_resolution) film bytes) grey_bytes in
    let s = show-EdgesPut conv g.out shown p.screen room_c g.room_out room_s room g.out_bytes in
    let flag = inr (inl refl) in
    (
      p₁,
      p₂,
      record p₂ {
        screen = s.screen';
        video_task_event = e.clear p₂.video_task_event convolution_running;
      },
      record { conv_data = conv; grey_8 = g.out; result = video_image shown },
      record { conv_data = s.conv'; grey_8 = g.out; result = video_image s.shown' },
      runs,
      runs',
      torn_started fs e k p₁ p₂ _ g.out (group.set_self p.video_task_event convolution_running flag)
          g.runs,
      finished fs e p₂ conv g.out shown s,
      g.mean,
      s.edges,
      asleep fs e _ _ (group.clear_self p₂.video_task_event convolution_running flag),
    )
