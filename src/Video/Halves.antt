-- ===== src/Video/Halves.antt =====
-- The two halves of a round of `convolution_task`: the frame is read, and its edges are shown.
use ptr24_lab.Prelude.{
  length-append, length-take, ℕ, zero, suc, ◌+◌, ◌*◌, ◌<◌, ◌≤◌, ◌≡◌, refl, List, [], ◌∷◌, ◌++◌, ok,
  le→leb, arith, length, take, drop, byte_at, IsBytes, ◌∙◌,
}
use ptr24_lab.Image.Grayscale.{rgba_to_grayscale8}
use ptr24_lab.Image.Grayscale.Mean.{mean_at, mean_at-lt}
use ptr24_lab.Image.Grayscale.Grey8.{rgba_to_grayscale8_lem}
use ptr24_lab.Image.Grayscale.Rgba.{grayscale_to_rgba_lem, rgba_at-colour}
use ptr24_lab.Image.Convolution.Spec.{sobel}
use ptr24_lab.Image.Convolution.Frame.{convolution_grayscale_lem}
use ptr24_lab.Video.Filters.{width, height, video_resolution, video_image, memcpy, show_edges}

pub byte_at-take :
    (n : ℕ) (xs ys : List ℕ) (j : ℕ)
    → n ≤ length xs
    → j < n
    → byte_at (take n xs ++ ys) j ≡ byte_at xs j
byte_at-take zero xs ys j h lt = absurd (omega arith)
byte_at-take (suc n) [] ys j h lt = absurd (omega arith)
byte_at-take (suc n) (x ∷ xs) ys zero h lt = refl
byte_at-take (suc n) (x ∷ xs) ys (suc j) h lt = byte_at-take n xs ys j (omega arith) (omega arith)

pub memcpy_lem :
    (to from : List ℕ) (n : ℕ)
    → n ≤ length from
    → n ≤ length to
    → memcpy to from n ≡ ok (take n from ++ drop n to)
unfolding memcpy
memcpy_lem to from n h h' = rw (le→leb n (length from) h, le→leb n (length to) h') refl

-- What the first half leaves.
pub record GreyTaken (frame grey : List ℕ) : Type 0 where
  pub grey' : List ℕ
  pub runs : rgba_to_grayscale8 (video_image frame) grey ≡ ok grey'
  pub room_grey : 76800 ≤ length grey'
  pub grey_bytes : IsBytes grey'
  pub mean : (j : ℕ) → j < 76800 → byte_at grey' j ≡ mean_at frame (j * 4)

pub take-GreyTaken :
    (frame grey : List ℕ)
    → video_resolution ≤ length frame
    → 76800 ≤ length grey
    → IsBytes frame
    → IsBytes grey
    → GreyTaken frame grey
take-GreyTaken frame grey fits room_g frame_bytes grey_bytes =
    let (g, runs, len, mean, rest) =
      rgba_to_grayscale8_lem (video_image frame) grey (omega arith) (omega arith) fits room_g
        frame_bytes in
    record {
      grey' = g;
      runs = runs;
      room_grey = omega arith;
      grey_bytes =
          λ j. ground (arith, mean j, rest j, grey_bytes j, mean_at-lt frame (j * 4) frame_bytes);
      mean = mean;
    }

-- What the second half leaves.
pub record EdgesPut (conv grey shown screen : List ℕ) : Type 0 where
  pub conv' : List ℕ
  pub shown' : List ℕ
  pub screen' : List ℕ
  pub runs :
      show_edges (record { conv_data = conv; grey_8 = grey; result = video_image shown }) screen
      ≡ ok (record { conv_data = conv'; grey_8 = grey; result = video_image shown' }, screen')
  pub room_conv : 76800 ≤ length conv'
  pub room_shown : video_resolution ≤ length shown'
  pub room : video_resolution ≤ length screen'
  pub edges :
      (x y c : ℕ)
      → x < width
      → y < height
      → c < 3
      → byte_at screen' ((y * width + x) * 4 + c) ≡ sobel grey width height x y

pub show-EdgesPut :
    (conv grey shown screen : List ℕ)
    → 76800 ≤ length conv
    → 76800 ≤ length grey
    → video_resolution ≤ length shown
    → video_resolution ≤ length screen
    → IsBytes grey
    → EdgesPut conv grey shown screen
unfolding show_edges
show-EdgesPut conv grey shown screen room_c room_g room_s room grey_bytes =
    let (c, runs_c, len_c, edges, _) =
      convolution_grayscale_lem grey conv width height (omega arith) (omega arith) room_c
        grey_bytes in
    let (s, runs_s, len_s, colours, _) =
      grayscale_to_rgba_lem c (video_image shown) (omega arith) (omega arith) (omega arith)
        room_s in
    record {
      conv' = c;
      shown' = s;
      screen' = take video_resolution s ++ drop video_resolution screen;
      runs = rw (runs_c, runs_s, memcpy_lem screen s video_resolution (omega arith) room) refl;
      room_conv = omega arith;
      room_shown = omega arith;
      room = omega (
        arith,
        length-append (take video_resolution s) (drop video_resolution screen),
        length-take video_resolution s,
      );
      edges = λ x y k hx hy hk.
          byte_at-take video_resolution s (drop video_resolution screen) _ (omega arith)
            (omega arith)
          ∙ colours ((y * width + x) * 4 + k) (omega arith)
          ∙ rgba_at-colour 4 (y * width + x) k c shown hk (omega arith)
          ∙ edges x y hx hy;
    }
