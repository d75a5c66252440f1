-- ===== src/Video/Filters.antt =====
-- `convolution_task` and `greyscale_task`: what they allocate, and one round of their loops after the
-- wait. The pointers `result` and `greyscale_img` are never set; what they happen to point to, if it
-- is memory at all, is an argument.
use ptr24_lab.Prelude.{
  ℕ, ◌*◌, List, [], ◌++◌, Option, none, some, Outcome, ok, fault, ◌>>=◌, leb, ◌&&◌, if◌then◌else◌,
  length, take, drop,
}
use ptr24_lab.Image.Grayscale.{Img1D, rgba_to_grayscale32, rgba_to_grayscale8, grayscale_to_rgba}
use ptr24_lab.Image.Convolution.{convolution_grayscale}

abbrev pub width : ℕ
width = 320

abbrev pub height : ℕ
height = 240

abbrev pub bytes_per_pixel : ℕ
bytes_per_pixel = 4

abbrev pub video_resolution : ℕ
video_resolution = width * height * bytes_per_pixel

-- A frame as `main` sets it up, with the bytes of its `data`.
abbrev pub video_image : List ℕ → Img1D
video_image data_ = record { width = width; height = height; components = 4; bytes = data_ }

-- `memcpy(to, from, n)`: the bytes that `to` points to afterwards.
unfoldable pub memcpy : List ℕ → List ℕ → ℕ → Outcome (List ℕ)
memcpy to from n =
    if leb n (length from) && leb n (length to) then ok (take n from ++ drop n to) else fault

-- The memory that an allocation gives; a null pointer has none.
abbrev pub allocated : Option (List ℕ) → List ℕ
allocated none = []
allocated (some bs) = bs

-- The buffers of `convolution_task`.
pub record EdgeTask : Type 0 where
  pub conv_data : List ℕ
  pub grey_8 : List ℕ
  pub result : Img1D

-- The part before the loop; `none` is the exit where memory is short.
unfoldable pub convolution_start :
    Option (List ℕ) → Option (List ℕ) → Option Img1D → Option (List ℕ) → Outcome (Option EdgeTask)
convolution_start conv grey none image = fault
convolution_start none grey (some r) image = ok none
convolution_start (some conv) none (some r) image = ok none
convolution_start (some conv) (some grey) (some r) image =
    ok (some (record { conv_data = conv; grey_8 = grey; result = video_image (allocated image) }))

-- The rest of a round, once the frame was read: from its means of colours to the screen.
unfoldable pub show_edges : EdgeTask → List ℕ → Outcome (EdgeTask × List ℕ)
show_edges t screen = do
  conv ← convolution_grayscale t.grey_8 width height t.conv_data
  shown ← grayscale_to_rgba conv t.result
  screen' ← memcpy screen shown video_resolution
  ok (record t { conv_data = conv; result = record (t.result) { bytes = shown } }, screen')

-- A round: from the frame to the screen.
unfoldable pub convolution_round : Img1D → EdgeTask → List ℕ → Outcome (EdgeTask × List ℕ)
unfolding show_edges
convolution_round img t screen = do
  grey ← rgba_to_grayscale8 img t.grey_8
  show_edges (record t { grey_8 = grey }) screen

-- `greyscale_img` is tested after it was used, and only `data` of it is set.
unfoldable pub greyscale_start : Option Img1D → Option (List ℕ) → Outcome Img1D
greyscale_start none image = fault
greyscale_start (some r) image = ok (record r { bytes = allocated image })

unfoldable pub greyscale_round : Img1D → Img1D → List ℕ → Outcome (Img1D × List ℕ)
greyscale_round img greyscale_img screen = do
  shown ← rgba_to_grayscale32 img greyscale_img.bytes
  screen' ← memcpy screen shown video_resolution
  ok (record greyscale_img { bytes = shown }, screen')
