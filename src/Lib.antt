-- ===== src/Lib.antt =====
-- The real-time program of this repository, for the DE1-SoC board: a control task reads keys and
-- switches and sets flags, sound tasks read samples and look for their strongest frequency, and
-- video frames go through filters to the screen.
--
-- The files and the code they model:
--   Image/Grayscale and its children: code/utils/grayscale.c and code/utils/image.h
--     (rgba_to_grayscale32, rgba_to_grayscale8, grayscale_to_rgba).
--   Image/Convolution and its children: code/utils/convolution.c. Spec has the filter as a formula;
--     Taps, Sums and Frame go up from one kernel entry to the frame.
--   Io/Board, Io/Setup, Io/Simple, Io/Hex, Io/Gpio: code/utils/io_utils.c, io_utils.h and common.h,
--     every access through ioctl and through the mapping. Io/Interface has the calls of io_utils.h
--     as a record, and a file of registers as what they promise; Io/Refinement fills it with the
--     calls through the mapping. Io/Driver has the table of requests of common.h. Io/Registers and
--     Io/Requests are about single registers. Io/Digits has the codes of the digits.
--   Control/Events, Control/Task: ioctl_ctl_task of code/main.c and code/control.h. The task reads
--     the registers through the interface; Control/Laws is about it, for any file of registers.
--   Wav/Files, Wav/Header, Wav/Data: the functions on recordings of code/utils/audio_utils.c.
--     Wav/Copy, Wav/Append and Wav/HeaderLaws are about them. Wav/Interface has the calls of
--     audio_utils.h as a record, Wav/Device fills it, with the sound device, and Wav/Recorder says
--     what they do together.
--   Fft: code/utils/fft_utils.c. Fft/Reference has the transform by halves; Fft/Butterfly is about
--     the loop of _fft, Fft/Recursion about its two calls and the loop, Fft/Transform about the
--     whole. Fft/Dft has the sum that defines the transform.
--   Audio/Period, Audio/Acquisition, Audio/Treatment, Audio/Peak: acquisition_task and
--     treatment_task_t_lol of code/audio_setup.c. Audio/Starvation and Audio/Gaps are about them.
--     Audio/Deliver has acquisition_task as a whole, over the calls of Wav/Interface, and
--     Audio/Delivered is about it. Audio/Report has the treatment and the monitoring as a whole,
--     with the transform of Fft, and Audio/Reported is about these; Audio/Spectrum joins it to the
--     sum of Fft/Dft, and Audio/Chain joins the acquisition to the treatment. Audio/InOrder is about
--     the two tasks in any order of turns, Audio/Shutdown has their end as a step relation, with its
--     children about it, and Audio/Overflow is about the room for messages of other sizes.
--     Audio/Processor has these steps on one processor, by the priorities of Main/Schedule, with
--     sound off, and its child with sound on.
--   Audio/Volume: map_volume of code/utils/audio_utils.c.
--   Video/Filters, Video/Play: the tasks of code/video_setup.c. Video/Shown puts the filters of
--     Image together, Video/Rounds joins video_task to the switches that the control task reads,
--     and Video/Shutdown has the two tasks as a step relation. Video/Task has the three tasks as a
--     whole, and Video/Film and Video/Filtered are about the rounds of video_task and of
--     convolution_task together, and Video/Edges is about a round of each. Video/Halves splits a
--     round of the edge filter in two, Video/Signals is about the rounds of video_task that wake it,
--     and Video/Overrun has such a round come in between;
--     Video/Torn has it come in pixel by pixel; Video/Greys has the grey filter after each frame of
--     a film. Video/Ending has video_task, the filters and the control task as a step relation,
--     with its children about it. Video/Interface and Video/Device: code/utils/video_utils.h and
--     video_utils.c.
--   Main/Run: main of code/main.c over the three interfaces, each step with the rest of the program
--     as its continuation. Main/Script is about the order of its calls and how it ends at the first
--     that does not succeed, Main/Finish is about what is closed at its end, over the calls of Io,
--     Wav and Video, and Main/Unmapped joins it to the calls of Io and to the control task.
--     Main/Schedule has the priorities and the periods of the tasks.
--   Prelude has the shared names: numbers, tests, lists, integers, memory and loops. Tests applies
--     the theorems to concrete devices and frames.
--
-- How the code is modelled. A computation on memory gives `ok` and a value, or `fault` where C
-- leaves the behaviour undefined: an access out of range, an `int` that overflows, a pointer that
-- is not valid. A buffer is a list of bytes, and a pointer into it an offset. A counted loop takes
-- the number of its rounds from its bounds. The loops on files take fuel, and `spent` is its end:
-- one round for each byte that is asked for is enough, since a round that moves no byte ends the
-- loop, but for the loop of append_wav_data, which has no such end. _fft takes fuel for the depth
-- of its calls; its step doubles at each, so that the length is enough. The control task takes the
-- state of the board in each of its rounds, and so does the video task with the shared data; the
-- sound tasks take what each round finds, or the order of their turns; each list ends where the
-- program stops. In `main`, what the tasks that run do to the devices, the shared record and the
-- buffers before it goes on is an argument (`meanwhile` of Main.Run.SystemAnswers).
--
-- The board is a 32-bit ARM: `size_t` has 32 bits, and its C ABI fixes how `struct wav_header` lies in
-- memory (`encode` and `decode` of Wav/Header): the fields in their order, each with its low byte
-- first, with no padding, since each stands at a multiple of its size.
--
-- Parameters. The board behind the driver and the mapping (Io.Board.Board), the event groups of the
-- real-time library (Control.Events.Events), the files of the system (Wav.Files.Files), and the
-- numbers of type double and double complex (Audio.Peak.Doubles, Fft.Complexes) are not in the
-- repository. What the code relies on is stated as records of laws beside each, and Tests has an
-- instance of each.
--
-- Not modelled: that video_task may write a frame while a filter task still reads its bytes, other
-- than between the two halves of Video/Overrun and before a pixel of Video/Torn. The rounding of
-- double complex: what is said of the transform by halves holds whatever the numbers do, and what is
-- said of the sum is for numbers without rounding. The choice of the task that runs is modelled in
-- Audio/Processor only, and the time that things take is not, nor are the locking of memory in main,
-- the copy of Xenomai under code/libxenomai and the binary kernel modules.
pub mod Prelude
pub mod Image
pub mod Io
pub mod Control
pub mod Wav
pub mod Fft
pub mod Audio
pub mod Video
pub mod Main
pub mod Tests
