-- ===== src/Video.antt =====
-- code/video_setup.c, video_setup.h and utils/video_utils.c: the frames of the video, the tasks that
-- show them, and the device.
pub mod Filters
pub mod Halves
pub mod Shown
pub mod Play
pub mod Rounds
pub mod Shutdown
pub mod Device
pub mod Task
pub mod Film
pub mod Filtered
pub mod Edges
pub mod Signals
pub mod Overrun
pub mod Torn
pub mod Ending
pub mod Greys
pub mod Interface
