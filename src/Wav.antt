-- ===== src/Wav.antt =====
-- code/utils/audio_utils.h and audio_utils.c: recordings in .wav files.
pub mod Files
pub mod Interface
pub mod Header
pub mod HeaderLaws
pub mod Data
pub mod Copy
pub mod Append
pub mod Device
pub mod Recorder
