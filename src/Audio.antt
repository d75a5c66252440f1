-- ===== src/Audio.antt =====
-- code/audio_setup.h and audio_setup.c: the acquisition and the treatment of sound, and its volume.
pub mod Period
pub mod Acquisition
pub mod Starvation
pub mod Treatment
pub mod Gaps
pub mod Peak
pub mod Volume
pub mod Report
pub mod Reported
pub mod Deliver
pub mod Delivered
pub mod InOrder
pub mod Shutdown
pub mod Spectrum
pub mod Chain
pub mod Overflow
pub mod Processor
