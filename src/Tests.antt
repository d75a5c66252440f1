-- ===== src/Tests.antt =====
-- The theorems applied to concrete devices, frames, files and messages.
mod Devices
mod Disks
mod Boards
mod Sounds
mod Recordings
mod Frames
mod Videos
mod Programs
mod Transforms
mod Films
mod Reports
mod Overruns
mod Endings
mod Overflows
