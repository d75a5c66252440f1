-- ===== src/Control.antt =====
-- code/control.h and `ioctl_ctl_task` of code/main.c: the task that reads the switches and the keys
-- and tells the audio and video tasks what to do.
pub mod Events
pub mod Task
pub mod Laws
