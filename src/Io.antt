-- ===== src/Io.antt =====
-- code/utils/io_utils.h, io_utils.c and common.h: the switches, keys, leds, digits and pins of the
-- board, through a mapping of its registers or through requests to the driver.
pub mod Board
pub mod Interface
pub mod Setup
pub mod Simple
pub mod Hex
pub mod Digits
pub mod Gpio
pub mod Registers
pub mod Refinement
pub mod Driver
pub mod Requests
