-- ===== src/Image.antt =====
-- code/utils/image.h, grayscale.c and convolution.c: frames in memory and their treatments.
-- A `uint8_t *` is the list of the bytes that it points to. The `int` dimensions are not
-- negative, and a product of them that overflows is a fault.
pub mod Grayscale
pub mod Convolution
