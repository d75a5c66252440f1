-- ===== src/Io/Requests.antt =====
-- Where the two ways of access differ: the requests that io_utils.c and common.h name for the pins,
-- and the digits that do not exist.
use ptr24_lab.Prelude.{
  ℕ, zero, suc, sym, ◌+◌, ◌-◌, ◌/◌, ◌%◌, ◌<◌, ◌≤◌, ◌≡◌, refl, ok, arith, if◌then◌else◌, ap,
  ltb-false, ◌==◌, Bool-cases, inl, inr,
}
use ptr24_lab.Io.Board.{
  Board, ReadsOnly, Request, Io, ioctl, mmap, RegSel, reg_low, reg_high, call, store_reg,
  io_gpio_en_b0_0,
}
use ptr24_lab.Io.Hex.{hex_offset, read_hex, write_hex}
use ptr24_lab.Io.Gpio.{gpio_offset, read_gpio_en, write_gpio_en, write_gpio_val}
use ptr24_lab.Io.Interface.{Output, led, hex, gpio_en, gpio_val}
use ptr24_lab.Io.Registers.{write_reg}

call_reads_only :
    (b : Board)
    → ReadsOnly b
    → (io : Io b) (class nr v : ℕ) → (call b io (Request.ior class nr) v).1 ≡ io
call_reads_only b reads io class nr v = elim (Bool-cases io.fd_valid) [
  | inl e ↦ rw (e, reads io.dev class nr v) refl
  | inr e ↦ rw e refl
]

-- If the driver changes nothing on a read request, then a write to the pins of bank 1 through
-- `ioctl` changes nothing at all, whatever the value: the code issues the read requests there.
pub write_gpio_ioctl_ignored :
    (b : Board)
    → ReadsOnly b
    → (sel : RegSel) (v : ℕ) (io : Io b)
    → (write_gpio_en b ioctl 1 sel v io ≡ ok io) × (write_gpio_val b ioctl 1 sel v io ≡ ok io)
unfolding write_gpio_en write_gpio_val
write_gpio_ioctl_ignored b reads reg_low v io =
    (ap ok (call_reads_only b reads io 223 22 v), ap ok (call_reads_only b reads io 223 26 v))
write_gpio_ioctl_ignored b reads reg_high v io =
    (ap ok (call_reads_only b reads io 223 24 v), ap ok (call_reads_only b reads io 223 28 v))

-- Through `ioctl` the two enable registers of bank 0 cannot be told apart: reads of the low and of
-- the high one give the same, and so do writes. Through the mapping the two are different words.
gpio_en_requests_collide :
    (b : Board) (v : ℕ) (io : Io b)
    → (read_gpio_en b ioctl 0 reg_low io ≡ read_gpio_en b ioctl 0 reg_high io)
      × (write_gpio_en b ioctl 0 reg_low v io ≡ write_gpio_en b ioctl 0 reg_high v io)
      × (gpio_offset io_gpio_en_b0_0 0 reg_low + 4 ≡ gpio_offset io_gpio_en_b0_0 0 reg_high)
unfolding read_gpio_en write_gpio_en
gpio_en_requests_collide b v io = (refl, refl, refl)

-- The enable and value registers of the two banks of pins.
abbrev pub IsPin : Output → Type 0
IsPin led = ⊥
IsPin (hex n) = ⊥
IsPin (gpio_en bank sel) = bank < 2
IsPin (gpio_val bank sel) = bank < 2

-- The pin register that lies where digit `6 + n` would.
pin_at : ℕ → Output
pin_at n =
    let sel = if n % 2 == 0 then reg_low else reg_high in
    if n / 2 % 2 == 0 then gpio_en (n / 4) sel else gpio_val (n / 4) sel

pin_at-IsPin : (n : ℕ) → n < 8 → IsPin (pin_at n)
unfolding pin_at
pin_at-IsPin n h = ground arith

pin_at-offset :
    (b : Board) (n v : ℕ) (io : Io b)
    → n < 8
    → write_reg b (pin_at n) v io ≡ store_reg b io (hex_offset (6 + n)) v
unfolding pin_at write_gpio_en write_gpio_val
pin_at-offset b zero v io h = refl
pin_at-offset b (suc zero) v io h = refl
pin_at-offset b (suc (suc zero)) v io h = refl
pin_at-offset b (suc (suc (suc zero))) v io h = refl
pin_at-offset b (suc (suc (suc (suc zero)))) v io h = refl
pin_at-offset b (suc (suc (suc (suc (suc zero))))) v io h = refl
pin_at-offset b (suc (suc (suc (suc (suc (suc zero)))))) v io h = refl
pin_at-offset b (suc (suc (suc (suc (suc (suc (suc zero))))))) v io h = refl
pin_at-offset b (suc (suc (suc (suc (suc (suc (suc (suc n)))))))) v io h = absurd (omega arith)

-- A digit that does not exist is not checked for: on digits 6 to 13 nothing happens through `ioctl`
-- and a read gives 0, while through the mapping a write is a write to an enable or a value register of a bank of pins.
pub write_hex_past_end :
    (b : Board) (digit v : ℕ) (io : Io b)
    → 6 ≤ digit
    → digit < 14
    → (write_hex b ioctl digit v io ≡ ok io)
      × (read_hex b ioctl digit io ≡ ok (0, io))
      × ((o : Output) × IsPin o × (write_hex b mmap digit v io ≡ write_reg b o v io))
unfolding write_hex read_hex
write_hex_past_end b digit v io h lt =
    let e : 6 + (digit - 6) ≡ digit = omega arith in
    (
      rw (ltb-false digit 6 h) refl,
      rw (ltb-false digit 6 h) refl,
      (
        pin_at (digit - 6),
        pin_at-IsPin (digit - 6) (omega arith),
        sym (rw e at (pin_at-offset b (digit - 6) v io (omega arith))),
      ),
    )
