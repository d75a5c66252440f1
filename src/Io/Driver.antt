-- ===== src/Io/Driver.antt =====
-- The requests of common.h, register by register, and where the calls through the driver and through
-- the mapping do the same.
use ptr24_lab.Prelude.{
  ℕ, zero, suc, ◌+◌, ◌*◌, ◌<◌, ◌≡◌, refl, Bool, true, if◌then◌else◌, ok, arith, lt→ltb, ap, ◌∙◌,
  sym,
}
use ptr24_lab.Io.Board.{
  Board, Io, Pointer, ioctl, mmap, reg_low, reg_high, read_request, write_request, call,
}
use ptr24_lab.Io.Simple.{read_key, read_switch, read_led, write_led}
use ptr24_lab.Io.Hex.{read_hex, write_hex}
use ptr24_lab.Io.Gpio.{read_gpio_en, write_gpio_en, read_gpio_val, write_gpio_val}
use ptr24_lab.Io.Interface.{
  Reg, keys, switches, out, Output, led, hex, gpio_en, gpio_val, IsReg, IsOutput, read, write,
}
use ptr24_lab.Io.Registers.{offset, output_offset}
use ptr24_lab.Io.Refinement.{io_utils, mmap_read, mmap_write}

-- The number of the request that reads a register.
abbrev pub output_number : Output → ℕ
output_number led = 2
output_number (hex n) = 4 + 2 * n
output_number (gpio_en zero sel) = 16
output_number (gpio_en (suc bank) reg_low) = 22
output_number (gpio_en (suc bank) reg_high) = 24
output_number (gpio_val zero reg_low) = 18
output_number (gpio_val zero reg_high) = 20
output_number (gpio_val (suc bank) reg_low) = 26
output_number (gpio_val (suc bank) reg_high) = 28

abbrev pub reg_number : Reg → ℕ
reg_number switches = 0
reg_number keys = 1
reg_number (out o) = output_number o

-- Each request to write comes after the one to read.
abbrev pub write_number : Output → ℕ
write_number o = output_number o + 1

-- The registers whose request to read is no other's: all but the second enable register of bank 0.
abbrev pub IsNumbered : Reg → Type 0
IsNumbered keys = Unit
IsNumbered switches = Unit
IsNumbered (out led) = Unit
IsNumbered (out (hex n)) = n < 6
IsNumbered (out (gpio_en zero reg_low)) = Unit
IsNumbered (out (gpio_en zero reg_high)) = ⊥
IsNumbered (out (gpio_en (suc zero) sel)) = Unit
IsNumbered (out (gpio_en (suc (suc bank)) sel)) = ⊥
IsNumbered (out (gpio_val bank sel)) = bank < 2

-- The registers that the code writes by their own request: those, less the pins of bank 1.
abbrev pub IsWritable : Output → Type 0
IsWritable led = Unit
IsWritable (hex n) = n < 6
IsWritable (gpio_en zero reg_low) = Unit
IsWritable (gpio_en zero reg_high) = ⊥
IsWritable (gpio_en (suc bank) sel) = ⊥
IsWritable (gpio_val zero sel) = Unit
IsWritable (gpio_val (suc bank) sel) = ⊥

numbered-IsReg : (r : Reg) → IsNumbered r → IsReg r
numbered-IsReg keys h = tt
numbered-IsReg switches h = tt
numbered-IsReg (out led) h = tt
numbered-IsReg (out (hex n)) h = h
numbered-IsReg (out (gpio_en zero sel)) h = omega arith
numbered-IsReg (out (gpio_en (suc zero) sel)) h = omega arith
numbered-IsReg (out (gpio_en (suc (suc bank)) sel)) h = absurd h
numbered-IsReg (out (gpio_val bank sel)) h = h

writable-IsOutput : (o : Output) → IsWritable o → IsOutput o
writable-IsOutput led h = tt
writable-IsOutput (hex n) h = h
writable-IsOutput (gpio_en zero sel) h = omega arith
writable-IsOutput (gpio_en (suc bank) sel) h = absurd h
writable-IsOutput (gpio_val zero sel) h = omega arith
writable-IsOutput (gpio_val (suc bank) sel) h = absurd h

-- The driver does what the names of the requests say.
pub record IsDriver (b : Board) : Type 0 where
  pub reads :
      (d : b.Dev) (r : Reg) (v : ℕ)
      → IsNumbered r
      → b.request d (read_request (reg_number r)) v ≡ (b.peek d (offset r), d)
  pub writes :
      (d : b.Dev) (o : Output) (v : ℕ)
      → IsWritable o
      → b.request d (write_request (write_number o)) v ≡ (v, b.poke d (output_offset o) v)

if-true {ℓ} : {A : Type ℓ} {c : Bool} (x y : A) → c ≡ true → (if c then x else y) ≡ x
if-true x y e = rw e refl

module _ (b : Board) (driver : IsDriver b) where
  call_read :
      (io : Io b) (r : Reg)
      → io.fd_valid ≡ true
      → IsNumbered r
      → call b io (read_request (reg_number r)) 0 ≡ (b.peek io.dev (offset r), io)
  call_read io r fd h =
      if-true _ _ fd ∙ ap (λ p. (p.0, record io { dev = p.1 })) (driver.reads io.dev r 0 h)

  call_write :
      (io : Io b) (o : Output) (v : ℕ)
      → io.fd_valid ≡ true
      → IsWritable o
      → (call b io (write_request (write_number o)) v).1
        ≡ record io { dev = b.poke io.dev (output_offset o) v }
  call_write io o v fd h =
      ap {A = ℕ × Io b} (λ p. p.1) (if-true _ _ fd)
      ∙ ap (λ p. record io { dev = p.1 }) (driver.writes io.dev o v h)

  read_ioctl :
      (r : Reg) (io : Io b)
      → io.fd_valid ≡ true
      → IsNumbered r
      → read (io_utils b) ioctl r io ≡ ok (b.peek io.dev (offset r), io)
  unfolding read_key read_switch read_led read_hex read_gpio_en read_gpio_val
  read_ioctl keys io fd h = ap ok (call_read io keys fd tt)
  read_ioctl switches io fd h = ap ok (call_read io switches fd tt)
  read_ioctl (out led) io fd h = ap ok (call_read io (out led) fd tt)
  read_ioctl (out (hex n)) io fd h = rw (lt→ltb n 6 h) (ap ok (call_read io (out (hex n)) fd h))
  read_ioctl (out (gpio_en zero reg_low)) io fd h =
      ap ok (call_read io (out (gpio_en 0 reg_low)) fd tt)
  read_ioctl (out (gpio_en (suc zero) reg_low)) io fd h =
      ap ok (call_read io (out (gpio_en 1 reg_low)) fd tt)
  read_ioctl (out (gpio_en (suc zero) reg_high)) io fd h =
      ap ok (call_read io (out (gpio_en 1 reg_high)) fd tt)
  read_ioctl (out (gpio_val zero reg_low)) io fd h =
      ap ok (call_read io (out (gpio_val 0 reg_low)) fd h)
  read_ioctl (out (gpio_val zero reg_high)) io fd h =
      ap ok (call_read io (out (gpio_val 0 reg_high)) fd h)
  read_ioctl (out (gpio_val (suc zero) reg_low)) io fd h =
      ap ok (call_read io (out (gpio_val 1 reg_low)) fd h)
  read_ioctl (out (gpio_val (suc zero) reg_high)) io fd h =
      ap ok (call_read io (out (gpio_val 1 reg_high)) fd h)
  read_ioctl (out (gpio_en zero reg_high)) io fd h = absurd h
  read_ioctl (out (gpio_en (suc (suc bank)) sel)) io fd h = absurd h
  read_ioctl (out (gpio_val (suc (suc bank)) sel)) io fd h = absurd (omega arith)

  write_ioctl :
      (o : Output) (v : ℕ) (io : Io b)
      → io.fd_valid ≡ true
      → IsWritable o
      → write (io_utils b) ioctl o v io ≡ ok (record io { dev = b.poke io.dev (output_offset o) v })
  unfolding write_led write_hex write_gpio_en write_gpio_val
  write_ioctl led v io fd h = ap ok (call_write io led v fd tt)
  write_ioctl (hex n) v io fd h =
      let next : 5 + 2 * n ≡ 4 + 2 * n + 1 = omega arith in
      rw (lt→ltb n 6 h, next) (ap ok (call_write io (hex n) v fd h))
  write_ioctl (gpio_en zero reg_low) v io fd h = ap ok (call_write io (gpio_en 0 reg_low) v fd tt)
  write_ioctl (gpio_val zero reg_low) v io fd h = ap ok (call_write io (gpio_val 0 reg_low) v fd tt)
  write_ioctl (gpio_val zero reg_high) v io fd h =
      ap ok (call_write io (gpio_val 0 reg_high) v fd tt)
  write_ioctl (gpio_en zero reg_high) v io fd h = absurd h
  write_ioctl (gpio_en (suc bank) sel) v io fd h = absurd h
  write_ioctl (gpio_val (suc bank) sel) v io fd h = absurd h

-- With a driver that does what the names of the requests say, the device open and mapped, a read
-- through `ioctl` and one through the mapping are the same for each register but the second enable
-- register of bank 0, and a write for each register of those but the pins of bank 1.
pub ioctl_agrees :
    (b : Board) (io : Io b)
    → IsDriver b
    → io.fd_valid ≡ true
    → io.ioctrls ≡ Pointer.valid
    → ((r : Reg) → IsNumbered r → read (io_utils b) ioctl r io ≡ read (io_utils b) mmap r io)
      × ((o : Output) (v : ℕ)
          → IsWritable o
          → write (io_utils b) ioctl o v io ≡ write (io_utils b) mmap o v io)
ioctl_agrees b io driver fd valid = (
  (λ r h. read_ioctl b driver r io fd h ∙ sym (mmap_read b r io (numbered-IsReg r h) valid)),
  (λ o v h.
      write_ioctl b driver o v io fd h ∙ sym (mmap_write b o v io (writable-IsOutput o h) valid)),
)
