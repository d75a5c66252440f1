-- ===== src/Io/Refinement.antt =====
-- io_utils.c against the promises of io_utils.h: the calls through the mapping, on a board whose mapped
-- registers keep what is stored in them.
use ptr24_lab.Prelude.{ℕ, ◌≡◌, refl, ok, ◌∙◌}
use ptr24_lab.Io.Board.{Board, IsMemory, Io, Pointer, mmap}
use ptr24_lab.Io.Setup.{Answers, init_ioctl, clear_ioctl}
use ptr24_lab.Io.Simple.{read_key, read_switch, read_led, write_led}
use ptr24_lab.Io.Hex.{read_hex, write_hex}
use ptr24_lab.Io.Gpio.{read_gpio_en, write_gpio_en, read_gpio_val, write_gpio_val}
use ptr24_lab.Io.Interface.{
  IoUtils, IsRegisterFile, Reg, keys, switches, out, Output, led, hex, gpio_en, gpio_val, IsReg,
  IsOutput, read, write,
}
use ptr24_lab.Io.Registers.{
  offset, output_offset, read_reg, write_reg, read_reg-peek, write_reg-poke, offset_apart,
}

module _ (b : Board) where
  -- The calls of io_utils.c.
  abbrev pub io_utils : IoUtils
  io_utils = record {
    State = Io b;
    Answers = Answers;
    init_ioctl = init_ioctl b;
    clear_ioctl = clear_ioctl b;
    read_key = read_key b;
    read_switch = read_switch b;
    write_led = write_led b;
    read_led = read_led b;
    write_hex = write_hex b;
    read_hex = read_hex b;
    write_gpio_en = write_gpio_en b;
    read_gpio_en = read_gpio_en b;
    write_gpio_val = write_gpio_val b;
    read_gpio_val = read_gpio_val b;
  }

  same_read : (r : Reg) (io : Io b) → read io_utils mmap r io ≡ read_reg b r io
  same_read keys io = refl
  same_read switches io = refl
  same_read (out led) io = refl
  same_read (out (hex n)) io = refl
  same_read (out (gpio_en bank sel)) io = refl
  same_read (out (gpio_val bank sel)) io = refl

  same_write : (o : Output) (v : ℕ) (io : Io b) → write io_utils mmap o v io ≡ write_reg b o v io
  same_write led v io = refl
  same_write (hex n) v io = refl
  same_write (gpio_en bank sel) v io = refl
  same_write (gpio_val bank sel) v io = refl

  pub mmap_read :
      (r : Reg) (io : Io b)
      → IsReg r
      → io.ioctrls ≡ Pointer.valid
      → read io_utils mmap r io ≡ ok (b.peek io.dev (offset r), io)
  mmap_read r io is ready = same_read r io ∙ read_reg-peek b r io is ready

  pub mmap_write :
      (o : Output) (v : ℕ) (io : Io b)
      → IsOutput o
      → io.ioctrls ≡ Pointer.valid
      → write io_utils mmap o v io ≡ ok (record io { dev = b.poke io.dev (output_offset o) v })
  mmap_write o v io is ready = same_write o v io ∙ write_reg-poke b o v io is ready

-- The mapping is set up.
abbrev pub Mapped : (b : Board) → Io b → Type 0
Mapped b io = io.ioctrls ≡ Pointer.valid

-- The word at the offset of a register.
abbrev pub word : (b : Board) → Io b → Reg → ℕ
word b io r = b.peek io.dev (offset r)

-- Through the mapping, the code has the registers that its header promises: on a board whose mapped
-- words keep what is stored in them, once the mapping is set up, each read of a register shows the
-- word at its offset and changes nothing, and each write of a 32-bit word to a register changes that
-- word and no other register.
pub mmap-IsRegisterFile :
    (b : Board) → IsMemory b → IsRegisterFile (io_utils b) mmap (Mapped b) (word b)
mmap-IsRegisterFile b memory = record {
  read-view = λ io r ready is. mmap_read b r io is ready;
  write-view = λ io o v ready is small. (
    record io { dev = b.poke io.dev (output_offset o) v },
    mmap_write b o v io is ready,
    ready,
    memory.peek-poke_self io.dev (output_offset o) v small,
    (λ r is' ne.
        memory.peek-poke_apart io.dev (output_offset o) (offset r) v (offset_apart o r is is' ne)),
  );
}
