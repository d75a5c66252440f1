-- ===== src/Tests/Devices.antt =====
-- Concrete devices for the parameters of the model: a board whose registers are memory, an event
-- group of Boolean flags, files held in memory, and numbers that stand for `double`.
use ptr24_lab.Prelude.{zero, suc, ◌-◌, ◌/◌, ◌≡◌, ap}
use ptr24_lab.Prelude.{ℕ, ◌+◌, ◌*◌, refl, Bool, true, false, ◌==◌, ltb, if◌then◌else◌, arith}
use ptr24_lab.Io.Board.{Board, IsMemory, ReadsOnly, Request, ior, iow, Io, Pointer}
use ptr24_lab.Io.Board.{reg_low, reg_high}
use ptr24_lab.Io.Interface.{Reg, keys, switches, out, Output, led, hex, gpio_en, gpio_val}
use ptr24_lab.Io.Registers.{offset, output_offset}
use ptr24_lab.Io.Driver.{IsDriver, IsNumbered, IsWritable, reg_number, write_number}
use ptr24_lab.Control.Events.{Events, IsGroup}
use ptr24_lab.Audio.Peak.{Doubles, IsOrdered}

-- The value at one index of a function is replaced.
abbrev pub put {ℓ} : {A : Type ℓ} → (ℕ → A) → ℕ → A → ℕ → A
put f at v i = if i == at then v else f i

-- The offset of the register that a request is for.
abbrev place : ℕ → ℕ
place nr =
    if nr == 0
    then 0
    else if nr == 1
    then 4
    else if ltb nr 4
    then 8
    else if ltb nr 16
    then 12 + (nr - 4) / 2 * 4
    else if ltb nr 18
    then 36
    else if ltb nr 22
    then 44 + (nr - 18) / 2 * 4
    else 52 + (nr - 22) / 2 * 4

abbrev answer : (ℕ → ℕ) → Request → ℕ → ℕ × (ℕ → ℕ)
answer d (ior class nr) v = (d (place nr), d)
answer d (iow class nr) v = (v, put d (place nr) v)

abbrev pub memory_board : Board
memory_board = record { Dev = ℕ → ℕ; peek = λ d at. d at; poke = put; request = answer }

pub memory_board-IsMemory : IsMemory memory_board
memory_board-IsMemory = record {
  peek-poke_self = λ d at v h. ground arith;
  peek-poke_apart = λ d at to v apart. ground arith;
}

pub memory_board-ReadsOnly : ReadsOnly memory_board
memory_board-ReadsOnly d class nr v = refl

place-reg_number : (r : Reg) → IsNumbered r → place (reg_number r) ≡ offset r
place-reg_number keys h = refl
place-reg_number switches h = refl
place-reg_number (out led) h = refl
place-reg_number (out (hex n)) h = ground arith
place-reg_number (out (gpio_en zero reg_low)) h = refl
place-reg_number (out (gpio_en zero reg_high)) h = absurd h
place-reg_number (out (gpio_en (suc zero) reg_low)) h = refl
place-reg_number (out (gpio_en (suc zero) reg_high)) h = refl
place-reg_number (out (gpio_en (suc (suc n)) sel)) h = absurd h
place-reg_number (out (gpio_val zero reg_low)) h = refl
place-reg_number (out (gpio_val zero reg_high)) h = refl
place-reg_number (out (gpio_val (suc zero) reg_low)) h = refl
place-reg_number (out (gpio_val (suc zero) reg_high)) h = refl
place-reg_number (out (gpio_val (suc (suc n)) sel)) h = absurd (omega arith)

place-write_number : (o : Output) → IsWritable o → place (write_number o) ≡ output_offset o
place-write_number led h = refl
place-write_number (hex n) h = ground arith
place-write_number (gpio_en zero reg_low) h = refl
place-write_number (gpio_en zero reg_high) h = absurd h
place-write_number (gpio_en (suc n) sel) h = absurd h
place-write_number (gpio_val zero reg_low) h = refl
place-write_number (gpio_val zero reg_high) h = refl
place-write_number (gpio_val (suc n) sel) h = absurd h

pub memory_board-IsDriver : IsDriver memory_board
memory_board-IsDriver = record {
  reads = λ d r v h. ap (λ (at : ℕ). (d at, d)) (place-reg_number r h);
  writes = λ d o v h. ap (λ (at : ℕ). (v, put d at v)) (place-write_number o h);
}

-- The board with given words of the switches and the keys, open and mapped.
abbrev pub board_at : ℕ → ℕ → Io memory_board
board_at up down = record {
  fd_valid = true;
  ioctrls = Pointer.valid;
  dev = put (put (λ i. 0) 0 up) 4 down;
}

abbrev pub flags : Events
flags = record {
  Group = ℕ → Bool;
  signal = λ g m. put g m true;
  clear = λ g m. put g m false;
  is_set = λ g m. g m;
}

pub flags-IsGroup : IsGroup flags
flags-IsGroup = record {
  set_self = λ g m f. ground arith;
  clear_self = λ g m f. ground arith;
  set_other = λ g m n f f' ne. ground arith;
  clear_other = λ g m n f f' ne. ground arith;
}

abbrev pub naturals : Doubles
naturals = record {
  Real = ℕ;
  Complex = ℕ × ℕ;
  zero_power = 0;
  gt = λ a b. ltb b a;
  add = λ a b. a + b;
  mul = λ a b. a * b;
  real_part = λ c. c.0;
  imaginary_part = λ c. c.1;
}

pub naturals-IsOrdered : IsOrdered naturals
naturals-IsOrdered = record {
  gt_irrefl = λ a. ground arith;
  gt_trans = λ a b c h h'. ground arith;
  gt_weaken = λ a b c h h'. ground arith;
}
