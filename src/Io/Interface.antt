-- ===== src/Io/Interface.antt =====
-- io_utils.h: the calls that the rest of the program has, over any state, and what they promise. The
-- keys, the switches and each register that can be written hold a word of their own.
use ptr24_lab.Prelude.{ℕ, ◌^◌, ◌<◌, ◌≡◌, ◌≢◌, Bool, Outcome, ok}
use ptr24_lab.Io.Board.{AccessType, RegSel}

-- The registers that the code writes.
pub data Output : Type 0 where
  led : Output
  hex : ℕ → Output
  gpio_en : ℕ → RegSel → Output
  gpio_val : ℕ → RegSel → Output

-- The registers that the code reads.
pub data Reg : Type 0 where
  keys switches : Reg
  out : Output → Reg

-- Six digits and two banks.
abbrev pub IsOutput : Output → Type 0
IsOutput led = Unit
IsOutput (hex n) = n < 6
IsOutput (gpio_en bank sel) = bank < 2
IsOutput (gpio_val bank sel) = bank < 2

abbrev pub IsReg : Reg → Type 0
IsReg keys = Unit
IsReg switches = Unit
IsReg (out o) = IsOutput o

-- The calls. `clear_ioctl` says whether the program goes on after it.
pub record IoUtils : Type 1 where
  pub State : Type 0
  pub Answers : Type 0
  pub init_ioctl : Answers → State → ℕ × State
  pub clear_ioctl : State → Bool × State
  pub read_key : AccessType → State → Outcome (ℕ × State)
  pub read_switch : AccessType → State → Outcome (ℕ × State)
  pub write_led : AccessType → ℕ → State → Outcome State
  pub read_led : AccessType → State → Outcome (ℕ × State)
  pub write_hex : AccessType → ℕ → ℕ → State → Outcome State
  pub read_hex : AccessType → ℕ → State → Outcome (ℕ × State)
  pub write_gpio_en : AccessType → ℕ → RegSel → ℕ → State → Outcome State
  pub read_gpio_en : AccessType → ℕ → RegSel → State → Outcome (ℕ × State)
  pub write_gpio_val : AccessType → ℕ → RegSel → ℕ → State → Outcome State
  pub read_gpio_val : AccessType → ℕ → RegSel → State → Outcome (ℕ × State)

module _ (u : IoUtils) (access : AccessType) where
  abbrev pub write : Output → ℕ → u.State → Outcome u.State
  write led value s = u.write_led access value s
  write (hex n) value s = u.write_hex access n value s
  write (gpio_en bank sel) value s = u.write_gpio_en access bank sel value s
  write (gpio_val bank sel) value s = u.write_gpio_val access bank sel value s

  abbrev pub read : Reg → u.State → Outcome (ℕ × u.State)
  read keys s = u.read_key access s
  read switches s = u.read_switch access s
  read (out led) s = u.read_led access s
  read (out (hex n)) s = u.read_hex access n s
  read (out (gpio_en bank sel)) s = u.read_gpio_en access bank sel s
  read (out (gpio_val bank sel)) s = u.read_gpio_val access bank sel s

  -- With `Ready` for the states that are set up and `view` for the word of each register: a read
  -- shows the word and changes nothing; a write of a 32-bit word changes it at one register.
  pub record IsRegisterFile (Ready : u.State → Type 0) (view : u.State → Reg → ℕ) : Type 0 where
    pub read-view : (s : u.State) (r : Reg) → Ready s → IsReg r → read r s ≡ ok (view s r, s)
    pub write-view :
        (s : u.State) (o : Output) (v : ℕ)
        → Ready s
        → IsOutput o
        → v < 2 ^ 32
        → (t : u.State) × (write o v s ≡ ok t)
          × Ready t
          × (view t (out o) ≡ v)
          × ((r : Reg) → IsReg r → out o ≢ r → view t r ≡ view s r)
