-- ===== src/Io/Board.antt =====
-- The board as the code sees it, the offsets of io_utils.h and the request numbers of common.h.
use ptr24_lab.Prelude.{
  ℕ, ◌+◌, ◌^◌, ◌<◌, ◌≤◌, ◌≡◌, ◌⊎◌, Bool, false, Outcome, ok, fault, leb, if◌then◌else◌,
}

-- `_IOR(class, nr, int)` and `_IOW(class, nr, int)`.
pub data Request : Type 0 where
  ior : ℕ → ℕ → Request
  iow : ℕ → ℕ → Request

-- The device behind the mapping and the driver, which the code does not implement. `peek` and `poke`
-- are a load and a store of the word at a byte offset of the mapping; `request` takes the word that
-- the argument of `ioctl` points to, and gives it back as the driver leaves it.
pub record Board : Type 1 where
  pub Dev : Type 0
  pub peek : Dev → ℕ → ℕ
  pub poke : Dev → ℕ → ℕ → Dev
  pub request : Dev → Request → ℕ → ℕ × Dev

-- The mapped registers keep the words that are stored in them, and a store changes no word apart
-- from it.
pub record IsMemory (b : Board) : Type 0 where
  pub peek-poke_self : (d : b.Dev) (at v : ℕ) → v < 2 ^ 32 → b.peek (b.poke d at v) at ≡ v
  pub peek-poke_apart :
      (d : b.Dev) (at to v : ℕ)
      → (at + 4 ≤ to) ⊎ (to + 4 ≤ at)
      → b.peek (b.poke d at v) to ≡ b.peek d to

-- A request by `_IOR` reads: the device stays as it is.
abbrev pub ReadsOnly : Board → Type 0
ReadsOnly b = (d : b.Dev) (class nr v : ℕ) → (b.request d (Request.ior class nr) v).1 ≡ d

pub data AccessType : Type 0 where
  ioctl mmap : AccessType

pub data RegSel : Type 0 where
  reg_low reg_high : RegSel

-- A `RegSel` as a number.
abbrev pub sel_index : RegSel → ℕ
sel_index RegSel.reg_low = 0
sel_index RegSel.reg_high = 1

abbrev pub reg_size : ℕ
reg_size = 4

abbrev pub io_switch : ℕ
io_switch = 0x0

abbrev pub io_keys : ℕ
io_keys = 0x4

abbrev pub io_leds : ℕ
io_leds = 0x8

abbrev pub io_hex0 : ℕ
io_hex0 = 0xc

abbrev pub gpio_bank_size : ℕ
gpio_bank_size = 0x10

abbrev pub io_gpio_en_b0_0 : ℕ
io_gpio_en_b0_0 = 0x24

abbrev pub io_gpio_val_b0_0 : ℕ
io_gpio_val_b0_0 = 0x2c

-- The size of the mapping.
abbrev pub map_size : ℕ
map_size = 4096

abbrev pub rtdm_class_misc : ℕ
rtdm_class_misc = 223

abbrev pub read_request : ℕ → Request
read_request nr = Request.ior rtdm_class_misc nr

abbrev pub write_request : ℕ → Request
write_request nr = Request.iow rtdm_class_misc nr

-- `ioctrls`: never set, `MAP_FAILED`, or the address of the mapping.
pub data Pointer : Type 0 where
  null map_failed valid : Pointer

-- The variables `rtioctl_fd` and `ioctrls`, the first as whether it is open, and the device.
pub record Io (b : Board) : Type 0 where
  pub fd_valid : Bool
  pub ioctrls : Pointer
  pub dev : b.Dev

-- An access at an offset is in bounds if `ioctrls` points to the mapping and the word lies in it.
abbrev pub in_bounds : Pointer → ℕ → Bool
in_bounds Pointer.valid at = leb (at + reg_size) map_size
in_bounds Pointer.null at = false
in_bounds Pointer.map_failed at = false

module _ (b : Board) where
  -- `*((unsigned *)(ioctrls + at))`.
  abbrev pub load_reg : Io b → ℕ → Outcome ℕ
  load_reg io at = if in_bounds io.ioctrls at then ok (b.peek io.dev at) else fault

  -- `*((unsigned *)(ioctrls + at)) = value`.
  abbrev pub store_reg : Io b → ℕ → ℕ → Outcome (Io b)
  store_reg io at value =
      if in_bounds io.ioctrls at then ok (record io { dev = b.poke io.dev at value }) else fault

  -- `ioctl(rtioctl_fd, r, &value)`: on a descriptor that is not open it fails, and the code goes on
  -- with the value that it had.
  abbrev pub call : Io b → Request → ℕ → ℕ × Io b
  call io r value =
      let (value', dev') = b.request io.dev r value in
      if io.fd_valid then (value', record io { dev = dev' }) else (value, io)
