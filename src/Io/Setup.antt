-- ===== src/Io/Setup.antt =====
-- `init_ioctl` and `clear_ioctl` of io_utils.c.
use ptr24_lab.Prelude.{ℕ, Bool, true, false, ◌&&◌, ◌≡◌, refl, arith, fault, if◌then◌else◌}
use ptr24_lab.Io.Board.{Board, Io, Pointer, load_reg, store_reg}

-- What the system answers: whether the task that runs `init_wrapper` starts, and whether `open` and
-- `mmap` succeed. `mmap` of a descriptor that is not open fails.
pub record Answers : Type 0 where
  pub task_starts : Bool
  pub opens : Bool
  pub maps : Bool

-- `munmap` fails on `MAP_FAILED`.
abbrev pub munmaps : Pointer → Bool
munmaps Pointer.map_failed = false
munmaps Pointer.null = true
munmaps Pointer.valid = true

module _ (b : Board) where
  -- The descriptor is closed again if the mapping fails.
  unfoldable pub init_wrapper : Answers → Io b → Io b
  init_wrapper a io =
      if a.opens && a.maps
      then record io { fd_valid = true; ioctrls = Pointer.valid }
      else record io { fd_valid = false; ioctrls = Pointer.map_failed }

  -- The result is 0 whatever happens.
  unfoldable pub init_ioctl : Answers → Io b → ℕ × Io b
  unfolding init_wrapper
  init_ioctl a io = (0, (if a.task_starts then init_wrapper a io else io))

  -- The result says whether the program goes on: it exits where `munmap` fails.
  unfoldable pub clear_ioctl : Io b → Bool × Io b
  clear_ioctl io = (munmaps io.ioctrls, record io { fd_valid = false; ioctrls = Pointer.null })

  -- If the task for it starts, but the device cannot be opened or mapped, `init_ioctl` reports
  -- success all the same, and the next access through the mapping is undefined, to whatever
  -- register.
  pub init_ioctl_unchecked :
      (a : Answers) (io : Io b)
      → a.task_starts ≡ true
      → (a.opens && a.maps) ≡ false
      → ((init_ioctl a io).0 ≡ 0)
        × ((at : ℕ) → load_reg b (init_ioctl a io).1 at ≡ fault)
        × ((at v : ℕ) → store_reg b (init_ioctl a io).1 at v ≡ fault)
  unfolding init_ioctl
  init_ioctl_unchecked a io t e = (refl, (λ at. ground arith), (λ at v. ground arith))
