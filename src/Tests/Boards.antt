-- ===== src/Tests/Boards.antt =====
-- The theorems about the registers and the control task, on a board whose registers are memory.
use ptr24_lab.Prelude.{ℕ, ◌≡◌, refl, true, false, ◌&&◌, [], ◌∷◌, ◌++◌, ok, ◌==◌, arith}
use ptr24_lab.Io.Board.{Io, Pointer, reg_high, ioctl, mmap}
use ptr24_lab.Io.Setup.{Answers}
use ptr24_lab.Io.Hex.{read_hex, write_hex}
use ptr24_lab.Io.Gpio.{write_gpio_en, write_gpio_val}
use ptr24_lab.Io.Interface.{Output, Reg}
use ptr24_lab.Io.Registers.{write_reg}
use ptr24_lab.Io.Interface.{IoUtils, IsRegisterFile, keys, switches}
use ptr24_lab.Io.Refinement.{io_utils, Mapped, word, mmap-IsRegisterFile}
use ptr24_lab.Io.Interface.{read, write}
use ptr24_lab.Io.Driver.{IsNumbered, IsWritable, ioctl_agrees}
use ptr24_lab.Io.Requests.{IsPin, write_gpio_ioctl_ignored, write_hex_past_end}
use ptr24_lab.Control.Task.{CtlData, control_round, ioctl_ctl_task}
use ptr24_lab.Control.Laws.{Shows, control_round_lem, ioctl_ctl_task_stops}
use ptr24_lab.Tests.Devices.{
  memory_board, memory_board-IsMemory, memory_board-ReadsOnly, memory_board-IsDriver, board_at,
  flags, flags-IsGroup,
}

abbrev utils : IoUtils
utils = io_utils memory_board

utils-IsRegisterFile : IsRegisterFile utils mmap (Mapped memory_board) (word memory_board)
utils-IsRegisterFile = mmap-IsRegisterFile memory_board memory_board-IsMemory

mmap-IsRegisterFile_example :
    IsRegisterFile (io_utils memory_board) mmap (Mapped memory_board) (word memory_board)
mmap-IsRegisterFile_example = mmap-IsRegisterFile memory_board memory_board-IsMemory

abbrev bare : Io memory_board
bare = record { fd_valid = false; ioctrls = Pointer.null; dev = λ i. 0 }

abbrev idle : CtlData flags
idle = record { control_event = λ m. false; audio_on = false; video_on = false; running = true }

abbrev unmapped : Answers
unmapped = record { task_starts = true; opens = true; maps = false }

write_gpio_ioctl_ignored_example :
    (write_gpio_en memory_board ioctl 1 reg_high 255 (board_at 3 0) ≡ ok (board_at 3 0))
    × (write_gpio_val memory_board ioctl 1 reg_high 255 (board_at 3 0) ≡ ok (board_at 3 0))
write_gpio_ioctl_ignored_example =
    write_gpio_ioctl_ignored memory_board memory_board-ReadsOnly reg_high 255 (board_at 3 0)

write_hex_past_end_example :
    (write_hex memory_board ioctl 9 1 (board_at 3 0) ≡ ok (board_at 3 0))
    × (read_hex memory_board ioctl 9 (board_at 3 0) ≡ ok (0, board_at 3 0))
    × ((o : Output) × IsPin o
        × (write_hex memory_board mmap 9 1 (board_at 3 0)
            ≡ write_reg memory_board o 1 (board_at 3 0)))
write_hex_past_end_example =
    write_hex_past_end memory_board 9 1 (board_at 3 0) (omega arith) (omega arith)

-- Switches 0 and 9 are up.
control_round_lem_example :
    (next : CtlData flags) × (control_round flags utils (board_at 513 0) idle ≡ ok next)
    × Shows flags (word memory_board (board_at 513 0) switches) next
    × (next.running ≡ (word memory_board (board_at 513 0) keys == 0 && idle.running))
control_round_lem_example =
    control_round_lem flags flags-IsGroup utils (Mapped memory_board) (word memory_board)
      utils-IsRegisterFile (board_at 513 0) idle refl

-- The third key is pressed in the third round.
ioctl_ctl_task_stops_example :
    (end : CtlData flags) × (ioctl_ctl_task flags utils
        ((board_at 1 0 ∷ board_at 2 0 ∷ []) ++ board_at 257 4 ∷ board_at 0 0 ∷ [])
        idle
      ≡ ok end)
    × (end.running ≡ false)
    × Shows flags (word memory_board (board_at 257 4) switches) end
ioctl_ctl_task_stops_example =
    ioctl_ctl_task_stops flags flags-IsGroup utils (Mapped memory_board) (word memory_board)
      utils-IsRegisterFile (board_at 1 0 ∷ board_at 2 0 ∷ []) (board_at 257 4) (board_at 0 0 ∷ [])
      idle (refl, refl, (refl, refl, tt)) refl refl (omega arith)

ioctl_agrees_example :
    ((r : Reg)
      → IsNumbered r
      → read utils ioctl r (board_at 3 0) ≡ read utils mmap r (board_at 3 0))
    × ((o : Output) (v : ℕ)
        → IsWritable o
        → write utils ioctl o v (board_at 3 0) ≡ write utils mmap o v (board_at 3 0))
ioctl_agrees_example = ioctl_agrees memory_board (board_at 3 0) memory_board-IsDriver refl refl
