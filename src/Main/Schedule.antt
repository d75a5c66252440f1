-- ===== src/Main/Schedule.antt =====
-- The priorities and the periods of the tasks.
use ptr24_lab.Prelude.{ℕ, ◌*◌, ◌/◌, ◌<◌, ◌≡◌, arith}
use ptr24_lab.Audio.Period.{s_in_ns}
use ptr24_lab.Main.Run.{Task, control, acquisition, treatment, monitoring, video}

abbrev ctl_task_period : ℕ
ctl_task_period = 100000000

abbrev ctl_task_priority : ℕ
ctl_task_priority = 50

abbrev video_ack_task_priority : ℕ
video_ack_task_priority = 50

-- That of the two filter tasks.
abbrev video_task_priority : ℕ
video_task_priority = 40

-- With which `main` starts each task.
abbrev pub priority : Task → ℕ
priority control = ctl_task_priority
priority acquisition = 50
priority treatment = 50
priority monitoring = 50
priority video = video_ack_task_priority

abbrev framerate : ℕ
framerate = 15

unfoldable video_period_in_ns : ℕ
video_period_in_ns = s_in_ns / framerate

-- Each task that `main` starts goes before the filters.
filters_yield : (t : Task) → video_task_priority < priority t
filters_yield control = omega arith
filters_yield acquisition = omega arith
filters_yield treatment = omega arith
filters_yield monitoring = omega arith
filters_yield video = omega arith

-- For up to 6666665 seconds, the control task has ten periods in each, and the video task just as many
-- as the rate of the frames says, although its period is cut to whole nanoseconds.
periods_in_time :
    (n : ℕ)
    → n < 6666666
    → (n * s_in_ns / ctl_task_period ≡ 10 * n) × (n * s_in_ns / video_period_in_ns ≡ framerate * n)
unfolding video_period_in_ns
periods_in_time n h = (omega arith, omega (arith, h))
