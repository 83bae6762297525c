-- ===== src/Tests/Traps.antt =====
-- The theorems about kern/trap/trap.c at concrete traps.
use os_lab.Base.{ℕ, ◌+◌, ◌^◌, ◌≡◌, refl, [], ◌∷◌, arith}
use os_lab.Proc.{TrapFrame}
use os_lab.Trap.{Clock, trap}
use os_lab.Trap.Ticks.{HasTicked, timer_run, timer_run-lem}
use os_lab.Trap.Frame.{trap-frame}

abbrev frame_with : ℕ → TrapFrame
frame_with cause = record {
  gpr = λ _. 0;
  status = 0;
  epc = 0x80200000;
  badvaddr = 0;
  cause = cause;
}

abbrev clock : Clock
clock = record { ticks = 0; tick_prints = 0; timebase = 100000; events = [] }

-- An `ebreak` of 4 bytes everywhere.
abbrev ebreaks : ℕ → ℕ
ebreaks _ = 0x73

timer_run-lem_example :
    HasTicked (timer_run ebreaks (frame_with (2 ^ 63 + 5)) (10 ∷ 20 ∷ 30 ∷ []) clock) 3
timer_run-lem_example =
    timer_run-lem ebreaks (frame_with (2 ^ 63 + 5)) (10 ∷ 20 ∷ 30 ∷ []) clock refl (omega arith)
      refl refl refl

trap-frame_example :
    (trap ebreaks 7 (frame_with 3) clock).0 ≡ record (frame_with 3) { epc = 0x80200004 }
trap-frame_example = trap-frame ebreaks 7 (frame_with 3) clock
