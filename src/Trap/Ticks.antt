-- ===== src/Trap/Ticks.antt =====
-- The clock of kern/trap/trap.c over a run of timer interrupts.
use os_lab.Base.{
  ℕ, suc, ◌+◌, ◌/◌, ◌^◌, ◌<◌, ◌≡◌, List, [], ◌∷◌, length, subst, leb, if◌then◌else◌, arith,
}
use os_lab.Proc.{TrapFrame}
use os_lab.Trap.{
  Event, said, said_of, dumped, timer_set, shut_down, Clock, timer_interrupt, interrupt_handler,
  trap, clock_set_next_event, print_ticks,
}

-- How often the machine was shut down.
abbrev pub shut_downs : List Event → ℕ
shut_downs [] = 0
shut_downs (shut_down ∷ es) = suc (shut_downs es)
shut_downs (said _ ∷ es) = shut_downs es
shut_downs (said_of _ _ ∷ es) = shut_downs es
shut_downs (dumped _ ∷ es) = shut_downs es
shut_downs (timer_set _ ∷ es) = shut_downs es

-- The clock after `m` timer interrupts.
pub record HasTicked (s : Clock) (m : ℕ) : Type 0 where
  pub ticks : s.ticks ≡ m
  pub prints : s.tick_prints ≡ m / 100
  pub downs : shut_downs s.events ≡ (if leb 1000 m then 1 else 0)

timer_interrupt-HasTicked :
    (cycles m : ℕ) (s : Clock)
    → m + 1 < 2 ^ 64
    → HasTicked s m
    → HasTicked (timer_interrupt cycles s) (m + 1)
unfolding timer_interrupt clock_set_next_event print_ticks
timer_interrupt-HasTicked cycles m s l h = record {
  ticks = ground (arith, h.ticks);
  prints = ground (arith, h.ticks, h.prints);
  downs = ground (arith, h.ticks, h.prints, h.downs);
}

trap_timer :
    (inst : ℕ → ℕ) (cycles : ℕ) (tf : TrapFrame) (s : Clock)
    → tf.cause ≡ 2 ^ 63 + 5
    → trap inst cycles tf s ≡ (tf, timer_interrupt cycles s)
unfolding trap interrupt_handler
trap_timer inst cycles tf s c = rw c

-- One timer interrupt after another, with what `get_cycles` answers in each.
unfoldable pub timer_run : (ℕ → ℕ) → TrapFrame → List ℕ → Clock → Clock
timer_run inst tf [] s = s
timer_run inst tf (cycles ∷ cs) s = timer_run inst tf cs (trap inst cycles tf s).1

timer_run-HasTicked :
    (inst : ℕ → ℕ) (tf : TrapFrame) (cs : List ℕ) (m : ℕ) (s : Clock)
    → tf.cause ≡ 2 ^ 63 + 5
    → m + length cs < 2 ^ 64
    → HasTicked s m
    → HasTicked (timer_run inst tf cs s) (m + length cs)
unfolding timer_run
timer_run-HasTicked inst tf [] m s c l h = subst (λ k. HasTicked s k) (omega arith) h
timer_run-HasTicked inst tf (cycles ∷ cs) m s c l h = rw (trap_timer inst cycles tf s c) (
    subst (λ k. HasTicked (timer_run inst tf cs (timer_interrupt cycles s)) k) (omega arith)
      (timer_run-HasTicked inst tf cs (m + 1) (timer_interrupt cycles s) c (omega arith)
        (timer_interrupt-HasTicked cycles m s (omega arith) h)))

-- After any number of timer interrupts below 2^64, from a clock at 0 that has not shut the machine
-- down: `ticks` counts them, `tick_prints` every hundredth, and the machine was shut down
-- once if there were 1000 of them, and else not at all.
pub timer_run-lem :
    (inst : ℕ → ℕ) (tf : TrapFrame) (cs : List ℕ) (s : Clock)
    → tf.cause ≡ 2 ^ 63 + 5
    → length cs < 2 ^ 64
    → s.ticks ≡ 0
    → s.tick_prints ≡ 0
    → shut_downs s.events ≡ 0
    → HasTicked (timer_run inst tf cs s) (length cs)
timer_run-lem inst tf cs s c l t p d =
    subst (λ k. HasTicked (timer_run inst tf cs s) k) (omega arith)
      (timer_run-HasTicked inst tf cs 0 s c (omega arith)
        (record { ticks = t; prints = p; downs = d }))
