-- ===== src/Trap.antt =====
-- kern/trap/trap.c and the clock of kern/driver/clock.c. The kernel is built without DEBUG_GRADE.
-- `inst` gives the 16 bits at an address, `cycles` is the answer of `get_cycles`.
pub mod Ticks
pub mod Frame
use Prim.Native.String.{String}
use os_lab.Base.{
  ℕ, ◌+◌, ◌-◌, ◌*◌, ◌/◌, ◌%◌, ◌^◌, Bool, true, false, Option, none, some, List, [], ◌∷◌, ltb, leb,
  ◌==◌, if◌then◌else◌,
}
use os_lab.Proc.{TrapFrame}

-- What a handler does besides: it prints a text, a text with a number, or a trap frame, sets the
-- timer, or shuts the machine down.
pub data Event : Type 0 where
  said : String → Event
  said_of : String → ℕ → Event
  dumped : TrapFrame → Event
  timer_set : ℕ → Event
  shut_down : Event

-- The variables of the clock, and the events so far, the latest first.
pub record Clock : Type 0 where
  pub ticks : ℕ
  pub tick_prints : ℕ
  pub timebase : ℕ
  pub events : List Event

abbrev pub tick_num : ℕ
tick_num = 100

abbrev pub emit : Event → Clock → Clock
emit e s = record s { events = e ∷ s.events }

unfoldable pub clock_set_next_event : ℕ → Clock → Clock
clock_set_next_event cycles s = emit (timer_set ((cycles + s.timebase) % 2 ^ 64)) s

-- The timer interrupt is enabled in `sie` besides.
unfoldable pub clock_init : ℕ → Clock → Clock
clock_init cycles s =
    emit (said "++ setup timer interrupts\n")
      (record (clock_set_next_event cycles (record s { timebase = 100000 })) { ticks = 0 })

unfoldable pub print_ticks : Clock → Clock
print_ticks s = emit (said_of "%d ticks\n" tick_num) s

-- The case IRQ_S_TIMER.
unfoldable pub timer_interrupt : ℕ → Clock → Clock
unfolding clock_set_next_event print_ticks
timer_interrupt cycles s =
    let t = record (clock_set_next_event cycles s) { ticks = (s.ticks + 1) % 2 ^ 64 } in
    let u = record (print_ticks t) { tick_prints = (t.tick_prints + 1) % 2 ^ 64 } in
    if t.ticks % tick_num == 0 then (if u.tick_prints == 10 then emit shut_down u else u) else t

-- The text of the case for a cause, `none` for `default`.
unfoldable pub case_of : ℕ → List (ℕ × String) → Option String
case_of cause [] = none
case_of cause (c ∷ cs) = let rest = case_of cause cs in if c.0 == cause then some c.1 else rest

-- What the other cases of `interrupt_handler` print.
abbrev pub interrupt_texts : List (ℕ × String)
interrupt_texts =
    (0, "User software interrupt\n")
    ∷ (1, "Supervisor software interrupt\n")
    ∷ (2, "Hypervisor software interrupt\n")
    ∷ (3, "Machine software interrupt\n")
    ∷ (4, "User software interrupt\n")
    ∷ (6, "Hypervisor software interrupt\n")
    ∷ (7, "Machine software interrupt\n")
    ∷ (8, "User software interrupt\n")
    ∷ (9, "Supervisor external interrupt\n")
    ∷ (10, "Hypervisor software interrupt\n")
    ∷ (11, "Machine software interrupt\n")
    ∷ []

abbrev pub say_or_dump : Option String → TrapFrame → Clock → Clock
say_or_dump none tf s = emit (dumped tf) s
say_or_dump (some text) tf s = emit (said text) s

unfoldable pub interrupt_handler : ℕ → TrapFrame → Clock → Clock
interrupt_handler cycles tf s =
    let cause = tf.cause * 2 % 2 ^ 64 / 2 in
    if cause == 5
    then timer_interrupt cycles s
    else say_or_dump (case_of cause interrupt_texts) tf s

unfoldable pub advance_pc : (ℕ → ℕ) → ℕ → ℕ
advance_pc inst epc = (if inst epc % 4 == 3 then epc + 4 else epc + 2) % 2 ^ 64

-- What the cases of `exception_handler` print that leave `epc`.
abbrev pub exception_texts : List (ℕ × String)
exception_texts =
    (0, "Instruction address misaligned\n")
    ∷ (1, "Instruction access fault\n")
    ∷ (4, "Load address misaligned\n")
    ∷ (5, "Load access fault\n")
    ∷ (6, "AMO address misaligned\n")
    ∷ (7, "Store/AMO access fault\n")
    ∷ (8, "Environment call from U-mode\n")
    ∷ (9, "Environment call from S-mode\n")
    ∷ (10, "Environment call from H-mode\n")
    ∷ (11, "Environment call from M-mode\n")
    ∷ (12, "Instruction page fault\n")
    ∷ (13, "Load page fault\n")
    ∷ (15, "Store/AMO page fault\n")
    ∷ []

unfoldable pub exception_handler : (ℕ → ℕ) → TrapFrame → Clock → TrapFrame × Clock
exception_handler inst tf s =
    let next = record tf { epc = advance_pc inst tf.epc } in
    if tf.cause == 2
    then (next, emit (said_of "Illegal instruction caught at 0x%08x\n" tf.epc) s)
    else if tf.cause == 3
    then (next, emit (said_of "Breakpoint caught at 0x%08x\n" tf.epc) s)
    else (tf, say_or_dump (case_of tf.cause exception_texts) tf s)

-- `(intptr_t)cause < 0` is the top bit of `cause`.
unfoldable pub trap : (ℕ → ℕ) → ℕ → TrapFrame → Clock → TrapFrame × Clock
trap inst cycles tf s =
    if leb (2 ^ 63) tf.cause
    then (tf, interrupt_handler cycles tf s)
    else exception_handler inst tf s
