-- ===== src/Trap/Frame.antt =====
-- What a trap of kern/trap/trap.c does to the saved registers and to the clock.
use Prim.Native.String.{String}
use os_lab.Base.{
  ℕ, inl, inr, ◌+◌, ◌*◌, ◌/◌, ◌%◌, ◌^◌, ◌<◌, ◌≡◌, ◌≢◌, refl, sym, true, false, Option, none, some,
  leb, ◌==◌, ◌||◌, if◌then◌else◌, arith, Bool-cases,
}
use os_lab.Proc.{TrapFrame}
use os_lab.Trap.{
  Clock, exception_handler, interrupt_handler, trap, advance_pc, say_or_dump, case_of,
  exception_texts, interrupt_texts,
}

advance_pc-lem :
    (inst : ℕ → ℕ) (epc : ℕ)
    → advance_pc inst epc ≡ (epc + (if inst epc % 4 == 3 then 4 else 2)) % 2 ^ 64
unfolding advance_pc
advance_pc-lem inst epc = ground arith

say_or_dump-ticks :
    (t : Option String) (tf : TrapFrame) (s : Clock)
    → ((say_or_dump t tf s).ticks ≡ s.ticks) × ((say_or_dump t tf s).tick_prints ≡ s.tick_prints)
say_or_dump-ticks none tf s = (refl, refl)
say_or_dump-ticks (some x) tf s = (refl, refl)

-- Where execution goes on after a trap: behind the instruction, of 4 or 2 bytes, that was illegal or
-- a breakpoint, and at the saved `epc` after every other trap, interrupts included. The rest of the
-- frame is as it was.
pub trap-frame :
    (inst : ℕ → ℕ) (cycles : ℕ) (tf : TrapFrame) (s : Clock)
    → (trap inst cycles tf s).0 ≡ (
        if tf.cause == 2 || tf.cause == 3
        then record tf { epc = (tf.epc + (if inst tf.epc % 4 == 3 then 4 else 2)) % 2 ^ 64 }
        else tf)
unfolding trap exception_handler
trap-frame inst cycles tf s = elim (Bool-cases (leb (2 ^ 63) tf.cause)) [
  | inl e ↦ rw (e, not_2 e, not_3 e)
  | inr e ↦ elim (Bool-cases (tf.cause == 2)) [
    | inl f ↦ rw (e, f, sym (advance_pc-lem inst tf.epc))
    | inr f ↦ elim (Bool-cases (tf.cause == 3)) [
      | inl g ↦ rw (e, f, g, sym (advance_pc-lem inst tf.epc))
      | inr g ↦ rw (e, f, g)
    ]
  ]
]
  where
    not_2 : leb (2 ^ 63) tf.cause ≡ true → (tf.cause == 2) ≡ false
    not_2 e = ground arith

    not_3 : leb (2 ^ 63) tf.cause ≡ true → (tf.cause == 3) ≡ false
    not_3 e = ground arith

exception_handler-ticks :
    (inst : ℕ → ℕ) (tf : TrapFrame) (s : Clock)
    → ((exception_handler inst tf s).1.ticks ≡ s.ticks)
      × ((exception_handler inst tf s).1.tick_prints ≡ s.tick_prints)
unfolding exception_handler
exception_handler-ticks inst tf s = elim (Bool-cases (tf.cause == 2)) [
  | inl e ↦ rw e (refl, refl)
  | inr e ↦ elim (Bool-cases (tf.cause == 3)) [
    | inl f ↦ rw (e, f) (refl, refl)
    | inr f ↦ rw (e, f) (say_or_dump-ticks (case_of tf.cause exception_texts) tf s)
  ]
]

interrupt_handler-ticks :
    (cycles : ℕ) (tf : TrapFrame) (s : Clock)
    → (tf.cause * 2 % 2 ^ 64 / 2 == 5) ≡ false
    → ((interrupt_handler cycles tf s).ticks ≡ s.ticks)
      × ((interrupt_handler cycles tf s).tick_prints ≡ s.tick_prints)
unfolding interrupt_handler
interrupt_handler-ticks cycles tf s e =
    rw e (say_or_dump-ticks (case_of (tf.cause * 2 % 2 ^ 64 / 2) interrupt_texts) tf s)

-- A trap that is not the supervisor's timer interrupt leaves the counters of the clock.
trap-ticks :
    (inst : ℕ → ℕ) (cycles : ℕ) (tf : TrapFrame) (s : Clock)
    → tf.cause < 2 ^ 64
    → tf.cause ≢ 2 ^ 63 + 5
    → ((trap inst cycles tf s).1.ticks ≡ s.ticks)
      × ((trap inst cycles tf s).1.tick_prints ≡ s.tick_prints)
unfolding trap
trap-ticks inst cycles tf s b n = elim (Bool-cases (leb (2 ^ 63) tf.cause)) [
  | inl e ↦ rw e (interrupt_handler-ticks cycles tf s (ground arith))
  | inr e ↦ rw e (exception_handler-ticks inst tf s)
]
