-- ===== src/Proc/Switch/Elect.antt =====
-- The choice of `schedule` in kern/schedule/sched.c: round robin over `proc_list`.
use native.Mathlib.Decide.{ℕ_discrete}
use mathlib.Core.List.{append-nil, append_assoc}
use os_lab.Base.{
  ℕ, zero, suc, ◌+◌, ◌/◌, ◌%◌, ◌^◌, ◌<◌, ◌≡◌, ◌≢◌, refl, sym, subst, ◌∙◌, inl, inr, Bool, false,
  ◌==◌, has, has-append, Distinct-remove, length, length-append, if◌then◌else◌, List, [], ◌∷◌, ◌++◌,
  ok, arith, Bool-cases,
}
use os_lab.Links.{Links, update}
use os_lab.Links.Chain.{Chain, Ring}
use os_lab.Proc.{Kernel, is_runnable}
use os_lab.Proc.Switch.{
  choose, or_idle, schedule, dispatch, proc_run, intr_save, intr_restore, lsatp, switch_to, resume,
}

-- Whatever the page directory, the value that `lsatp` writes has 0 in the MODE field of a 64-bit
-- `satp`, its four highest bits: it turns translation off in place of selecting Sv39, which is 8.
lsatp_bare : (pgdir : ℕ) → lsatp pgdir / 2 ^ 60 ≡ 0
unfolding lsatp
lsatp_bare pgdir = omega arith

-- The first runnable process of a sequence, or the idle process.
unfoldable pub elect : Kernel → List ℕ → ℕ
elect s [] = s.idleproc
elect s (x ∷ xs) = if is_runnable (s.proc x).state then x else elect s xs

-- The addresses that the `next` pointers visit.
abbrev Follows : Links → ℕ → List ℕ → Type 0
Follows h le [] = Unit
Follows h le (y ∷ ys) = (h.next le ≡ y) × Follows h y ys

Follows-Chain :
    (h : Links) (a b : ℕ) (xs ys : List ℕ)
    → Chain h a xs b
    → Follows h b ys
    → Follows h a (xs ++ b ∷ ys)
Follows-Chain h a b [] ys c f = (c.0, f)
Follows-Chain h a b (x ∷ xs) ys c f = (c.0.0, Follows-Chain h x b xs ys c.1 f)

-- The head of the list counts for nothing.
abbrev visit : Kernel → List ℕ → ℕ
visit s [] = s.idleproc
visit s (y ∷ ys) =
    if y == 0 then visit s ys else if is_runnable (s.proc y).state then y else visit s ys

visit-elect : (s : Kernel) (xs : List ℕ) → has 0 xs ≡ false → visit s xs ≡ elect s xs
unfolding elect
visit-elect s [] d = refl
visit-elect s (x ∷ xs) d = ground (arith, visit-elect s xs)

visit-append :
    (s : Kernel) (xs ys : List ℕ) → has 0 xs ≡ false → visit s (xs ++ 0 ∷ ys) ≡ visit s (xs ++ ys)
visit-append s [] ys d = refl
visit-append s (x ∷ xs) ys d = ground (arith, visit-append s xs ys)

-- The loop visits the addresses up to `last` and stops at the first runnable process.
choose-visit :
    (fuel last le next : ℕ) (s : Kernel) (ys : List ℕ)
    → Follows s.links le (ys ++ last ∷ [])
    → has last ys ≡ false
    → or_idle next s ≡ s.idleproc
    → length ys < fuel
    → (n : ℕ) × (choose fuel last le next s ≡ ok n) × (or_idle n s ≡ visit s (ys ++ last ∷ []))
unfolding choose
choose-visit zero last le next s ys c d i f = absurd (omega arith)
choose-visit (suc fuel) last le next s [] c d i f = elim (Bool-cases (last == 0)) [
  | inl head ↦ (next, ground arith, ground arith)
  | inr entry ↦ (last, ground arith, ground arith)
]
choose-visit (suc fuel) last le next s (y ∷ ys) c d i f =
    let ne : (y == last) ≡ false = ground arith in
    elim (Bool-cases (y == 0)) [
      | inl head ↦
          let (n, run, e) = choose-visit fuel last y next s ys c.1 (ground arith) i (omega arith) in
          (n, rw (c.0, head, ne) run, rw head e)
      | inr entry ↦ elim (Bool-cases (is_runnable (s.proc y).state)) [
        | inl hit ↦ (y, rw (c.0, entry, hit) refl, ground arith)
        | inr miss ↦
            let (n, run, e) =
              choose-visit fuel last y y s ys c.1 (ground arith) (ground arith) (omega arith) in
            (n, rw (c.0, entry, miss, ne) run, rw (entry, miss) e)
      ]
    ]

-- What a call of `schedule` in the state `s` that chooses `n` comes to.
pub record Scheduled (s : Kernel) (r : List Bool × Kernel) (n : ℕ) : Type 0 where
  pub current : r.1.current ≡ n
  pub runs : (r.1.proc n).runs ≡ ((s.proc n).runs + 1) % 2 ^ 32
  pub cleared : (r.1.proc s.current).need_resched ≡ false
  pub states : (p : ℕ) → (r.1.proc p).state ≡ (s.proc p).state
  pub same_links : r.1.links ≡ s.links
  pub same_idle : r.1.idleproc ≡ s.idleproc
  pub stays : n ≡ s.current → r.1.sstatus_sie ≡ s.sstatus_sie
  pub saved : n ≢ s.current → (r.1.proc s.current).context ≡ s.cpu
  pub loaded : n ≢ s.current → r.1.cpu ≡ (s.proc n).context
  pub masked : n ≢ s.current → r.1.sstatus_sie ≡ false
  pub resumed :
      n ≢ s.current
      → (u : Kernel) → u.sstatus_sie ≡ false
      → (resume r.0 u).sstatus_sie ≡ s.sstatus_sie

-- The state in which `schedule` looks for a process.
abbrev entered : Kernel → Kernel
entered s = record s {
  sstatus_sie = false;
  proc = update s.proc s.current (record (s.proc s.current) { need_resched = false });
}

intr_save-lem : (s : Kernel) → intr_save s ≡ (s.sstatus_sie, record s { sstatus_sie = false })
unfolding intr_save
intr_save-lem s = ground arith

dispatch-stays : (s : Kernel) → Scheduled s (dispatch s.sstatus_sie s.current (entered s)) s.current
unfolding dispatch intr_restore
dispatch-stays s = record {
  current = ground arith;
  runs = ground arith;
  cleared = ground arith;
  states = λ p. ground arith;
  same_links = ground arith;
  same_idle = ground arith;
  stays = λ _. ground arith;
  saved = λ ne. absurd (ne refl);
  loaded = λ ne. absurd (ne refl);
  masked = λ ne. absurd (ne refl);
  resumed = λ ne. absurd (ne refl);
}

dispatch-switches :
    (s : Kernel) (n : ℕ) → n ≢ s.current → Scheduled s (dispatch s.sstatus_sie n (entered s)) n
unfolding dispatch proc_run switch_to intr_save resume intr_restore
dispatch-switches s n ne = record {
  current = ground arith;
  runs = ground arith;
  cleared = ground arith;
  states = λ p. ground arith;
  same_links = ground arith;
  same_idle = ground arith;
  stays = λ e. absurd (ne e);
  saved = λ _. ground arith;
  loaded = λ _. ground arith;
  masked = λ _. ground arith;
  resumed = λ _ u off. ground arith;
}

dispatch-Scheduled : (s : Kernel) (n : ℕ) → Scheduled s (dispatch s.sstatus_sie n (entered s)) n
dispatch-Scheduled s n = elim (ℕ_discrete n s.current) [
  | yes e ↦
      subst (λ k. Scheduled s (dispatch s.sstatus_sie k (entered s)) k) (sym e) (dispatch-stays s)
  | no ne ↦ dispatch-switches s n ne
]

elect-entered : (s : Kernel) (xs : List ℕ) → elect (entered s) xs ≡ elect s xs
unfolding elect
elect-entered s [] = refl
elect-entered s (x ∷ xs) = ground (arith, elect-entered s xs)

schedule-choose :
    (fuel last : ℕ) (s : Kernel) (ys xs : List ℕ)
    → (if s.current == s.idleproc then 0 else s.current) ≡ last
    → Follows s.links last (ys ++ last ∷ [])
    → has last ys ≡ false
    → length ys < fuel
    → visit (entered s) (ys ++ last ∷ []) ≡ elect s xs
    → (r : List Bool × Kernel) × (schedule fuel s ≡ ok r) × Scheduled s r (elect s xs)
unfolding schedule
schedule-choose fuel last s ys xs l c d f v =
    let (n, run, e) = choose-visit fuel last last 0 (entered s) ys c d refl f in
    (
      dispatch s.sstatus_sie (elect s xs) (entered s),
      rw (intr_save-lem s, l, run, e, v) refl,
      dispatch-Scheduled s (elect s xs),
    )

Chain-split :
    (h : Links) (a b e : ℕ) (xs ys : List ℕ)
    → Chain h a (xs ++ e ∷ ys) b
    → Chain h a xs e × Chain h e ys b
Chain-split h a b e [] ys c = c
Chain-split h a b e (x ∷ xs) ys c =
    let (front, back) = Chain-split h x b e xs ys c.1 in ((c.0, front), back)

-- Called by the idle process, with fuel above the number of processes, `schedule` returns: it runs
-- the first runnable process of the list, or goes on with the idle process.
pub schedule-idle :
    (fuel : ℕ) (s : Kernel) (xs : List ℕ)
    → Ring s.links 0 xs
    → s.current ≡ s.idleproc
    → length xs < fuel
    → (r : List Bool × Kernel) × (schedule fuel s ≡ ok r) × Scheduled s r (elect s xs)
schedule-idle fuel s xs r i f =
    schedule-choose fuel 0 s xs xs (ground arith) (Follows-Chain s.links 0 0 xs [] r.chain tt)
      r.distinct.0 f
      (visit-append (entered s) xs [] r.distinct.0
        ∙ (rw append-nil (visit-elect (entered s) xs r.distinct.0))
        ∙ elect-entered s xs)

-- Called by a process of the list, with fuel above the number of processes, `schedule` returns: it
-- runs the first runnable process behind the caller, then from the front of the list up to the
-- caller itself, or else the idle process.
pub schedule-round :
    (fuel : ℕ) (s : Kernel) (ws zs : List ℕ)
    → Ring s.links 0 (ws ++ s.current ∷ zs)
    → s.current ≢ s.idleproc
    → length (ws ++ s.current ∷ zs) < fuel
    → (r : List Bool × Kernel) × (schedule fuel s ≡ ok r)
      × Scheduled s r (elect s (zs ++ (ws ++ s.current ∷ [])))
schedule-round fuel s ws zs r i f =
    let cur = s.current in
    let (front, back) = Chain-split s.links 0 0 cur ws zs r.chain in
    let (apart, once) = Distinct-remove cur ws zs r.distinct.1 in
    let no_head : has 0 (zs ++ (ws ++ cur ∷ [])) ≡ false = ground (
      arith,
      has-append 0 ws (cur ∷ zs),
      has-append 0 zs (ws ++ cur ∷ []),
      has-append 0 ws (cur ∷ []),
      r.distinct.0,
    ) in
    let ne : (cur == 0) ≡ false = ground (arith, has-append 0 ws (cur ∷ zs), r.distinct.0) in
    let path =
      Follows-Chain s.links cur 0 zs (ws ++ cur ∷ []) back
        (Follows-Chain s.links 0 cur ws [] front tt) in
    schedule-choose fuel cur s (zs ++ 0 ∷ ws) (zs ++ (ws ++ cur ∷ [])) (ground arith)
      (rw append_assoc path)
      (ground (arith, has-append cur zs (0 ∷ ws), has-append cur ws zs, once, ne))
      (omega (arith, length-append zs (0 ∷ ws), length-append ws (cur ∷ zs), f))
      (rw append_assoc (
        visit-append (entered s) zs (ws ++ cur ∷ [])
          (ground (arith, has-append 0 zs (ws ++ cur ∷ [])))
        ∙ visit-elect (entered s) (zs ++ (ws ++ cur ∷ [])) no_head
        ∙ elect-entered s (zs ++ (ws ++ cur ∷ []))))
