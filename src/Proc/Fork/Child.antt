-- ===== src/Proc/Fork/Child.antt =====
-- `do_fork` of kern/process/proc.c: the child that it makes, and what it does where it fails.
use os_lab.Base.{
  ℕ, ◌+◌, ◌*◌, ◌≤◌, ◌<◌, ◌≡◌, ◌≢◌, refl, ap, ◌∙◌, ◌⊎◌, inl, inr, true, false, ◌||◌, leb, ◌==◌, has,
  length, map, List, [], ◌∷◌, if◌then◌else◌, ok, pos, negate, arith, Bool-cases,
}
use os_lab.Links.{list_add, list_init}
use os_lab.Links.Chain.{Ring}
use os_lab.Links.Ring.{list_add-Ring, list_init-frame}
use os_lab.Proc.{uninit, runnable, TrapFrame, Proc, Kernel, put_proc, max_process, max_pid}
use os_lab.Proc.Pid.Fresh.{get_pid-Issued}
use os_lab.Proc.Hash.{hash_link, hash_list_size, pid_hashfn, find_proc}
use os_lab.Proc.Hash.Laws.{pid_hashfn-lt, find_proc-with_pid, with_pid-head}
use os_lab.Proc.Fork.{
  Image, alloc_proc, setup_kstack, kfree_proc, copy_mm, copy_thread, frame_of, reg_a0, reg_sp,
  enter_proc, fork_stacked, do_fork,
}
use os_lab.Proc.Fork.Free.{free_pid}
use os_lab.Proc.Fork.Enter.{
  HasProcs, HasPids-frame, Clear-frame, Entered, entered, enter_proc-run, entered-Entered,
}

-- A child `p` with the `pid` `q` of the process that runs in `s`.
pub record Child (s t : Kernel) (img : Image) (p q stack esp : ℕ) (tf : TrapFrame) (xs : List ℕ)
    : Type 0 where
  pub valid : HasProcs t (p ∷ xs)
  pub number : (t.proc p).pid ≡ pos q
  pub state : (t.proc p).state ≡ runnable
  pub parent : (t.proc p).parent ≡ s.current
  pub kstack : (t.proc p).kstack ≡ stack
  pub frame : (t.proc p).tf ≡ frame_of stack
  pub entry : (t.proc p).context.ra ≡ img.forkret
  pub stack_top : (t.proc p).context.sp ≡ frame_of stack
  pub result : (t.frames (frame_of stack)).gpr reg_a0 ≡ 0
  pub user_stack :
      (t.frames (frame_of stack)).gpr reg_sp ≡ (if esp == 0 then frame_of stack else esp)
  pub registers : (i : ℕ) → i ≢ reg_a0 → i ≢ reg_sp → (t.frames (frame_of stack)).gpr i ≡ tf.gpr i
  pub resumes : (t.frames (frame_of stack)).epc ≡ tf.epc
  pub others : (u : ℕ) → u ≢ p → t.proc u ≡ s.proc u
  pub current : t.current ≡ s.current

-- The state in which the child is entered in the tables.
abbrev prepared : Image → ℕ → ℕ → ℕ → TrapFrame → Kernel → Kernel
prepared img block stack esp tf s =
    let t = (alloc_proc block s).1 in
    let t1 = put_proc block (record (t.proc block) { parent = t.current }) t in
    copy_thread img block esp tf (put_proc block (record (t1.proc block) { kstack = stack }) t1)

has-hash_link : (p : ℕ) (xs : List ℕ) → has (hash_link p) (map hash_link xs) ≡ has p xs
has-hash_link p [] = refl
has-hash_link p (x ∷ xs) = ground (arith, has-hash_link p xs)

module _ (rounds fuel : ℕ) (img : Image) (block stack flags esp : ℕ) (tf : TrapFrame)
    (s : Kernel) where
  do_fork-run :
      s.nr_process < max_process
      → 0 < block
      → 0 < stack
      → s.current ≢ block
      → (s.proc s.current).mm ≡ 0
      → do_fork rounds fuel img block stack flags esp tf s
        ≡ enter_proc rounds fuel block (prepared img block stack esp tf s)
  unfolding do_fork alloc_proc setup_kstack fork_stacked copy_mm
  do_fork-run n b k c m = ground arith

  -- With MAX_PROCESS processes, without a block for the process or without a stack `do_fork` makes
  -- no process: it returns - E_NO_FREE_PROC in the first case and - E_NO_MEM in the others. A block
  -- that was allocated is freed. The processes other than that block are as they were, and so are their
  -- links in the list and in the hash table and all else in the state: the counter, the current
  -- process and the variables of `get_pid`.
  pub do_fork-fails :
      (max_process ≤ s.nr_process) ⊎ ((block ≡ 0) ⊎ (stack ≡ 0))
      → (t : Kernel) × (do_fork rounds fuel img block stack flags esp tf s
          ≡ ok (if leb max_process s.nr_process then negate 5 else negate 4, t))
        × (t.freed
            ≡ (if leb max_process s.nr_process || block == 0 then s.freed else block ∷ s.freed))
        × ((u : ℕ) → u ≢ block → t.proc u ≡ s.proc u)
        × ((u : ℕ)
            → u ≢ block
            → (t.links.next u ≡ s.links.next u) × (t.links.prev u ≡ s.links.prev u))
        × ((u : ℕ)
            → u ≢ hash_link block
            → (t.hash.next u ≡ s.hash.next u) × (t.hash.prev u ≡ s.hash.prev u))
        × (t ≡ record s { proc = t.proc; links = t.links; hash = t.hash; freed = t.freed })
  unfolding do_fork alloc_proc setup_kstack kfree_proc list_init
  do_fork-fails cause = elim (Bool-cases (leb max_process s.nr_process)) [
    | inl full ↦ (
      s,
      rw full refl,
      rw full refl,
      λ u ne. refl,
      λ u ne. (refl, refl),
      λ u ne. (refl, refl),
      refl,
    )
    | inr room ↦ elim (Bool-cases (block == 0)) [
      | inl none' ↦ (
        s,
        rw (room, none') refl,
        rw (room, none') refl,
        λ u ne. refl,
        λ u ne. (refl, refl),
        λ u ne. (refl, refl),
        refl,
      )
      | inr got ↦
          let t = (alloc_proc block s).1 in
          (
            kfree_proc block (put_proc block (record (t.proc block) { parent = t.current }) t),
            ground arith,
            ground arith,
            λ u ne. ground arith,
            rw got (λ u ne. (ground arith, ground arith)),
            rw got (λ u ne. (ground arith, ground arith)),
            rw got refl,
          )
    ]
  ]

  prepared-HasProcs :
      (xs : List ℕ)
      → HasProcs s xs
      → 0 < block
      → has block (0 ∷ xs) ≡ false
      → HasProcs (prepared img block stack esp tf s) xs
  unfolding alloc_proc copy_thread
  prepared-HasProcs xs w b new =
      let t = prepared img block stack esp tf s in
      let same : (u : ℕ) → has u xs ≡ true → (t.proc u).pid ≡ (s.proc u).pid =
        λ u i. ground arith in
      let here : (block == 0) ≡ false = ground arith in
      record {
        ring = rw here (list_init-frame s.links block xs w.ring new);
        numbered = HasPids-frame s t xs same w.numbered;
        safe = rw here w.safe;
        gap = Clear-frame s t (t.last_pid + 1) t.next_safe xs same (rw here w.gap);
        counted = ground (arith, w.counted);
      }

  -- The child at the front of its bucket.
  prepared-bucket :
      0 < block
      → (h : ℕ) (xs : List ℕ) → h < hash_list_size
      → Ring s.hash h (map hash_link xs)
      → has block xs ≡ false
      → Ring
          (list_add h (hash_link block) (prepared img block stack esp tf s).hash)
          h
          (map hash_link (block ∷ xs))
  unfolding alloc_proc copy_thread
  prepared-bucket b h xs l r new =
      let fresh : has (hash_link block) (h ∷ map hash_link xs) ≡ false =
        ground (arith, has-hash_link block xs) in
      let here' : (block == 0) ≡ false = ground arith in
      rw here' (
        list_add-Ring (list_init (hash_link block) s.hash) (hash_link block) [] (map hash_link xs)
          (list_init-frame s.hash (hash_link block) (map hash_link xs) r fresh) fresh)

  prepared-uninit : 0 < block → ((prepared img block stack esp tf s).proc block).state ≡ uninit
  unfolding alloc_proc copy_thread
  prepared-uninit b = ground arith

  prepared-Child :
      (xs : List ℕ) (t : Kernel) (q : ℕ)
      → 0 < block
      → Entered (prepared img block stack esp tf s) t xs block q
      → Child s t img block q stack esp tf xs
  unfolding alloc_proc copy_thread
  prepared-Child xs t q b e =
      let here : (block == 0) ≡ false = ground arith in
      record {
        valid = e.valid;
        number = ap (λ (r : Proc). r.pid) e.child;
        state = ap (λ (r : Proc). r.state) e.child;
        parent = ap (λ (r : Proc). r.parent) e.child ∙ ground arith;
        kstack = ap (λ (r : Proc). r.kstack) e.child ∙ ground arith;
        frame = ap (λ (r : Proc). r.tf) e.child ∙ ground arith;
        entry = ap (λ (r : Proc). r.context.ra) e.child ∙ ground arith;
        stack_top = ap (λ (r : Proc). r.context.sp) e.child ∙ ground arith;
        result =
            ap (λ (f : ℕ → TrapFrame). (f (frame_of stack)).gpr reg_a0) e.frames ∙ ground arith;
        user_stack =
            ap (λ (f : ℕ → TrapFrame). (f (frame_of stack)).gpr reg_sp) e.frames ∙ ground arith;
        registers =
            λ i a p. ap (λ (f : ℕ → TrapFrame). (f (frame_of stack)).gpr i) e.frames ∙ ground arith;
        resumes = ap (λ (f : ℕ → TrapFrame). (f (frame_of stack)).epc) e.frames ∙ ground arith;
        others = λ u ne. e.others u ne ∙ ground arith;
        current = e.current ∙ ground arith;
      }

  -- With fewer than MAX_PROCESS processes, a block that no process of the list has, a stack, a caller
  -- that is a kernel thread, and buckets of the hash table that are well formed, do not hold the block
  -- and are shorter than the fuel by two at least, `do_fork` returns the `pid` of a new runnable child. The child
  -- starts at `forkret` on a copy of the trap frame in which `a0` is 0, no other process has its
  -- `pid`, and the list, the counter and the variables of `get_pid` agree with the new process. The
  -- child is the first of its bucket of the hash table, and `find_proc` returns it for its `pid`.
  pub do_fork-Child :
      (xs : List ℕ)
      → HasProcs s xs
      → s.nr_process < max_process
      → 0 < block
      → has block (0 ∷ xs) ≡ false
      → 0 < stack
      → s.current ≢ block
      → (s.proc s.current).mm ≡ 0
      → length xs < fuel
      → 2 * max_pid ≤ rounds
      → (buckets : ℕ → List ℕ)
      → ((h : ℕ)
          → h < hash_list_size
          → Ring s.hash h (map hash_link (buckets h))
            × (has block (buckets h) ≡ false)
            × (length (buckets h) + 1 < fuel))
      → (q : ℕ) × (t : Kernel) × (do_fork rounds fuel img block stack flags esp tf s
          ≡ ok (pos q, t))
        × Child s t img block q stack esp tf xs
        × Ring t.hash (pid_hashfn (pos q)) (map hash_link (block ∷ buckets (pid_hashfn (pos q))))
        × (find_proc fuel (pos q) t ≡ ok block)
  do_fork-Child xs w n b new k c m f e buckets hs =
      let u = prepared img block stack esp tf s in
      let wu = prepared-HasProcs xs w b new in
      let (p, p_pos, p_le, unused) = free_pid u 8191 xs (omega (arith, w.counted, n)) in
      let ((q, t), run, i) =
        get_pid-Issued rounds fuel p u xs wu.ring f e p_pos (omega (arith, p_le)) unused wu.safe
          wu.gap in
      let blank : (t.proc block).state ≡ uninit =
        ap (λ (z : Kernel). (z.proc block).state) i.others ∙ prepared-uninit b in
      let en = entered-Entered u t xs block q wu new i in
      let h = pid_hashfn (pos q) in
      let ring : Ring (entered block q t).hash h (map hash_link (block ∷ buckets h)) =
        rw en.hashed (
          prepared-bucket b h (buckets h) (pid_hashfn-lt (pos q)) (hs h (pid_hashfn-lt (pos q))).0
            (hs h (pid_hashfn-lt (pos q))).1) in
      (
        q,
        entered block q t,
        do_fork-run n b k c m ∙ enter_proc-run rounds fuel block q u t run blank,
        prepared-Child xs (entered block q t) q b en,
        ring,
        find_proc-with_pid fuel q (entered block q t) (block ∷ buckets h) en.range.0 en.range.1 ring
              (omega (arith, (hs h (pid_hashfn-lt (pos q))).2))
            ∙ ap ok (
                with_pid-head (entered block q t).proc q block (buckets h)
                  (ap (λ (r : Proc). r.pid) en.child)),
      )
