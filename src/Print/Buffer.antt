-- ===== src/Print/Buffer.antt =====
-- `vsnprintf` of libs/printfmt.c: what the buffer holds afterwards.
use os_lab.Base.{
  ℕ, zero, suc, ◌+◌, ◌-◌, ◌%◌, ◌^◌, ◌<◌, ◌≤◌, ◌≡◌, ◌⊎◌, refl, ◌∙◌, ap, List, [], ◌∷◌, length, true,
  false, ok, ltb, ◌==◌, arith, pos, inl, inr,
}
use os_lab.Links.{update}
use os_lab.Print.Escape.{to_int}
use os_lab.Print.{SprintBuf, sprintputch, sprint_all, vsnprintf, vprintfmt}

-- The bytes stand in memory from `p` on.
abbrev pub HasBytes : (ℕ → ℕ) → ℕ → List ℕ → Type 0
HasBytes m p [] = Unit {0}
HasBytes m p (b ∷ bs) = (m p ≡ b) × HasBytes m (p + 1) bs

-- The characters that there is room for, as bytes.
abbrev pub fitting : ℕ → List ℕ → List ℕ
fitting zero cs = []
fitting (suc n) [] = []
fitting (suc n) (c ∷ cs) = (c % 256) ∷ fitting n cs

pub length-fitting : (n : ℕ) (cs : List ℕ) → length (fitting n cs) ≤ n
length-fitting zero cs = omega arith
length-fitting (suc n) [] = omega arith
length-fitting (suc n) (c ∷ cs) = omega (arith, length-fitting n cs)

-- The buffer `e` is `b` after the characters were printed, where it has room for `n`.
record Printed (n : ℕ) (b e : SprintBuf) (out : List ℕ) : Type 0 where
  count : e.cnt ≡ b.cnt + length out
  stop : e.buf ≡ b.buf + length (fitting n out)
  chars : HasBytes e.bytes b.buf (fitting n out)
  others : (q : ℕ) → (q < b.buf) ⊎ (e.buf ≤ q) → e.bytes q ≡ b.bytes q

sprintputch_full :
    (c : ℕ) (b : SprintBuf)
    → b.cnt + 1 < 2 ^ 32
    → b.ebuf ≡ b.buf
    → sprintputch c b ≡ record b { cnt = b.cnt + 1 }
unfolding sprintputch
sprintputch_full c b l h = rw (full, count)
  where
    count : (b.cnt + 1) % 2 ^ 32 ≡ b.cnt + 1
    count = omega arith

    full : ltb b.buf b.ebuf ≡ false
    full = ground (arith, h)

sprintputch_room :
    (n c : ℕ) (b : SprintBuf)
    → b.cnt + 1 < 2 ^ 32
    → b.ebuf ≡ b.buf + suc n
    → sprintputch c b
      ≡ record b { buf = b.buf + 1; cnt = b.cnt + 1; bytes = update b.bytes b.buf (c % 256) }
unfolding sprintputch
sprintputch_room n c b l h = rw (room, count)
  where
    count : (b.cnt + 1) % 2 ^ 32 ≡ b.cnt + 1
    count = omega arith

    room : ltb b.buf b.ebuf ≡ true
    room = ground (arith, h)

sprint_all-Printed :
    (n : ℕ) (out : List ℕ) (b : SprintBuf)
    → b.cnt + length out < 2 ^ 32
    → b.ebuf ≡ b.buf + n
    → Printed n b (sprint_all out b) out
unfolding sprint_all
sprint_all-Printed zero [] b l h = record {
  count = omega arith;
  stop = omega arith;
  chars = tt;
  others = λ q o. refl;
}
sprint_all-Printed (suc n) [] b l h = record {
  count = omega arith;
  stop = omega arith;
  chars = tt;
  others = λ q o. refl;
}
sprint_all-Printed zero (c ∷ cs) b l h =
    let e = sprint_all-Printed zero cs (record b { cnt = b.cnt + 1 }) (omega (arith, l)) h in
    rw (sprintputch_full c b (omega (arith, l)) (h ∙ omega arith))
      (record { count = omega (arith, e.count); stop = e.stop; chars = tt; others = e.others })
sprint_all-Printed (suc n) (c ∷ cs) b l h =
    let next : SprintBuf = record b {
      buf = b.buf + 1;
      cnt = b.cnt + 1;
      bytes = update b.bytes b.buf (c % 256);
    } in
    let e = sprint_all-Printed n cs next (omega (arith, l)) (omega (arith, h)) in
    rw (sprintputch_room n c b (omega (arith, l)) h) (record {
      count = omega (arith, e.count);
      stop = omega (arith, e.stop);
      chars = (e.others b.buf (inl (omega arith)) ∙ ground arith, e.chars);
      others = λ q o. elim o [
        | inl k ↦ e.others q (inl (omega (arith, k))) ∙ ground (arith, k)
        | inr r ↦ e.others q (inr r) ∙ ground (arith, r, e.stop)
      ];
    })

HasBytes-frame :
    (m : ℕ → ℕ) (p v q : ℕ) (bs : List ℕ)
    → p + length bs ≤ q
    → HasBytes m p bs
    → HasBytes (update m q v) p bs
HasBytes-frame m p v q [] l h = tt
HasBytes-frame m p v q (b ∷ bs) l h =
    (ground (arith, h.0, l), HasBytes-frame m (p + 1) v q bs (omega (arith, l)) h.1)

-- The memory `m'` is `m` with the text `out` as far as it fits into the `size` bytes at `str`, a 0
-- included, which stands behind it.
pub record Holds (m m' : ℕ → ℕ) (str size : ℕ) (out : List ℕ) : Type 0 where
  pub chars : HasBytes m' str (fitting (size - 1) out)
  pub stop : m' (str + length (fitting (size - 1) out)) ≡ 0
  pub others : (q : ℕ) → (q < str) ⊎ (str + size ≤ q) → m' q ≡ m q

-- What `vsnprintf` does with the text `out`.
pub vsnprintf-run :
    (fuel str size fmt : ℕ) (args out : List ℕ) (m : ℕ → ℕ)
    → 0 < str
    → 0 < size
    → str + size ≤ 2 ^ 64
    → length out < 2 ^ 31
    → vprintfmt fuel fmt args m ≡ ok out
    → (m' : ℕ → ℕ) × (vsnprintf fuel str size fmt args m ≡ ok (pos (length out), m'))
      × Holds m m' str size out
unfolding vsnprintf
vsnprintf-run fuel str size fmt args out m n z top short run =
    let last : (str + size + 2 ^ 64 - 1) % 2 ^ 64 ≡ str + size - 1 = omega (arith, n, z, top) in
    let b : SprintBuf = record { buf = str; ebuf = str + size - 1; cnt = 0; bytes = m } in
    let e = sprint_all-Printed (size - 1) out b (omega (arith, short)) (omega (arith, z)) in
    let there : (str == 0) ≡ false = ground (arith, n) in
    let room : ltb (str + size - 1) str ≡ false = ground (arith, z) in
    let m' = update (sprint_all out b).bytes (sprint_all out b).buf 0 in
    let count : to_int (sprint_all out b).cnt ≡ pos (length out) =
      ap to_int e.count ∙ to_int-pos (length out) short in
    (
      m',
      rw (last, there, room, run) (ap (λ c. ok (c, m')) count),
      record {
        chars = HasBytes-frame _ str 0 _ _ (omega (arith, e.stop)) e.chars;
        stop = ground (arith, e.stop);
        others = λ q o. elim o [
          | inl l ↦ ground (arith, l, e.stop, e.others q (inl l))
          | inr r ↦ ground (
            arith,
            e.stop,
            length-fitting (size - 1) out,
            e.others q (inr (omega (arith, r, z, e.stop, length-fitting (size - 1) out))),
          )
        ];
      },
    )
  where
    to_int-pos : (k : ℕ) → k < 2 ^ 31 → to_int (0 + k) ≡ pos k
    to_int-pos k l = rw (whole, small)
      where
        whole : (0 + k) % 2 ^ 32 ≡ k
        whole = omega arith

        small : ltb k (2 ^ 31) ≡ true
        small = ground arith

-- The buffer has at least one byte, lies in memory, not at NULL, and apart from what `vprintfmt` reads:
-- it prints `out`, of fewer than 2^31 characters, whatever the buffer holds. Then `vsnprintf` returns
-- the number of characters of `out`, whatever the size; the buffer holds as many of them as fit in
-- front of a 0, and every byte outside of it is as it was.
pub vsnprintf-Holds :
    (fuel str size fmt : ℕ) (args out : List ℕ) (m : ℕ → ℕ)
    → 0 < str
    → 0 < size
    → str + size ≤ 2 ^ 64
    → length out < 2 ^ 31
    → ((k : ℕ → ℕ)
        → ((q : ℕ) → (q < str) ⊎ (str + size ≤ q) → k q ≡ m q)
        → vprintfmt fuel fmt args k ≡ ok out)
    → (m' : ℕ → ℕ) × (vsnprintf fuel str size fmt args m ≡ ok (pos (length out), m'))
      × Holds m m' str size out
vsnprintf-Holds fuel str size fmt args out m n z top short run =
    vsnprintf-run fuel str size fmt args out m n z top short (run m (λ q o. refl))
