-- ===== src/Source/Calls/Stream.antt =====
-- What a reader gets: `zip_source_read` hides that a callback may give fewer bytes than it is asked for.
use allvm_tools.Source.Calls.{call, read, read_loop, is_reading}
use allvm_tools.Source.{Source, read_bytes, Reply, Callback}
use allvm_tools.Base.{
  ℕ, ◌++◌, none, true, ◌≡◌, drop, [], take, length, arith, subst, append-nil, ◌<◌, refl, ◌+◌, some,
  ◌≤◌, suc, ◌∙◌, zero, List, false, ◌-◌, take-nil, drop-nil, Bool-cases, ◌==◌, inl, inr, ltb, ap,
  length-append, ==_iff, append_assoc, take-eq_of_length, sym, take-append_ge, drop-append_ge, ◌^◌,
  eq-nil_of_length, drop-drop, not, ◌||◌, ◌&&◌, Bool, if◌then◌else◌, take_add,
}

-- A reply to READ, of `n` bytes at most from what is left; none are given only at the end.
abbrev pub Given {ℓ} : {U : Type ℓ} → (U → List ℕ) → ℕ → U → Reply × U → Type 0
Given rest n u (none, u') = ⊥
Given rest n u (some (k, bytes), u') =
    (k ≤ n) × (k ≡ 0 → rest u ≡ []) × (length bytes ≡ k) × (rest u ≡ bytes ++ rest u')

-- A callback that reads from a sequence of bytes, with `rest` what is left of it.
pub record Stream {ℓ} {U : Type ℓ} (cb : Callback U) (rest : U → List ℕ) : Type ℓ where
  pub supports_read : (n : ℕ) → cb.supports (read_bytes n) ≡ true
  pub gives : (n : ℕ) (u : U) → 0 < n → Given rest n u (cb.answer (read_bytes n) u)

-- A source that is open for reading, without an error before, and that knows its end.
abbrev pub Readable {ℓ} : {U : Type ℓ} → (U → List ℕ) → Source U → Type 0
Readable rest s =
    (is_reading s ≡ true)
    × (s.source_closed ≡ false)
    × (s.had_read_error ≡ false)
    × (s.eof ≡ true → rest s.ud ≡ [])

if-false {ℓ κ} :
    {A : Type ℓ} (Q : A → Type κ) {t : Bool} (x y : A) → t ≡ false → Q y → Q (if t then x else y)
if-false Q x y e h = rw e h

-- The two branches of a test.
by_branch {ℓ κ} :
    {A : Type ℓ} (Q : A → Type κ) (t : Bool) (x y : A)
    → (t ≡ true → Q x)
    → (t ≡ false → Q y)
    → Q (if t then x else y)
by_branch Q true x y on_true on_false = on_true refl
by_branch Q false x y on_true on_false = on_false refl

module _ {ℓ} {U : Type ℓ} (cb : Callback U) (rest : U → List ℕ) (st : Stream cb rest) where
  read_call :
      (s : Source U) (n : ℕ)
      → 0 < n
      → (k : ℕ) × (bytes : List ℕ) × (u : U) × (call cb s (read_bytes n)
          ≡ (some (k, bytes), record s { ud = u }))
        × Given rest n s.ud (some (k, bytes), u)
  unfolding call
  read_call s n pos = go (cb.answer (read_bytes n) s.ud) refl (st.gives n s.ud pos)
    where
      go :
          (a : Reply × U)
          → cb.answer (read_bytes n) s.ud ≡ a
          → Given rest n s.ud a
          → (k : ℕ) × (bytes : List ℕ) × (u : U) × (call cb s (read_bytes n)
              ≡ (some (k, bytes), record s { ud = u }))
            × Given rest n s.ud (some (k, bytes), u)
      go (none, u) e h = absurd h
      go (some (k, bytes), u) e h = (k, bytes, u, simp (st.supports_read n, e), h)

  -- The result of a loop that is to read `n` more bytes.
  abbrev Gives : Source U → ℕ → List ℕ → Reply × Source U → Type 0
  Gives s n acc (r, t) =
      let out = acc ++ take n (rest s.ud) in
      (r ≡ some (length out, out)) × (rest t.ud ≡ drop n (rest s.ud)) × Readable rest t

  Gives-none :
      (s : Source U) (n : ℕ) (acc : List ℕ)
      → n ≡ 0
      → Readable rest s
      → Gives s n acc (some (length acc, acc), s)
  Gives-none s n acc e h = rw e (rw (append-nil acc) refl, refl, h)

  Gives-end :
      (s t : Source U) (n : ℕ) (acc : List ℕ)
      → rest s.ud ≡ []
      → rest t.ud ≡ []
      → Readable rest t
      → Gives s n acc (some (length acc, acc), t)
  Gives-end s t n acc e e' h =
      (rw (e, take-nil {A = ℕ} n, append-nil acc) refl, e' ∙ rw (e, drop-nil {A = ℕ} n) refl, h)

  joined :
      (xs ys : List ℕ) (n k : ℕ) → length xs ≡ k → k ≤ n → take n (xs ++ ys) ≡ xs ++ take (n - k) ys
  joined xs ys n k len le =
      take-append_ge xs ys n (omega arith) ∙ ap (λ m. xs ++ take (n - m) ys) len

  dropped : (xs ys : List ℕ) (n k : ℕ) → length xs ≡ k → k ≤ n → drop n (xs ++ ys) ≡ drop (n - k) ys
  dropped xs ys n k len le = drop-append_ge xs ys n (omega arith) ∙ ap (λ m. drop (n - m) ys) len

  Gives-more :
      (s s' : Source U) (n k : ℕ) (acc bytes : List ℕ) (p : Reply × Source U)
      → rest s.ud ≡ bytes ++ rest s'.ud
      → length bytes ≡ k
      → k ≤ n
      → Gives s' (n - k) (acc ++ bytes) p
      → Gives s n acc p
  Gives-more s s' n k acc bytes (r, t) e len le (h, left, ready) =
      let out : (acc ++ bytes) ++ take (n - k) (rest s'.ud) ≡ acc ++ take n (rest s.ud) =
        append_assoc acc bytes (take (n - k) (rest s'.ud))
        ∙ ap (λ l. acc ++ l) (sym (rw e (joined bytes (rest s'.ud) n k len le))) in
      (
        subst (λ l. r ≡ some (length l, l)) out h,
        left ∙ sym (rw e (dropped bytes (rest s'.ud) n k len le)),
        ready,
      )

  -- The rounds of the loop that the callback answers.
  read_loop-more :
      (fuel : ℕ) (s s' : Source U) (want : ℕ) (acc : List ℕ) (k : ℕ) (bytes : List ℕ)
      → ltb (length acc) want ≡ true
      → call cb s (read_bytes (want - length acc)) ≡ (some (k, bytes), s')
      → (k == 0) ≡ false
      → read_loop cb (suc fuel) s want (length acc) acc
        ≡ read_loop cb fuel s' want (length acc + k) (acc ++ take k bytes)
  unfolding read_loop
  read_loop-more fuel s s' want acc k bytes short called some_bytes =
      let reply = ap (λ p. p.0) called in
      let after = ap (λ p. p.1) called in rw (short, reply, some_bytes, after) refl

  read_loop-end :
      (fuel : ℕ) (s s' : Source U) (want : ℕ) (acc : List ℕ) (k : ℕ) (bytes : List ℕ)
      → ltb (length acc) want ≡ true
      → call cb s (read_bytes (want - length acc)) ≡ (some (k, bytes), s')
      → (k == 0) ≡ true
      → read_loop cb (suc fuel) s want (length acc) acc
        ≡ (some (length acc, acc), record s' { eof = true })
  unfolding read_loop
  read_loop-end fuel s s' want acc k bytes short called end_reached =
      let reply = ap (λ p. p.0) called in
      let after = ap (λ p. p.1) called in rw (short, reply, end_reached, after) refl

  read_loop-none :
      (s : Source U) (want : ℕ) (acc : List ℕ)
      → read_loop cb zero s want (length acc) acc ≡ (some (length acc, acc), s)
  unfolding read_loop
  read_loop-none s want acc = refl

  read_loop-full :
      (fuel : ℕ) (s : Source U) (want : ℕ) (acc : List ℕ)
      → ltb (length acc) want ≡ false
      → read_loop cb (suc fuel) s want (length acc) acc ≡ (some (length acc, acc), s)
  unfolding read_loop
  read_loop-full fuel s want acc full = rw full refl

  read_loop-Gives :
      (fuel : ℕ) (s : Source U) (want : ℕ) (acc : List ℕ)
      → want ≤ length acc + fuel
      → length acc ≤ want
      → s.eof ≡ false
      → Readable rest s
      → Gives s (want - length acc) acc (read_loop cb fuel s want (length acc) acc)
  read_loop-Gives zero s want acc enough le more h =
      subst (Gives s (want - length acc) acc) (sym (read_loop-none s want acc))
        (Gives-none s (want - length acc) acc (omega arith) h)
  read_loop-Gives (suc fuel) s want acc enough le more h =
      elim (Bool-cases (ltb (length acc) want)) [
        | inr full ↦
            subst (Gives s (want - length acc) acc) (sym (read_loop-full fuel s want acc full))
              (Gives-none s (want - length acc) acc (ground arith) h)
        | inl short ↦
            let n = want - length acc in
            let (k, bytes, u, called, (le', last, len, left)) = read_call s n (ground arith) in
            let s' = record s { ud = u } in
            elim (Bool-cases (k == 0)) [
              | inl end_reached ↦
                  let nothing = last ((==_iff k 0).0 end_reached) in
                  let over : rest u ≡ [] =
                    sym (
                      left
                      ∙ ap (λ l. l ++ rest u)
                          (eq-nil_of_length bytes (len ∙ (==_iff k 0).0 end_reached)))
                    ∙ nothing in
                  subst (Gives s n acc)
                    (sym (read_loop-end fuel s s' want acc k bytes short called end_reached))
                    (Gives-end s (record s' { eof = true }) n acc nothing over
                      (h.0, h.1, h.2, λ _. over))
              | inr some_bytes ↦
                  let whole : take k bytes ≡ bytes = take-eq_of_length k bytes len in
                  let count : length (acc ++ bytes) ≡ length acc + k =
                    length-append acc bytes ∙ ap (λ m. length acc + m) len in
                  let positive : 0 < k = ground arith in
                  let next =
                    read_loop-Gives fuel s' want (acc ++ bytes) (omega (arith, count))
                      (omega (arith, count)) more
                      (h.0, h.1, h.2, λ e. let stop = sym e ∙ more in cc) in
                  let e : want - length (acc ++ bytes) ≡ n - k = omega (arith, count) in
                  subst (Gives s n acc)
                    (sym (
                      read_loop-more fuel s s' want acc k bytes short called some_bytes
                      ∙ ap (λ l. read_loop cb fuel s' want (length acc + k) (acc ++ l)) whole
                      ∙ ap (λ m. read_loop cb fuel s' want m (acc ++ bytes)) (sym count)))
                    (Gives-more s s' n k acc bytes
                      (read_loop cb fuel s' want (length (acc ++ bytes)) (acc ++ bytes)) left len
                      le'
                      (subst
                        (λ m.
                          Gives s' m (acc ++ bytes)
                            (read_loop cb fuel s' want (length (acc ++ bytes)) (acc ++ bytes)))
                        e next))
            ]
      ]

  -- A read of `len` bytes, below 2^63, into memory that is there, from a source that is open for reading
  -- and not closed, with no earlier read error, and with nothing left if it was at its end, whose
  -- callback never fails to read, gives the next `len` bytes of what is left, or all of it if that is
  -- less, however few bytes the callback gives at a time; the rest is left for the next read.
  pub read-takes :
      (s : Source U) (len : ℕ)
      → len < 2 ^ 63
      → Readable rest s
      → let (r, t) = read cb s true len in
        let bytes = take len (rest s.ud) in
        (r ≡ some (length bytes, bytes)) × (rest t.ud ≡ drop len (rest s.ud)) × Readable rest t
  unfolding read
  read-takes s len small (is_open, there, fine, ended) =
      let h : Readable rest s = (is_open, there, fine, ended) in
      let Q = Gives s len [] in
      let good_call : not (is_reading s) || ltb (2 ^ 63 - 1) len || (ltb 0 len && not true)
          ≡ false =
        ground arith in
      if-false Q _ _ there (
        if-false Q _ _ good_call (
          if-false Q _ _ fine (
            by_branch Q s.eof _ _ (λ stop. Gives-end s s len [] (ended stop) (ended stop) h)
              (λ more.
                by_branch Q (len == 0) _ _
                  (λ nothing. Gives-none s len [] ((==_iff len 0).0 nothing) h)
                  (λ some_bytes.
                    let e : len - 0 ≡ len = omega arith in
                    subst (λ m. Gives s m [] (read_loop cb len s len 0 [])) e
                      (read_loop-Gives len s len [] (omega arith) (omega arith) more h))))))

  -- Two reads, one after the other, give the bytes of one read of both lengths.
  pub read-read :
      (s : Source U) (m n : ℕ)
      → m + n < 2 ^ 63
      → Readable rest s
      → let (first, t) = read cb s true m in
        let (second, u) = read cb t true n in
        let (whole, v) = read cb s true (m + n) in
        (a : List ℕ) × (b : List ℕ) × (first ≡ some (length a, a))
        × (second ≡ some (length b, b))
        × (whole ≡ some (length (a ++ b), a ++ b))
        × (rest u.ud ≡ rest v.ud)
  read-read s m n small h =
      let (first, left, ready) = read-takes s m (omega arith) h in
      let t = (read cb s true m).1 in
      let (second, left', ready') = read-takes t n (omega arith) ready in
      let (whole, left'', ready'') = read-takes s (m + n) small h in
      let b = take n (drop m (rest s.ud)) in
      (
        take m (rest s.ud),
        b,
        first,
        subst (λ l. (read cb t true n).0 ≡ some (length (take n l), take n l)) left second,
        subst (λ l. (read cb s true (m + n)).0 ≡ some (length l, l)) (take_add m n (rest s.ud))
            whole,
        left' ∙ ap (drop n) left ∙ drop-drop n m (rest s.ud) ∙ sym left'',
      )
