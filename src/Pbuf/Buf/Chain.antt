-- ===== src/Pbuf/Buf/Chain.antt =====
-- `gabs_pbuf_chain_front`, `gabs_pbuf_chain_back` and `gabs_pbuf_chain_at` splice one chain into
-- another, in front, behind, or at a boundary between two segments.
use gabs.Base.{
  ℕ, zero, suc, ◌+◌, ◌≤◌, ◌<◌, ◌^◌, ◌≡◌, ◌≢◌, refl, ◌∙◌, sym, subst, subst₂, List, [], ◌∷◌, ◌++◌,
  append-nil, append_assoc, arith, length, add64, ltb, ltb→lt, ltb→ge, Bool-cases, inl, inr,
  ==-false_of_ne, ◌==◌, true, false,
}
use gabs.Base.Run.{
  Run, ok, Ends, ends, fault, and_then, Reads, reads, then-Reads, Reads-mono, pure, ◌>>◌, ◌>>=◌,
}
use gabs.Pbuf.Seg.{Seg, total, Apart, total-append}
use gabs.Pbuf.Iface.{Var, Impl, Laws, assert}
use gabs.Pbuf.Buf.Walk.{Stops, Boundary, Stops-Boundary, Boundary-total}
use gabs.Pbuf.Buf.{chain_at_loop, chain_at, last_loop, chain_front, chain_back}

module _ {I : Impl} (L : Laws I) where
  open I use {Heap, Ci, ndebug, ci_insert}
  open L use {
    Chain, At, Keeps, Inserts, init_lem, close, eoi_nil, eoi_cons, next_lem, size_lem, insert_lem,
  }

  -- The variable `v` holds the chain `zs`, and nothing but `v` and the fragments of `xs` and `ys`
  -- has changed.
  abbrev pub Spliced : Heap → Var → (xs ys zs : List Seg) → Unit {0} → Heap → Type 0
  Spliced h v xs ys zs _ h' = Chain h' v zs × Keeps v (xs ++ ys) h h'

  last_loop_lem :
      (k : ℕ) {h : Heap} {v : Var} {it : Ci} {pre : List Seg} (post : List Seg)
      → At h v it pre post
      → length post < k
      → (it' : Ci) × (last_loop I k it h ≡ ok it' h) × At h v it' (pre ++ post) []
  unfolding last_loop
  last_loop_lem zero post at fuel = absurd (omega arith)
  last_loop_lem (suc k) {it} {pre} [] at fuel = (it, rw (eoi_nil at), rw (append-nil pre) at)
  last_loop_lem (suc k) {pre} (x ∷ post) at fuel =
      let (it', step, at') = next_lem at in
      let (last, run, at'') = last_loop_lem k post at' (omega arith) in
      (last, rw (eoi_cons at, step) run, rw (append_assoc pre (x ∷ []) post) at at'')

  module _ (fuel : ℕ) {h : Heap} {v w : Var} {xs ys : List Seg} (chain : Chain h v xs)
      (other : Chain h w ys) (distinct : v ≢ w) (apart : Apart xs ys) (fits : Inserts ys)
      (short : length ys < fuel) where
    -- `gabs_pbuf_chain_front` puts the chain of the other buffer in front of the buffer's own. The
    -- two share no fragment, the other can be inserted, and there are more rounds than it has segments.
    pub chain_front-append : Ends (Spliced h v xs ys (ys ++ xs)) (chain_front I fuel v w h)
    unfolding chain_front
    chain_front-append =
        let (it, start, at) = init_lem chain in
        let (it', h', run, at', keeps) = insert_lem fuel at other distinct apart fits short in
        rw (start, run) (ends (close at', keeps))

    -- `gabs_pbuf_chain_back` puts the chain of the other buffer behind the buffer's own. The two
    -- share no fragment, the other can be inserted, and there are more rounds than either has segments.
    pub chain_back-append :
        length xs < fuel → Ends (Spliced h v xs ys (xs ++ ys)) (chain_back I fuel v w h)
    unfolding chain_back
    chain_back-append enough =
        let (it, start, at) = init_lem chain in
        let (last, walk, at') = last_loop_lem fuel xs at enough in
        let apart' = subst (λ zs. Apart zs ys) (sym (append-nil xs)) apart in
        let (it', h', run, at'', keeps) = insert_lem fuel at' other distinct apart' fits short in
        rw (start, walk, run)
          (ends (
            subst (λ zs. Chain h' v (xs ++ zs)) (append-nil ys) (close at''),
            subst (λ zs. Keeps v (zs ++ ys) h h') (append-nil xs) keeps,
          ))

  -- The iterator and the byte count on which a walk along `xs` by `offset` stops.
  abbrev pub Walked : Heap → Var → ℕ → List Seg → Ci × ℕ → Type 0
  Walked h v offset xs (it, bytes) =
      (pre : List Seg) × (post : List Seg) × (bytes ≡ total pre)
      × At h v it pre post
      × (pre ++ post ≡ xs)
      × Stops offset (total pre) post

  chain_at_loop-Walked :
      (k offset bytes : ℕ) {h : Heap} {v : Var} {it : Ci} (pre post : List Seg)
      → At h v it pre post
      → length post < k
      → total pre + total post < 2 ^ 64
      → bytes ≡ total pre
      → bytes ≤ offset
      → Reads (Walked h v offset (pre ++ post)) h (chain_at_loop I k it offset bytes h)
  unfolding chain_at_loop
  chain_at_loop-Walked zero offset bytes pre post at fuel small e le = absurd (omega arith)
  chain_at_loop-Walked (suc k) offset bytes pre [] at fuel small e le =
      rw (eoi_nil at) (reads (pre, [], e, at, refl, omega arith))
  chain_at_loop-Walked (suc k) offset bytes {h} {v} pre (x ∷ post) at fuel small e le =
      let (it', step, at') = next_lem at in
      elim (Bool-cases (ltb offset (add64 bytes x.size))) [
        | inl past ↦
            rw (eoi_cons at, size_lem at, past)
              (reads (pre, x ∷ post, e, at, refl, (omega arith, omega (arith, ltb→lt _ _ past))))
        | inr more ↦
            rw (eoi_cons at, size_lem at, more, step)
              (Reads-mono
                (chain_at_loop-Walked k offset (add64 bytes x.size) (pre ++ x ∷ []) post at'
                  (omega arith) (omega (arith, total-append pre (x ∷ [])))
                  (omega (arith, total-append pre (x ∷ []))) (ltb→ge _ _ more))
                λ r (pre', post', e', at'', same, s).
                  (pre', post', e', at'', same ∙ append_assoc pre (x ∷ []) post, s))
      ]

  -- The other chain is spliced in between two parts of the chain, of which the first ends at the
  -- offset.
  abbrev pub SplicedAt : Heap → Var → ℕ → (xs ys : List Seg) → Unit {0} → Heap → Type 0
  SplicedAt h v offset xs ys u h' =
      (pre : List Seg) × (post : List Seg) × (xs ≡ pre ++ post)
      × (total pre ≡ offset)
      × Spliced h v xs ys (pre ++ (ys ++ post)) u h'

  -- `gabs_pbuf_chain_at` at an offset that is between two segments or at an end of the chain puts
  -- the chain of the other buffer between the segments before that offset and those behind it. The
  -- two share no fragment, the other can be inserted, there are more rounds than either has
  -- segments, the chain has fewer than 2 ^ 64 bytes, and the offset is not 0.
  pub chain_at-splice :
      (fuel offset : ℕ) {h : Heap} {v w : Var} {xs ys : List Seg}
      → Chain h v xs
      → 0 < offset
      → length xs < fuel
      → total xs < 2 ^ 64
      → Chain h w ys
      → v ≢ w
      → Apart xs ys
      → Inserts ys
      → length ys < fuel
      → Boundary offset xs
      → Ends (SplicedAt h v offset xs ys) (chain_at I fuel v w offset h)
  unfolding chain_at
  chain_at-splice fuel offset {h} {v} {w} {xs} {ys} chain positive enough small other distinct apart
        fits short b =
      let (it, start, at) = init_lem chain in
      rw (==-false_of_ne offset 0 (omega arith), start)
        (then-Reads _
          (chain_at_loop-Walked fuel offset 0 [] xs at enough (omega arith) refl (omega arith))
          λ (it', bytes) (pre, post, e, at', same, s).
            let met = Stops-Boundary offset pre post s (subst (Boundary offset) (sym same) b) in
            let met_test : (bytes == offset) ≡ true = ground arith in
            let apart' = subst (λ zs. Apart zs ys) (sym same) apart in
            let (_, h', put, at'', keeps) = insert_lem fuel at' other distinct apart' fits short in
            rw (met_test, put)
              (ends (
                pre,
                post,
                sym same,
                met,
                (close at'', subst (λ zs. Keeps v (zs ++ ys) h h') same keeps),
              )))

  -- At an offset inside a segment or past the end, an assertion of `gabs_pbuf_chain_at` fails in a
  -- build with assertions. There are more rounds than segments, and fewer than 2 ^ 64 bytes.
  pub chain_at-unaligned :
      (fuel offset : ℕ) {h : Heap} {v : Var} {xs : List Seg} (w : Var)
      → Chain h v xs
      → length xs < fuel
      → total xs < 2 ^ 64
      → ndebug ≡ false
      → ¬ Boundary offset xs
      → chain_at I fuel v w offset h ≡ fault
  unfolding chain_at
  chain_at-unaligned fuel offset {h} {v} {xs} w chain enough small debug inside =
      let (it, start, at) = init_lem chain in
      rw
        (
          ==-false_of_ne offset 0
              (λ e. inside (subst (λ n. Boundary n xs) (sym e) (Boundary-total [] xs))),
          start,
        )
        (missed
          (chain_at_loop-Walked fuel offset 0 [] xs at enough (omega arith) refl (omega arith)))
    where
      missed :
          {r : Run Heap (Ci × ℕ)}
          → Reads (Walked h v offset xs) h r
          → and_then r (λ (it', bytes).
            assert ndebug (bytes == offset) >> (ci_insert fuel it' w >>= λ _. pure tt))
            ≡ fault
      missed (reads {a = (it', bytes)} (pre, post, e, at', same, s)) = rw (
        ==-false_of_ne bytes offset
            λ met. inside (subst₂ Boundary (sym e ∙ met) same (Boundary-total pre post)),
        debug,
      )
