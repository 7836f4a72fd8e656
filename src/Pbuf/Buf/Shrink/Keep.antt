-- ===== src/Pbuf/Buf/Shrink/Keep.antt =====
-- The second block of `gabs_pbuf_shrink` (pbuf/buf.c): the bytes that are kept, and the cut behind
-- them.
use gabs.Base.{
  ℕ, zero, suc, ◌+◌, ◌-◌, ◌≤◌, ◌<◌, ◌^◌, ◌≡◌, refl, ap, sym, subst, ◌∙◌, inl, inr, List, [], ◌∷◌,
  ◌++◌, append-nil, append_assoc, arith, length, length-append, take, take-append_ge,
  take-append_le, take_all, sub64, ltb, Bool-cases, ◌==◌,
}
use gabs.Base.Run.{Ends, ends, weaken, Reads, reads, Reads-mono, then-Reads}
use gabs.Pbuf.Seg.{
  Mem, slice, Seg, total, contents, NotIn, NotIn-same, total-append, length-slice, length-contents,
  contents-append,
}
use gabs.Pbuf.Bytes.{take-slice}
use gabs.Pbuf.Iface.{Var, Impl, Laws, cut_tail}
use gabs.Pbuf.Buf.{gabs_min, keep_loop, detach_rest, cut_behind, shrink_tail}

-- `mid` is kept whole, and so are `bytes` of the segment behind it, `rem` bytes in all.
abbrev Kept : ℕ → List Seg → List Seg → ℕ → Type 0
Kept rem mid [] bytes = total mid ≤ rem
Kept rem mid (x ∷ _) bytes = (total mid + bytes ≡ rem) × (bytes ≤ x.size)

Kept-cons :
    (rem left : ℕ) (x : Seg) (mid rest : List Seg) (bytes : ℕ)
    → x.size ≤ rem
    → left ≡ rem - x.size
    → Kept left mid rest bytes
    → Kept rem (x ∷ mid) rest bytes
Kept-cons rem left x mid [] bytes le e kept = omega arith
Kept-cons rem left x mid (y ∷ rest) bytes le e kept = omega arith

-- The segment that `gabs_pbuf_shrink` cuts keeps its first bytes.
take-contents :
    (m : Mem) (rem bytes : ℕ) (mid : List Seg) (x : Seg) (rest : List Seg)
    → Kept rem mid (x ∷ rest) bytes
    → contents m (mid ++ cut_tail (x.size - bytes) x ∷ []) ≡ take rem (contents m (mid ++ x ∷ rest))
take-contents m rem bytes mid x rest (e, le) =
    let here = contents m (x ∷ rest) in
    let left : rem - length (contents m mid) ≡ bytes = omega (arith, length-contents m mid) in
    contents-append m mid (cut_tail (x.size - bytes) x ∷ [])
    ∙ ap (λ l. contents m mid ++ l)
        (append-nil (slice m x.addr (x.size - (x.size - bytes)))
          ∙ ap (slice m x.addr) (let k : x.size - (x.size - bytes) ≡ bytes = omega arith in k)
          ∙ sym (take-slice m x.addr bytes x.size le)
          ∙ sym (
              take-append_le bytes (slice m x.addr x.size) (contents m rest)
                (omega (arith, length-slice m x.addr x.size)))
          ∙ ap (λ k. take k here) (sym left))
    ∙ sym (take-append_ge rem (contents m mid) here (omega (arith, length-contents m mid)))
    ∙ ap (take rem) (sym (contents-append m mid (x ∷ rest)))

module _ {I : Impl} (L : Laws I) where
  open I use {Heap, Ci}
  open L use {
    Chain, At, Keeps, init_lem, close, eoi_nil, eoi_cons, next_lem, size_lem, release_head_lem,
    release_tail_lem, remove_lem, detach_lem, keeps_refl, keeps_trans,
  }

  -- The iterator on which the loop over the kept bytes stops.
  abbrev KeptAt : Heap → Var → ℕ → (pre post : List Seg) → Ci × ℕ → Type 0
  KeptAt h v rem pre post (it, bytes) =
      (mid : List Seg) × (rest : List Seg) × At h v it (pre ++ mid) rest
      × (mid ++ rest ≡ post)
      × Kept rem mid rest bytes

  keep_loop-KeptAt :
      (k bytes rem : ℕ) {h : Heap} {v : Var} {it : Ci} (pre post : List Seg)
      → At h v it pre post
      → length post < k
      → rem < 2 ^ 64
      → Reads (KeptAt h v rem pre post) h (keep_loop I k it bytes rem h)
  unfolding keep_loop
  keep_loop-KeptAt zero bytes rem pre post at fuel small = absurd (omega arith)
  keep_loop-KeptAt (suc k) bytes rem {h} {v} {it} pre [] at fuel small =
      rw (eoi_nil at)
        (reads ([], [], subst (λ zs. At h v it zs []) (sym (append-nil pre)) at, refl, omega arith))
  keep_loop-KeptAt (suc k) bytes rem {h} {v} {it} pre (x ∷ post) at fuel small =
      let (it', step, at') = next_lem at in
      let kept = gabs_min x.size rem in
      elim (Bool-cases (sub64 rem kept == 0)) [
        | inl stop ↦
            rw (eoi_cons at, size_lem at, stop)
              (reads (
                [],
                x ∷ post,
                subst (λ zs. At h v it zs (x ∷ post)) (sym (append-nil pre)) at,
                refl,
                ground arith,
              ))
        | inr more ↦
            rw (eoi_cons at, size_lem at, more, step)
              (Reads-mono
                (keep_loop-KeptAt k kept (sub64 rem kept) (pre ++ x ∷ []) post at' (omega arith)
                  (omega arith))
                λ (it'', bytes') (mid, rest, at'', same, kept'). (
                  x ∷ mid,
                  rest,
                  subst (λ zs. At h v it'' zs rest) (append_assoc pre (x ∷ []) mid) at'',
                  ap (λ zs. x ∷ zs) same,
                  Kept-cons rem (sub64 rem kept) x mid rest bytes' (ground arith) (ground arith)
                      kept',
                ))
      ]

  -- The chain of `v` holds `f` of its bytes, whatever is in memory; nothing but `v` and its
  -- fragments has changed.
  abbrev pub Holding : Heap → Var → List Seg → (List ℕ → List ℕ) → Unit {0} → Heap → Type 0
  Holding h v xs f _ h' =
      (zs : List Seg) × Chain h' v zs
      × ((m : Mem) → contents m zs ≡ f (contents m xs))
      × Keeps v xs h h'

  detach_rest-Chain :
      (fuel : ℕ) {h h1 : Heap} {v : Var} {it : Ci} (pre : List Seg) (x y : Seg) (rest : List Seg)
      → At h1 v it pre (y ∷ rest)
      → Keeps v (pre ++ x ∷ rest) h h1
      → x.id ≡ y.id
      → length rest < fuel
      → Ends
          (λ _ h'. Chain h' v (pre ++ y ∷ []) × Keeps v (pre ++ x ∷ rest) h h')
          (detach_rest I fuel it h1)
  unfolding detach_rest
  detach_rest-Chain fuel {h1} {v} pre x y [] at keeps e enough =
      let (it', step, at') = next_lem at in
      rw (step, eoi_nil at')
        (ends (subst (Chain h1 v) (append-nil (pre ++ y ∷ [])) (close at'), keeps))
  detach_rest-Chain fuel {h1} {v} pre x y (z ∷ rest) at keeps e enough =
      let (it', step, at') = next_lem at in
      let (h2, run, chain, keeps2) = detach_lem fuel at' (omega arith) in
      rw (step, eoi_cons at', run)
        (ends (
          chain,
          keeps_trans keeps keeps2 λ p out.
              subst (NotIn p) (sym (append_assoc pre (y ∷ []) (z ∷ rest)))
                (NotIn-same p pre x y (z ∷ rest) e out),
        ))

  -- The segment under the iterator is cut to `bytes`, and those behind it are detached.
  cut_behind-Chain :
      (fuel bytes : ℕ) {h : Heap} {v : Var} {it : Ci} (pre : List Seg) (x : Seg) (rest : List Seg)
      → At h v it pre (x ∷ rest)
      → bytes ≤ x.size
      → x.size < 2 ^ 64
      → length rest < fuel
      → Ends
          (λ _ h'.
            Chain h' v (pre ++ cut_tail (x.size - bytes) x ∷ []) × Keeps v (pre ++ x ∷ rest) h h')
          (cut_behind I fuel (it, bytes) h)
  unfolding cut_behind
  cut_behind-Chain fuel bytes {h} {v} {it} pre x rest at le small enough =
      elim (Bool-cases (ltb bytes x.size)) [
        | inl less ↦
            let n = sub64 x.size bytes in
            let (h1, run, at1, keeps1) = release_tail_lem n at (omega arith) in
            let e : n ≡ x.size - bytes = omega arith in
            rw (eoi_cons at, size_lem at, less, run)
              (detach_rest-Chain fuel pre x (cut_tail (x.size - bytes) x) rest
                (subst (λ k. At h1 v it pre (cut_tail k x ∷ rest)) e at1) keeps1 refl enough)
        | inr whole ↦
            let e : x ≡ cut_tail (x.size - bytes) x = ground arith in
            rw (eoi_cons at, size_lem at, whole)
              (detach_rest-Chain fuel pre x (cut_tail (x.size - bytes) x) rest
                (subst (λ y. At h v it pre (y ∷ rest)) e at) (keeps_refl v _) refl enough)
      ]

  -- The second block of `gabs_pbuf_shrink`, from the head of a chain.
  pub shrink_tail-Holding :
      (fuel size : ℕ) {h : Heap} {v : Var} {it : Ci} (xs : List Seg)
      → At h v it [] xs
      → length xs < fuel
      → total xs < 2 ^ 64
      → size < 2 ^ 64
      → Ends (Holding h v xs (take size)) (shrink_tail I fuel size it h)
  unfolding shrink_tail cut_behind
  shrink_tail-Holding fuel size {h} {v} xs at enough small lim =
      then-Reads _ (keep_loop-KeptAt fuel 0 size [] xs at enough lim)
        λ (it', bytes) (mid, rest, at', same, kept).
          weaken
            (behind it' bytes mid rest at' (subst (λ zs. length zs < fuel) (sym same) enough)
              (subst (λ zs. total zs < 2 ^ 64) (sym same) small) kept)
            λ u h' (zs, chain, bytes_eq, keeps). (
              zs,
              chain,
              subst (λ l. (m : Mem) → contents m zs ≡ take size (contents m l)) same bytes_eq,
              subst (λ l. Keeps v l h h') same keeps,
            )
    where
      behind :
          (it' : Ci) (bytes : ℕ) (mid rest : List Seg)
          → At h v it' mid rest
          → length (mid ++ rest) < fuel
          → total (mid ++ rest) < 2 ^ 64
          → Kept size mid rest bytes
          → Ends (Holding h v (mid ++ rest) (take size)) (cut_behind I fuel (it', bytes) h)
      behind it' bytes mid [] at' enough' small' kept = rw (eoi_nil at') (
          ends (
            mid ++ [],
            close at',
            λ m. sym (
                take_all size (contents m (mid ++ []))
                  (omega (arith, length-contents m (mid ++ []), total-append mid []))),
            keeps_refl v (mid ++ []),
          ))
      behind it' bytes mid (x ∷ rest) at' enough' small' kept =
          weaken
            (cut_behind-Chain fuel bytes mid x rest at' kept.1
              (omega (arith, total-append mid (x ∷ rest)))
              (omega (arith, length-append mid (x ∷ rest))))
            λ u h' (chain, keeps).
              (_, chain, λ m. take-contents m size bytes mid x rest kept, keeps)
