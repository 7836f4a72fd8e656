-- ===== src/Pbuf/Buf/Shrink.antt =====
-- `gabs_pbuf_shrink` (pbuf/buf.c) keeps the wanted bytes of a chain, and nothing else.
pub mod Keep
use Keep.{Holding, shrink_tail-Holding}
use gabs.Base.{
  lt→ltb, ℕ, zero, suc, ◌+◌, ◌-◌, ◌≤◌, ◌<◌, ◌^◌, ◌≡◌, refl, ap, ap₂, sym, subst, ◌∙◌, inl, inr,
  List, [], ◌∷◌, ◌++◌, append-nil, append_assoc, arith, length, length-append, take, drop, take-nil,
  take-append_ge, take-append_le, take_all, add64, sub64, ltb, ltb→lt, ltb→ge, Bool, Bool-cases,
  true, false, if◌then◌else◌, ◌==◌,
}
use gabs.Base.Run.{ok, Ends, ends, weaken, then-Ends, Reads, reads, Reads-mono, then-Reads}
use gabs.Pbuf.Seg.{
  Mem, slice, Seg, total, contents, NotIn, NotIn-same, NotIn-right, total-append, length-slice,
  length-contents, contents-append,
}
use gabs.Pbuf.Bytes.{take-slice, drop-contents, drop-contents_past}
use gabs.Pbuf.Iface.{Var, Impl, Laws, cut_head, cut_tail}
use gabs.Pbuf.Buf.{
  gabs_min, head_loop, keep_loop, detach_rest, cut_behind, shrink_tail, cut_head_at, shrink,
}
use gabs.Pbuf.Buf.Walk.{Stops}

module _ {I : Impl} (L : Laws I) where
  open I use {Heap, Ci}
  open L use {
    Chain, At, Keeps, init_lem, close, eoi_nil, eoi_cons, next_lem, size_lem, release_head_lem,
    release_tail_lem, remove_lem, detach_lem, keeps_refl, keeps_trans,
  }

  -- What is left of a chain after segments at its head are removed, and what is gone.
  abbrev HeadCut : Heap → Var → ℕ → ℕ → List Seg → Ci × ℕ → Heap → Type 0
  HeadCut h v offset bytes xs (it, bytes') h' =
      (gone : List Seg) × (ys : List Seg) × At h' v it [] ys
      × (gone ++ ys ≡ xs)
      × (bytes' ≡ bytes + total gone)
      × Stops offset bytes' ys
      × Keeps v xs h h'

  head_loop-HeadCut :
      (k offset bytes : ℕ) {h : Heap} {v : Var} {it : Ci} (xs : List Seg)
      → At h v it [] xs
      → length xs < k
      → bytes + total xs < 2 ^ 64
      → bytes ≤ offset
      → Ends (HeadCut h v offset bytes xs) (head_loop I k it offset bytes h)
  unfolding head_loop
  head_loop-HeadCut zero offset bytes xs at fuel small le = absurd (omega arith)
  head_loop-HeadCut (suc k) offset bytes {v} [] at fuel small le =
      rw (eoi_nil at) (ends ([], [], at, refl, omega arith, le, keeps_refl v []))
  head_loop-HeadCut (suc k) offset bytes {v} (x ∷ xs) at fuel small le =
      let (it', h1, run, at1, keeps1) = remove_lem 2 at (omega arith) in
      elim (Bool-cases (ltb offset (add64 bytes x.size))) [
        | inl past ↦
            rw (eoi_cons at, size_lem at, past)
              (ends (
                [],
                x ∷ xs,
                at,
                refl,
                omega arith,
                (le, omega (arith, ltb→lt _ _ past)),
                keeps_refl v (x ∷ xs),
              ))
        | inr more ↦
            rw (eoi_cons at, size_lem at, more, run)
              (weaken
                (head_loop-HeadCut k offset (add64 bytes x.size) xs at1 (omega arith) (omega arith)
                  (ltb→ge _ _ more))
                λ r h' (gone, ys, at', same, e, s, keeps). (
                  x ∷ gone,
                  ys,
                  at',
                  ap (λ zs. x ∷ zs) same,
                  omega arith,
                  s,
                  keeps_trans keeps1 keeps λ p out. out.1,
                ))
      ]

  -- The rest of `gabs_pbuf_shrink`, when the segments `gone` have been removed.
  cut_head_at-Holding :
      (fuel offset size bytes : ℕ) {h h1 : Heap} {v : Var} {it : Ci} (gone ys : List Seg)
      → At h1 v it [] ys
      → Keeps v (gone ++ ys) h h1
      → bytes ≡ total gone
      → Stops offset bytes ys
      → length ys < fuel
      → total (gone ++ ys) < 2 ^ 64
      → offset < 2 ^ 64
      → size < 2 ^ 64
      → Ends
          (Holding L h v (gone ++ ys) (λ l. take size (drop offset l)))
          (cut_head_at I fuel offset size (it, bytes) h1)
  unfolding cut_head_at
  cut_head_at-Holding fuel offset size bytes gone [] at keeps e s enough small off lim =
      rw (eoi_nil at) (
        ends (
          [],
          close at,
          λ m.
              sym (take-nil size)
              ∙ ap (take size) (
                  sym (
                    drop-contents_past m offset (gone ++ [])
                      (omega (arith, total-append gone [])))),
          keeps,
        ))
  cut_head_at-Holding fuel offset size bytes {h} {h1} {v} {it} gone (x ∷ ys) at keeps e s enough
        small off lim =
      let cut = offset - bytes in
      let y = cut_head cut x in
      let fits = total-append gone (x ∷ ys) in
      elim (Bool-cases (ltb bytes offset)) [
        | inl more ↦
            let n = sub64 offset bytes in
            let (h2, run, at2, keeps2) = release_head_lem n at (omega arith) in
            let e' : n ≡ cut = omega arith in
            rw (eoi_cons at, more, run)
              (rest h2 (subst (λ k. At h2 v it [] (cut_head k x ∷ ys)) e' at2)
                (keeps_trans keeps keeps2 λ p out. NotIn-right p gone (x ∷ ys) out))
        | inr met ↦
            let same : x ≡ y = ground arith in
            rw (eoi_cons at, met) (rest h1 (subst (λ z. At h1 v it [] (z ∷ ys)) same at) keeps)
      ]
    where
      rest :
          (h2 : Heap)
          → At h2 v it [] (cut_head (offset - bytes) x ∷ ys)
          → Keeps v (gone ++ x ∷ ys) h h2
          → Ends
              (Holding L h v (gone ++ x ∷ ys) (λ l. take size (drop offset l)))
              (shrink_tail I fuel size it h2)
      rest h2 at2 keeps2 =
          weaken
            (shrink_tail-Holding L fuel size (cut_head (offset - bytes) x ∷ ys) at2 enough
              (omega (arith, total-append gone (x ∷ ys))) lim)
            λ u h' (zs, chain, held, keeps3). (
              zs,
              chain,
              λ m. held m ∙ ap (take size) (wanted m),
              keeps_trans keeps2 keeps3 λ p out. NotIn-right p gone (x ∷ ys) out,
            )
        where
          wanted :
              (m : Mem)
              → contents m (cut_head (offset - bytes) x ∷ ys)
                ≡ drop offset (contents m (gone ++ x ∷ ys))
          wanted m =
              ap (λ k. contents m (cut_head (offset - k) x ∷ ys)) e
              ∙ sym (drop-contents m offset gone x ys (omega arith) (omega arith))

  -- `gabs_pbuf_shrink` leaves a chain that holds `size` bytes from the offset on, or as many as there
  -- are, and changes nothing but the buffer and its fragments. There are more rounds than segments,
  -- and fewer than 2 ^ 64 bytes.
  pub shrink-Holding :
      (fuel offset size : ℕ) {h : Heap} {v : Var} {xs : List Seg}
      → Chain h v xs
      → length xs < fuel
      → total xs < 2 ^ 64
      → offset < 2 ^ 64
      → size < 2 ^ 64
      → Ends (Holding L h v xs (λ l. take size (drop offset l))) (shrink I fuel v offset size h)
  unfolding shrink
  shrink-Holding fuel zero size {xs} chain enough small off lim =
      let (it, start, at) = init_lem chain in
      rw start (shrink_tail-Holding L fuel size xs at enough small lim)
  shrink-Holding fuel (suc o) size {h} {v} {xs} chain enough small off lim =
      let offset = suc o in
      let (it, start, at) = init_lem chain in
      rw (start, lt→ltb 0 offset (omega arith))
        (then-Ends (head_loop-HeadCut fuel offset 0 xs at enough (omega arith) (omega arith))
          λ (it', bytes) h1 (gone, ys, at1, same, e, s, keeps).
            subst
              (λ zs.
                Ends (Holding L h v zs (λ l. take size (drop offset l)))
                  (cut_head_at I fuel offset size (it', bytes) h1))
              same
              (cut_head_at-Holding fuel offset size bytes gone ys at1
                (subst (λ zs. Keeps v zs h h1) (sym same) keeps) (omega arith) s
                (omega (arith, length-append gone ys, ap length same))
                (subst (λ zs. total zs < 2 ^ 64) (sym same) small) off lim))
