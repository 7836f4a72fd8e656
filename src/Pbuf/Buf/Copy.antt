-- ===== src/Pbuf/Buf/Copy.antt =====
-- `gabs_pbuf_copy` copies the wanted bytes out of a chain.
use gabs.Base.{
  ℕ, zero, suc, ◌+◌, ◌-◌, ◌≤◌, ◌<◌, ◌^◌, ◌≡◌, refl, ap, ap₂, sym, subst, ◌∙◌, ◌⊎◌, inl, inr, List,
  [], ◌∷◌, ◌++◌, arith, length, length-append, take, drop, add64, Bool, sub64, ltb, Bool-cases,
  true, false, ◌||◌, not, take-nil, take_zero,
}
use gabs.Base.Run.{ok, Reads, reads, Reads-mono, Reads-then}
use gabs.Pbuf.Seg.{Mem, slice, memcpy, Seg, total, contents, Spares, total-append, length-slice}
use gabs.Pbuf.Bytes.{
  memcpy_out, slice-memcpy, slice_same, slice-append, contents-memcpy, Spares-sub, Spares-append,
  take-slice-append, drop-contents, drop-contents_past,
}
use gabs.Pbuf.Iface.{Var, Impl, Laws}
use gabs.Pbuf.Buf.{gabs_min, copy_loop, copy_from, copy}
use gabs.Pbuf.Buf.Seek.{Holds, buf_seek-Sought}

-- After a count of `start`, the bytes have been put at `dst`, and nothing else has changed.
abbrev pub Copied : Mem → ℕ → List ℕ → ℕ → ℕ × Mem → Type 0
Copied m dst bytes start (n, m') =
    (n ≡ start + length bytes)
    × (slice m' dst (length bytes) ≡ bytes)
    × ((a : ℕ) → (a < dst) ⊎ (dst + length bytes ≤ a) → m' a ≡ m a)

-- One `memcpy` of `n` bytes, and then the rest.
Copied-memcpy :
    (m : Mem) (dst src n start : ℕ) (rest : List ℕ) (r : ℕ × Mem)
    → Copied (memcpy dst src n m) (dst + n) rest (start + n) r
    → Copied m dst (slice m src n ++ rest) start r
Copied-memcpy m dst src n start rest (count, m') (e, got, same) =
    let len : length (slice m src n ++ rest) ≡ n + length rest =
      omega (arith, length-append (slice m src n) rest, length-slice m src n) in
    (
      omega arith,
      ap (slice m' dst) len
          ∙ slice-append m' dst n (length rest)
          ∙ ap₂ ◌++◌
              (slice_same (memcpy dst src n m) m' dst n (λ b low high. same b (inl high))
                ∙ slice-memcpy dst src n m)
              got,
      λ a out. same a (ground arith) ∙ memcpy_out dst src n m a (ground arith),
    )

Copied-nil : (m : Mem) (dst n : ℕ) (bytes : List ℕ) → bytes ≡ [] → Copied m dst bytes n (n, m)
Copied-nil m dst n [] e = (omega arith, refl, λ a out. refl)
Copied-nil m dst n (b ∷ bytes) e = cc

-- One segment of `s` bytes at `src`, cut at what is still wanted, and then the segments behind it.
Copied-segment :
    (m : Mem) (dst src s start max c next : ℕ) (post : List Seg) (r : ℕ × Mem)
    → c ≡ gabs_min s (max - start)
    → next ≡ start + c
    → Spares dst (max - start) post
    → Copied
        (memcpy dst src c m)
        (dst + c)
        (take (max - next) (contents (memcpy dst src c m) post))
        next
        r
    → Copied m dst (take (max - start) (slice m src s ++ contents m post)) start r
Copied-segment m dst src s start max c next post r e e' spares copied =
    let spares' : Spares dst c post =
      Spares-sub dst (max - start) dst c post (omega arith) (ground arith) spares in
    let left : max - start - c ≡ max - next = omega arith in
    let same : contents (memcpy dst src c m) post ≡ contents m post =
      contents-memcpy dst src c m post spares' in
    let cut : take (max - start) (slice m src s ++ contents m post)
        ≡ slice m src c ++ take (max - next) (contents (memcpy dst src c m) post) =
      take-slice-append m src s (max - start) (contents m post)
      ∙ ap (λ k. slice m src k ++ take (max - start - k) (contents m post)) (sym e)
      ∙ ap₂ (λ k l. slice m src c ++ take k l) left (sym same) in
    subst (λ bytes. Copied m dst bytes start r) (sym cut)
      (Copied-memcpy m dst src c start _ r (
        subst
          (λ k.
            Copied (memcpy dst src c m) (dst + c)
              (take (max - next) (contents (memcpy dst src c m) post)) k r)
          e' copied))

or-true : (b : Bool) → (not b || true) ≡ true
or-true true = refl
or-true false = refl

-- The bytes that are wanted when the walk stops in the segment `x` behind `pre`.
take-drop-contents :
    (m : Mem) (offset max : ℕ) (pre : List Seg) (x : Seg) (post : List Seg)
    → Holds offset (total pre) (x ∷ post)
    → take
        (max - 0)
        (slice m (x.addr + (offset - total pre)) (x.size - (offset - total pre)) ++ contents m post)
      ≡ take max (drop offset (contents m (pre ++ x ∷ post)))
take-drop-contents m offset max pre x post (low, high) =
    ap₂ take (let e : max - 0 ≡ max = omega arith in e)
      (sym (drop-contents m offset pre x post low high))

total-le : (pre : List Seg) (x : Seg) (post : List Seg) → x.size ≤ total (pre ++ x ∷ post)
total-le pre x post = omega (arith, total-append pre (x ∷ post))

module _ {I : Impl} (L : Laws I) where
  open I use {Heap, Ci, okay}
  open L use {
    Chain, At, close, okay_nil, okay_cons, eoi_nil, eoi_cons, next_lem, size_lem, data_lem,
  }

  copy_loop-Copied :
      (k dst start max : ℕ) (m : Mem) {h : Heap} {v : Var} {it : Ci} (pre : List Seg) (x : Seg)
      (post : List Seg)
      → At h v it pre (x ∷ post)
      → length post < k
      → start ≤ max
      → max < 2 ^ 64
      → Spares dst (max - start) post
      → Reads
          (Copied m dst (take (max - start) (contents m post)) start)
          h
          (copy_loop I k it dst start max m h)
  unfolding copy_loop
  copy_loop-Copied zero dst start max m pre x post at fuel le small spares = absurd (omega arith)
  copy_loop-Copied (suc k) dst start max m pre x [] at fuel le small spares =
      let (it', step, at') = next_lem at in
      elim (Bool-cases (ltb start max)) [
        | inl more ↦ rw (more, step, eoi_nil at') (reads (Copied-nil m dst start _ (take-nil _)))
        | inr done ↦ rw done (reads (Copied-nil m dst start _ (take-nil _)))
      ]
  copy_loop-Copied (suc k) dst start max m pre x (y ∷ post) at fuel le small (apart, spares) =
      let (it', step, at') = next_lem at in
      let c = gabs_min y.size (sub64 max start) in
      let d : sub64 max start ≡ max - start = omega arith in
      elim (Bool-cases (ltb start max)) [
        | inl more ↦
            rw (more, step, eoi_cons at', size_lem at', data_lem at')
              (Reads-mono
                (copy_loop-Copied k (dst + c) (add64 start c) max (memcpy dst y.addr c m)
                  (pre ++ x ∷ []) y post at' (omega arith) (ground arith) small
                  (Spares-sub dst (max - start) (dst + c) (max - add64 start c) post (omega arith)
                    (ground arith) spares))
                λ r copied.
                  Copied-segment m dst y.addr y.size start max c (add64 start c) post r
                    (ap (gabs_min y.size) d) (ground arith) spares copied)
        | inr done ↦ rw done (reads (Copied-nil m dst start _ (take_zero _ _ (ground arith))))
      ]

  okay_at :
      {h : Heap} {v : Var} (pre : List Seg) (x : Seg) (post : List Seg)
      → Chain h v (pre ++ x ∷ post)
      → okay v h ≡ ok true h
  okay_at [] x post chain = okay_cons chain
  okay_at (y ∷ pre) x post chain = okay_cons chain

  okay_any : {h : Heap} {v : Var} (xs : List Seg) → Chain h v xs → (b : Bool) × (okay v h ≡ ok b h)
  okay_any [] chain = (false, okay_nil chain)
  okay_any (x ∷ xs) chain = (true, okay_cons chain)

  -- `gabs_pbuf_copy` from where its `buf_seek` stops.
  copy_from-Copied :
      (fuel mem offset max_size bytes : ℕ) (m : Mem) {h : Heap} {v : Var} {it : Ci}
      (pre post : List Seg)
      → At h v it pre post
      → Holds offset (total pre) post
      → bytes ≡ total pre
      → length post < fuel
      → total (pre ++ post) < 2 ^ 64
      → offset < 2 ^ 64
      → max_size < 2 ^ 64
      → Spares mem max_size post
      → Reads
          (Copied m mem (take max_size (drop offset (contents m (pre ++ post)))) 0)
          h
          (copy_from I fuel v mem offset max_size m (it, bytes) h)
  unfolding copy_from
  copy_from-Copied fuel mem offset max_size bytes m {h} {v} pre [] at s e enough small off lim
        spares =
      let (b, known) = okay_any (pre ++ []) (close at) in
      let nothing : take max_size (drop offset (contents m (pre ++ []))) ≡ [] =
        ap (take max_size)
          (drop-contents_past m offset (pre ++ []) (omega (arith, total-append pre [])))
        ∙ take-nil max_size in
      rw (known, eoi_nil at, or-true) (reads (Copied-nil m mem 0 _ nothing))
  copy_from-Copied fuel mem offset max_size bytes m {h} {v} pre (x ∷ post) at s e enough small off
        lim (apart, spares) =
      let from = sub64 offset bytes in
      let rest = sub64 x.size from in
      let c = gabs_min rest max_size in
      let le = total-le pre x post in
      let from_eq : from ≡ offset - total pre = omega arith in
      let rest_eq : rest ≡ x.size - (offset - total pre) = omega arith in
      let c_eq : c ≡ gabs_min (x.size - (offset - total pre)) (max_size - 0) =
        ap₂ gabs_min rest_eq (omega arith) in
      rw (okay_at pre x post (close at), eoi_cons at, size_lem at, data_lem at)
        (Reads-mono
          (copy_loop-Copied fuel (mem + c) (add64 0 c) max_size (memcpy mem (x.addr + from) c m) pre
            x post at (omega arith) (ground arith) lim
            (Spares-sub mem max_size (mem + c) (max_size - add64 0 c) post (omega arith)
              (ground arith) spares))
          λ r copied.
            subst (λ l. Copied m mem l 0 r) (take-drop-contents m offset max_size pre x post s)
              (Copied-segment m mem (x.addr + (offset - total pre)) (x.size - (offset - total pre))
                0 max_size c (add64 0 c) post r c_eq (ground arith)
                (Spares-sub mem max_size mem (max_size - 0) post (omega arith) (omega arith) spares)
                (subst
                  (λ a.
                    Copied (memcpy mem (x.addr + a) c m) (mem + c)
                      (take (max_size - add64 0 c) (contents (memcpy mem (x.addr + a) c m) post))
                      (add64 0 c) r)
                  from_eq copied)))

  -- `gabs_pbuf_copy` puts the bytes of the chain from the offset on, `max_size` at most, at `mem`, and
  -- returns their number; it writes nowhere else and leaves the chain alone. There are more rounds
  -- than segments, fewer than 2 ^ 64 bytes, and the `max_size` bytes at `mem` are none of the chain's.
  pub copy-Copied :
      (fuel mem offset max_size : ℕ) (m : Mem) {h : Heap} {v : Var} {xs : List Seg}
      → Chain h v xs
      → length xs < fuel
      → total xs < 2 ^ 64
      → offset < 2 ^ 64
      → max_size < 2 ^ 64
      → Spares mem max_size xs
      → Reads
          (Copied m mem (take max_size (drop offset (contents m xs))) 0)
          h
          (copy I fuel v mem offset max_size m h)
  unfolding copy
  copy-Copied fuel mem offset max_size m {h} {v} {xs} chain enough small off lim spares =
      Reads-then _ (buf_seek-Sought L fuel offset chain enough small)
        λ (it, bytes) (pre, post, e, at, same, s).
          subst
            (λ zs.
              Reads (Copied m mem (take max_size (drop offset (contents m zs))) 0) h
                (copy_from I fuel v mem offset max_size m (it, bytes) h))
            same
            (copy_from-Copied fuel mem offset max_size bytes m pre post at s e
              (omega (arith, length-append pre post, ap length same)) (omega (arith, ap total same))
              off lim
              (Spares-append mem max_size pre post (subst (Spares mem max_size) (sym same) spares)))
