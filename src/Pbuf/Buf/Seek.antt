-- ===== src/Pbuf/Buf/Seek.antt =====
-- `buf_seek` finds the segment that holds an offset.
use gabs.Base.{
  ℕ, zero, suc, ◌+◌, ◌≤◌, ◌<◌, ◌^◌, ◌≡◌, refl, ◌∙◌, List, [], ◌∷◌, ◌++◌, append_assoc, arith,
  length, add64, ltb, Bool-cases, inl, inr, ◌==◌, ◌||◌,
}
use gabs.Base.Run.{Reads, reads, Reads-mono}
use gabs.Pbuf.Seg.{Seg, total, total-append}
use gabs.Pbuf.Iface.{Var, Impl, Laws}
use gabs.Pbuf.Buf.{seek_loop, buf_seek}

-- `bytes` come before the segments, and the offset lies in the first of these, or at its end.
abbrev pub Holds : ℕ → ℕ → List Seg → Type 0
Holds offset bytes [] = bytes ≤ offset
Holds offset bytes (x ∷ _) = (bytes ≤ offset) × (offset ≤ bytes + x.size)

module _ {I : Impl} (L : Laws I) where
  open I use {Heap, Ci}
  open L use {Chain, At, init_lem, eoi_nil, eoi_cons, next_lem, size_lem}

  -- An iterator and a boundary between the parts of `xs` before and behind an offset.
  abbrev pub Sought : Heap → Var → ℕ → List Seg → Ci × ℕ → Type 0
  Sought h v offset xs (it, bytes) =
      (pre : List Seg) × (post : List Seg) × (bytes ≡ total pre)
      × At h v it pre post
      × (pre ++ post ≡ xs)
      × Holds offset (total pre) post

  seek_loop-Sought :
      (k offset bytes : ℕ) {h : Heap} {v : Var} {it : Ci} (pre post : List Seg)
      → At h v it pre post
      → length post < k
      → total pre + total post < 2 ^ 64
      → bytes ≡ total pre
      → bytes ≤ offset
      → Reads (Sought h v offset (pre ++ post)) h (seek_loop I k it offset bytes h)
  unfolding seek_loop
  seek_loop-Sought zero offset bytes pre post at fuel small e le = absurd (omega arith)
  seek_loop-Sought (suc k) offset bytes pre [] at fuel small e le =
      rw (eoi_nil at) (reads (pre, [], e, at, refl, omega arith))
  seek_loop-Sought (suc k) offset bytes {h} {v} pre (x ∷ post) at fuel small e le =
      let (it', step, at') = next_lem at in
      elim (Bool-cases (offset == 0 || ltb offset (add64 bytes x.size))) [
        | inl stop ↦
            rw (eoi_cons at, size_lem at, stop)
              (reads (pre, x ∷ post, e, at, refl, (omega arith, ground arith)))
        | inr more ↦
            rw (eoi_cons at, size_lem at, more, step)
              (Reads-mono
                (seek_loop-Sought k offset (add64 bytes x.size) (pre ++ x ∷ []) post at'
                  (omega arith) (omega (arith, total-append pre (x ∷ [])))
                  (omega (arith, total-append pre (x ∷ []))) (ground arith))
                λ r (pre', post', e', at'', same, s).
                  (pre', post', e', at'', same ∙ append_assoc pre (x ∷ []) post, s))
      ]

  pub buf_seek-Sought :
      (fuel offset : ℕ) {h : Heap} {v : Var} {xs : List Seg}
      → Chain h v xs
      → length xs < fuel
      → total xs < 2 ^ 64
      → Reads (Sought h v offset xs) h (buf_seek I fuel v offset h)
  unfolding buf_seek
  buf_seek-Sought fuel offset {xs} chain enough small =
      let (it, start, at) = init_lem chain in
      rw start (seek_loop-Sought fuel offset 0 [] xs at enough (omega arith) refl (omega arith))
