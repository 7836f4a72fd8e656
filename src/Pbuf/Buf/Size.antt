-- ===== src/Pbuf/Buf/Size.antt =====
-- What `gabs_pbuf_size`, `gabs_pbuf_tailroom` and `gabs_pbuf_headroom` return.
use gabs.Base.{ℕ, zero, suc, ◌+◌, ◌<◌, ◌^◌, ◌≡◌, refl, ap, ◌∙◌, List, [], ◌∷◌, arith, length, add64}
use gabs.Base.Run.{ok}
use gabs.Pbuf.Seg.{Seg, total}
use gabs.Pbuf.Iface.{Var, Impl, Laws}
use gabs.Pbuf.Buf.{size_loop, pbuf_size, tailroom_loop, tailroom, headroom}

-- The last segment's tailroom, and the first segment's headroom; 0 for no segment.
abbrev pub last_tail : List Seg → ℕ
last_tail [] = 0
last_tail (x ∷ []) = x.tail
last_tail (x ∷ y ∷ xs) = last_tail (y ∷ xs)

abbrev pub first_head : List Seg → ℕ
first_head [] = 0
first_head (x ∷ _) = x.head

module _ {I : Impl} (L : Laws I) where
  open I use {Heap, Ci, ci_tailroom}
  open L use {
    Chain, At, init_lem, eoi_nil, eoi_cons, next_lem, size_lem, tailroom_lem, headroom_lem,
  }

  size_loop_lem :
      (k acc : ℕ) {h : Heap} {v : Var} {it : Ci} {pre : List Seg} (xs : List Seg)
      → At h v it pre xs
      → length xs < k
      → acc + total xs < 2 ^ 64
      → size_loop I k it acc h ≡ ok (acc + total xs) h
  unfolding size_loop
  size_loop_lem zero acc xs at fuel small = absurd (omega arith)
  size_loop_lem (suc k) acc {h} [] at fuel small = rw (eoi_nil at) (ap (λ n. ok n h) (omega arith))
  size_loop_lem (suc k) acc {h} (x ∷ xs) at fuel small =
      let (it', step, at') = next_lem at in
      rw (eoi_cons at, size_lem at, step)
        (size_loop_lem k (add64 acc x.size) xs at' (omega arith) (omega arith)
          ∙ ap (λ n. ok n h) (omega arith))

  -- On a chain of fewer than 2 ^ 64 bytes, with more rounds than segments, `gabs_pbuf_size` returns
  -- the sum of the segments' sizes, and changes nothing.
  pub pbuf_size-total :
      (fuel : ℕ) {h : Heap} {v : Var} (xs : List Seg)
      → Chain h v xs
      → length xs < fuel
      → total xs < 2 ^ 64
      → pbuf_size I fuel v h ≡ ok (total xs) h
  unfolding pbuf_size
  pbuf_size-total fuel {h} xs chain enough small =
      let (it, start, at) = init_lem chain in
      rw start (size_loop_lem fuel 0 xs at enough (omega arith) ∙ ap (λ n. ok n h) (omega arith))

  -- The iterator on which the loop of `gabs_pbuf_tailroom` stops.
  tailroom_loop_lem :
      (k : ℕ) {h : Heap} {v : Var} {it : Ci} {pre : List Seg} (x : Seg) (xs : List Seg)
      → At h v it pre (x ∷ xs)
      → length xs < k
      → (it' : Ci) × (pre' : List Seg) × (y : Seg) × (tailroom_loop I k it h ≡ ok it' h)
        × At h v it' pre' (y ∷ [])
        × (y.tail ≡ last_tail (x ∷ xs))
  unfolding tailroom_loop
  tailroom_loop_lem zero x xs at fuel = absurd (omega arith)
  tailroom_loop_lem (suc k) {it} {pre} x [] at fuel =
      let (it', step, at') = next_lem at in
      (it, pre, x, rw (eoi_cons at, step, eoi_nil at'), at, refl)
  tailroom_loop_lem (suc k) x (y ∷ xs) at fuel =
      let (it', step, at') = next_lem at in
      let (last, pre', z, run, at'', e) = tailroom_loop_lem k y xs at' (omega arith) in
      (last, pre', z, rw (eoi_cons at, step, eoi_cons at') run, at'', e)

  -- With more rounds than segments, `gabs_pbuf_tailroom` returns the tailroom of the last segment, 0
  -- for an empty chain, `gabs_pbuf_headroom` the headroom of the first, and both change nothing.
  pub tailroom-headroom :
      (fuel : ℕ) {h : Heap} {v : Var} (xs : List Seg)
      → Chain h v xs
      → length xs < fuel
      → (tailroom I fuel v h ≡ ok (last_tail xs) h) × (headroom I v h ≡ ok (first_head xs) h)
  unfolding tailroom headroom tailroom_loop
  tailroom-headroom zero xs chain enough = absurd (omega arith)
  tailroom-headroom (suc k) {h} [] chain enough =
      let (it, start, at) = init_lem chain in
      (rw (start, eoi_nil at, eoi_nil at), rw (start, eoi_nil at))
  tailroom-headroom (suc k) {h} (x ∷ xs) chain enough =
      let (it, start, at) = init_lem chain in
      let (it', pre', y, run, at', e) = tailroom_loop_lem (suc k) x xs at (omega arith) in
      (
        rw (start, run, eoi_cons at', tailroom_lem at') (ap (λ n. ok n h) e),
        rw (start, eoi_cons at, headroom_lem at),
      )
