-- ===== src/Pbuf/Buf/Clone.antt =====
-- `gabs_pbuf_clone` (pbuf/buf.c) copies part of a buffer into a new one.
use gabs.Base.{
  ℕ, ◌+◌, ◌≤◌, ◌<◌, ◌^◌, ◌≡◌, ◌≢◌, ap, sym, subst, ◌∙◌, List, [], ◌∷◌, append-nil, arith, length,
  length-take, length-drop, take, drop, ==-refl, ◌⊎◌,
}
use gabs.Base.Run.{Ends, ends, then-Reads}
use gabs.Pbuf.Seg.{Mem, slice, Seg, total, contents, NotIn, Spares, length-contents}
use gabs.Pbuf.Bytes.{contents_same}
use gabs.Pbuf.Iface.{Var, Impl, Laws, grow_tail}
use gabs.Pbuf.Buf.{clone}
use gabs.Pbuf.Buf.Copy.{copy-Copied}

wanted-length :
    (m : Mem) (xs : List Seg) (offset size : ℕ)
    → offset + size ≤ total xs
    → length (take size (drop offset (contents m xs))) ≡ size
wanted-length m xs offset size inside = omega (
  arith,
  length-take size (drop offset (contents m xs)),
  length-drop offset (contents m xs),
  length-contents m xs,
)

module _ {I : Impl} (L : Laws I) where
  open I use {Heap, ndebug}
  open L use {
    Chain, Keeps, Offers, okay_cons, init_lem, close, reserve_tail_lem, new_lem, offers_fresh,
    offers_empty, keeps_chain, keeps_trans,
  }

  -- The variable `ret` holds one segment with the bytes, the source has its chain and its bytes as
  -- before, and only `ret` and the new segment have changed.
  abbrev pub Cloned : Heap → Var → Var → List Seg → ℕ → Seg → Mem → List ℕ → Mem → Heap → Type 0
  Cloned h src ret xs size x m bytes m' h' =
      Chain h' ret (grow_tail size x ∷ [])
      × (contents m' (grow_tail size x ∷ []) ≡ bytes)
      × Chain h' src xs
      × (contents m' xs ≡ contents m xs)
      × Keeps ret (x ∷ []) h h'

  -- `gabs_pbuf_clone` of `size` bytes from an offset, when the buffer has as many there and the
  -- allocator answers with an empty segment, puts these bytes in that segment as the buffer `ret`,
  -- leaves the source with its chain and its bytes, and changes nothing else. The new segment does
  -- not meet the bytes of the source, `ret` is another variable, and there are more rounds than
  -- segments and fewer than 2 ^ 64 bytes.
  pub clone-Cloned :
      (fuel offset size alloc : ℕ) (m : Mem) {h : Heap} {src ret : Var} {xs : List Seg} {x : Seg}
      → Chain h src xs
      → Offers h alloc size x
      → ret ≢ src
      → length xs < fuel
      → total xs < 2 ^ 64
      → offset + size ≤ total xs
      → Spares x.addr size xs
      → Ends
          (Cloned h src ret xs size x m (take size (drop offset (contents m xs))))
          (clone I fuel src ret offset size alloc m h)
  unfolding clone
  clone-Cloned fuel offset size alloc m {h} {src} {ret} {xs} {x} chain offer ne enough small inside
        spares =
      let bytes = take size (drop offset (contents m xs)) in
      let y = grow_tail size x in
      let empty = offers_empty offer in
      let (h1, made, new_chain, keeps1) = new_lem ret alloc offer in
      let fresh : NotIn x.id xs = offers_fresh offer chain in
      let (it, start, at) = init_lem new_chain in
      let (h2, grown, at2, keeps2) = reserve_tail_lem size at (omega (arith, empty.tail)) in
      let keeps : Keeps ret (x ∷ []) h h2 = keeps_trans keeps1 keeps2 λ p o. o in
      let chain2 : Chain h2 src xs = keeps_chain keeps chain ne (fresh, tt) in
      let where_ : x.addr + x.size ≡ x.addr = omega (arith, empty.size) in
      rw (made, okay_cons new_chain, start, grown, where_)
        (then-Reads _
          (copy-Copied L fuel x.addr offset size m chain2 enough small (omega arith) (omega arith)
            spares)
          λ (n, m') (e, got, same).
            let len = wanted-length m xs offset size inside in
            let exact : n ≡ size = omega (arith, e, len) in
            let held : contents m' (y ∷ []) ≡ bytes =
              append-nil (slice m' x.addr (x.size + size))
              ∙ ap (slice m' x.addr)
                  (let k : x.size + size ≡ length bytes = omega (arith, empty.size, len) in k)
              ∙ got in
            let rest : contents m' xs ≡ contents m xs =
              contents_same m m' x.addr size xs
                (λ b out. same b (subst (λ k. (b < x.addr) ⊎ (x.addr + k ≤ b)) (sym len) out))
                spares in
            rw (exact, ==-refl size) (ends (close at2, held, chain2, rest, keeps)))
