-- ===== src/Pbuf/Buf/Strip.antt =====
-- `gabs_pbuf_strip_head` and `gabs_pbuf_strip_tail` (pbuf/buf.c) take bytes off an end.
use gabs.Base.{
  ℕ, ◌-◌, ◌<◌, ◌^◌, ◌≡◌, ap, ◌∙◌, List, length, take, drop, take_all, length-drop, arith, sub64,
  leb, if◌then◌else◌, Bool-cases, inl, inr,
}
use gabs.Base.Run.{Ends, weaken}
use gabs.Pbuf.Seg.{Mem, Seg, total, contents, length-contents}
use gabs.Pbuf.Iface.{Var, Impl, Laws}
use gabs.Pbuf.Buf.{strip_head, strip_tail}
use gabs.Pbuf.Buf.Size.{pbuf_size-total}
use gabs.Pbuf.Buf.Shrink.{shrink-Holding}
use gabs.Pbuf.Buf.Shrink.Keep.{Holding}

module _ {I : Impl} (L : Laws I) where
  open I use {Heap}
  open L use {Chain}

  -- `gabs_pbuf_strip_head` drops the first `n` bytes, all of them where there are fewer, and changes
  -- nothing but the buffer and its fragments. There are more rounds than segments, and fewer than
  -- 2 ^ 64 bytes.
  pub strip_head-drop :
      (fuel n : ℕ) {h : Heap} {v : Var} {xs : List Seg}
      → Chain h v xs
      → length xs < fuel
      → total xs < 2 ^ 64
      → n < 2 ^ 64
      → Ends (Holding L h v xs (drop n)) (strip_head I fuel v n h)
  unfolding strip_head
  strip_head-drop fuel n {h} {v} {xs} chain enough small lim =
      rw (pbuf_size-total L fuel xs chain enough small) (
        weaken (shrink-Holding L fuel n (sub64 (total xs) n) chain enough small lim (omega arith))
          λ u h' (zs, chain', held, keeps). (
            zs,
            chain',
            λ m.
                held m
                ∙ take_all _ (drop n (contents m xs))
                    (omega (arith, length-drop n (contents m xs), length-contents m xs)),
            keeps,
          ))

  -- `gabs_pbuf_strip_tail` of no more bytes than there are drops the last `n`, and of more leaves all
  -- of them; it changes nothing but the buffer and its fragments. There are more rounds than
  -- segments, and fewer than 2 ^ 64 bytes.
  pub strip_tail-take :
      (fuel n : ℕ) {h : Heap} {v : Var} {xs : List Seg}
      → Chain h v xs
      → length xs < fuel
      → total xs < 2 ^ 64
      → n < 2 ^ 64
      → Ends
          (Holding L h v xs (λ l. if leb n (total xs) then take (total xs - n) l else l))
          (strip_tail I fuel v n h)
  unfolding strip_tail
  strip_tail-take fuel n {h} {v} {xs} chain enough small lim =
      rw (pbuf_size-total L fuel xs chain enough small) (
        weaken
          (shrink-Holding L fuel 0 (sub64 (total xs) n) chain enough small (omega arith)
            (omega arith))
          λ u h' (zs, chain', held, keeps). (zs, chain', λ m. held m ∙ cut m, keeps))
    where
      cut :
          (m : Mem)
          → take (sub64 (total xs) n) (contents m xs)
            ≡ (if leb n (total xs) then take (total xs - n) (contents m xs) else contents m xs)
      cut m = elim (Bool-cases (leb n (total xs))) [
        | inl le ↦ rw le (ap (λ k. take k (contents m xs)) (ground arith))
        | inr more ↦ rw more (take_all _ (contents m xs) (ground (arith, length-contents m xs)))
      ]
