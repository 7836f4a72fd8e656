-- ===== src/Pbuf/Examples/Buf.antt =====
-- The theorems of pbuf/buf.c at the concrete heap.
use gabs.Base.{◌-◌, leb, refl, [], ◌∷◌, arith, false, if◌then◌else◌, inl, inr, take, drop}
use gabs.Base.Run.{Ends, Reads}
use gabs.Pbuf.Seg.{contents}
use gabs.Pbuf.Basic.{basic}
use gabs.Pbuf.Basic.Laws.{basic_laws}
use gabs.Pbuf.Buf.{chain_at, copy, clone, shrink, strip_tail, put}
use gabs.Pbuf.Buf.Chain.{SplicedAt, chain_at-splice}
use gabs.Pbuf.Buf.Shrink.Keep.{Holding}
use gabs.Pbuf.Buf.Shrink.{shrink-Holding}
use gabs.Pbuf.Buf.Strip.{strip_tail-take}
use gabs.Pbuf.Buf.Put.{Filled, fill, put-Filled}
use gabs.Pbuf.Buf.Clone.{Cloned, clone-Cloned}
use gabs.Pbuf.Buf.Copy.{Copied, copy-Copied}
use gabs.Pbuf.Examples.{heap, seg_c, ab, mem, ab-Chain, c-Chain, seg_clone, heap-Offers_clone}

chain_at-splice_example :
    Ends
      (SplicedAt (basic_laws false) heap 1 3 ab (seg_c ∷ []))
      (chain_at (basic false) 3 1 2 3 heap)
unfolding basic_laws
chain_at-splice_example =
    chain_at-splice (basic_laws false) 3 3 ab-Chain (omega arith) (omega arith) (omega arith)
      c-Chain (omega arith) (omega arith) tt (omega arith) (inr (omega arith, inl refl))

copy-Copied_example :
    Reads
      (Copied mem 9000 (take 3 (drop 2 (contents mem ab))) 0)
      heap
      (copy (basic false) 3 1 9000 2 3 mem heap)
unfolding basic_laws
copy-Copied_example =
    copy-Copied (basic_laws false) 3 9000 2 3 mem ab-Chain (omega arith) (omega arith) (omega arith)
      (omega arith) (inr (omega arith), (inr (omega arith), tt))

shrink-Holding_example :
    Ends
      (Holding (basic_laws false) heap 1 ab (λ l. take 3 (drop 1 l)))
      (shrink (basic false) 3 1 1 3 heap)
unfolding basic_laws
shrink-Holding_example =
    shrink-Holding (basic_laws false) 3 1 3 ab-Chain (omega arith) (omega arith) (omega arith)
      (omega arith)

strip_tail-take_example :
    Ends
      (Holding (basic_laws false) heap 1 ab (λ l. if leb 4 5 then take (5 - 4) l else l))
      (strip_tail (basic false) 3 1 4 heap)
unfolding basic_laws
strip_tail-take_example =
    strip_tail-take (basic_laws false) 3 4 ab-Chain (omega arith) (omega arith) (omega arith)

put-Filled_example :
    Ends
      (Filled (basic_laws false) heap 1 [] ab mem (fill mem ab 7000 4))
      (put (basic false) 3 1 7000 4 mem heap)
unfolding basic_laws
put-Filled_example =
    put-Filled (basic_laws false) 3 7000 4 mem ab-Chain (omega arith) (omega arith)
      (omega arith, (inl (omega arith), tt), (omega arith, tt, tt))
      (inr (omega arith), (inr (omega arith), tt))

clone-Cloned_example :
    Ends
      (Cloned (basic_laws false) heap 1 3 ab 3 seg_clone mem (take 3 (drop 2 (contents mem ab))))
      (clone (basic false) 3 1 3 2 3 1 mem heap)
unfolding basic_laws
clone-Cloned_example =
    clone-Cloned (basic_laws false) 3 2 3 1 mem ab-Chain heap-Offers_clone (omega arith)
      (omega arith) (omega arith) (omega arith) (inr (omega arith), (inr (omega arith), tt))
