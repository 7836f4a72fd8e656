-- ===== src/Pbuf/Examples/Basic.antt =====
-- The theorems of pbuf/basic/basic.c at the concrete heap.
use gabs.Base.{◌≡◌, [], ◌∷◌, arith, false}
use gabs.Base.Run.{ok}
use gabs.Pbuf.Basic.{Heap, Ci, ci_insert}
use gabs.Pbuf.Basic.Splice.{insert_lem}
use gabs.Pbuf.Basic.At.{At, Keeps}
use gabs.Pbuf.Examples.{heap, seg_a, seg_b, seg_c, c-Chain, it_b, it_b-At}

insert_lem_example :
    (it' : Ci) × (h' : Heap) × (ci_insert false 2 it_b 2 heap ≡ ok it' h')
    × At h' 1 it' (seg_a ∷ []) (seg_c ∷ seg_b ∷ [])
    × Keeps 1 (seg_a ∷ seg_b ∷ seg_c ∷ []) heap h'
insert_lem_example = insert_lem false 2 it_b-At c-Chain (omega arith) (omega arith) (omega arith)
