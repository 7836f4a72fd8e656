-- ===== src/Pbuf/Net/Laws.antt =====
-- The implementation for Zephyr (pbuf/zephyr/net_buf.c) keeps the promises of the interface.
use gabs.Base.{ℕ, ◌<◌, ◌≡◌, ◌≢◌, refl, Bool, List, [], ◌∷◌, ◌++◌, length}
use gabs.Base.Run.{ok}
use gabs.Alloc.{Tables}
use gabs.Pbuf.Seg.{Seg, Apart}
use gabs.Pbuf.Iface.{Var, Laws}
use gabs.Pbuf.Basic.{Heap}
use gabs.Pbuf.Basic.At.{Chain, Keeps, Keeps-Chain}
use gabs.Pbuf.Basic.Laws.{Keeps-trans}
use gabs.Pbuf.NetBuf.{Calls, Documented}
use gabs.Pbuf.Net.{Ci, net, ci_insert}
use gabs.Pbuf.Net.At
use gabs.Pbuf.Net.Resize
use gabs.Pbuf.Net.Splice
use gabs.Pbuf.Net.Cut
use gabs.Pbuf.Net.Alloc
use gabs.Pbuf.Net.Alloc.{Offers, Offers-fresh}

-- A chain that has a segment.
abbrev pub IsCons : List Seg → Type 0
IsCons [] = ⊥
IsCons (x ∷ xs) = Unit {0}

module _ (ndebug : Bool) (calls : Calls) (tables : Tables Heap) (api : ℕ)
    (documented : Documented calls) where
  pub insert-some :
      {h : Heap} {v w : Var} {it : Ci} {pre post : List Seg} (ys : List Seg) (fuel : ℕ)
      → At.At h v it pre post
      → Chain h w ys
      → v ≢ w
      → Apart (pre ++ post) ys
      → IsCons ys
      → length ys < fuel
      → (it' : Ci) × (h' : Heap) × (ci_insert ndebug calls tables api fuel it w h ≡ ok it' h')
        × At.At h' v it' pre (ys ++ post)
        × Keeps v ((pre ++ post) ++ ys) h h'
  insert-some [] fuel at other ne apart some short = absurd some
  insert-some (y ∷ ys) fuel at other ne apart some short =
      Splice.ci_insert-At ndebug calls tables api documented fuel y ys at other ne apart short

  -- The operations of the implementation for Zephyr satisfy the interface that the operations of
  -- pbuf/buf.c are proved against, for the insertion of buffers that are not empty, when Zephyr's
  -- calls behave as documented.
  unfoldable pub net_laws : Laws (net ndebug calls tables api)
  net_laws = record {
    Chain = Chain;
    At = At.At;
    Keeps = Keeps;
    Offers = Offers tables api;
    Inserts = IsCons;
    init_lem = At.init_lem ndebug calls tables api;
    close = At.close;
    okay_nil = At.okay_nil ndebug calls tables api;
    okay_cons = At.okay_cons ndebug calls tables api;
    eoi_nil = At.eoi_nil ndebug calls tables api;
    eoi_cons = At.eoi_cons ndebug calls tables api;
    next_lem = At.next_lem ndebug calls tables api;
    data_lem = At.data_lem ndebug calls tables api;
    size_lem = At.size_lem ndebug calls tables api;
    headroom_lem = λ at. At.headroom_lem ndebug calls tables api at documented;
    tailroom_lem = λ at. At.tailroom_lem ndebug calls tables api at documented;
    reserve_tail_lem = λ n at. Resize.ci_reserve_tail-At ndebug calls tables api documented at n;
    release_head_lem = λ n at. Resize.ci_release_head-At ndebug calls tables api documented at n;
    release_tail_lem = λ n at. Resize.ci_release_tail-At ndebug calls tables api documented at n;
    insert_lem = λ fuel at other. insert-some _ fuel at other;
    remove_lem = λ fuel. Cut.ci_remove-At ndebug calls tables api documented fuel;
    detach_lem = λ fuel. Cut.ci_detach-Chain ndebug calls tables api documented fuel;
    new_lem = λ v alloc o. Alloc.new-Chain tables api ndebug calls v alloc o;
    new_ro_lem =
        λ v alloc addr n o. Alloc.new_ro-small tables api ndebug calls v alloc documented addr n o;
    offers_fresh = λ o chain. Offers-fresh tables api o chain;
    offers_empty = λ o. record { size = o.size; head = o.head; tail = o.tail };
    keeps_refl = λ v xs. record { frags = λ p out. refl; vars = λ w away. refl };
    keeps_trans = Keeps-trans;
    keeps_chain = Keeps-Chain;
    keeps_at = At.Keeps-At;
  }
