-- ===== src/Pbuf/Basic/Laws.antt =====
-- The basic implementation (pbuf/basic/basic.c) keeps the promises of the interface.
use gabs.Base.{ℕ, refl, ◌∙◌, Bool, List}
use gabs.Pbuf.Seg.{Seg, NotIn}
use gabs.Pbuf.Iface.{Var, Laws}
use gabs.Pbuf.Basic.{Heap, basic}
use gabs.Pbuf.Basic.At
use gabs.Pbuf.Basic.At.{Chain, Keeps}
use gabs.Pbuf.Basic.Resize
use gabs.Pbuf.Basic.Splice
use gabs.Pbuf.Basic.Alloc
use gabs.Pbuf.Basic.Alloc.{Offers}

pub Keeps-trans :
    {h h' h'' : Heap} {v : Var} {xs ys : List Seg}
    → Keeps v xs h h'
    → Keeps v ys h' h''
    → ((p : ℕ) → NotIn p xs → NotIn p ys)
    → Keeps v xs h h''
Keeps-trans a b within = record {
  frags = λ p out. b.frags p (within p out) ∙ a.frags p out;
  vars = λ w away. b.vars w away ∙ a.vars w away;
}

-- The operations of the basic implementation satisfy the interface that the operations of
-- pbuf/buf.c are proved against.
unfoldable pub basic_laws : (ndebug : Bool) → Laws (basic ndebug)
basic_laws ndebug = record {
  Chain = Chain;
  At = At.At;
  Keeps = Keeps;
  Offers = λ h alloc n x. Offers h n x;
  Inserts = λ xs. Unit;
  init_lem = At.init_lem ndebug;
  close = At.close;
  okay_nil = At.okay_nil ndebug;
  okay_cons = At.okay_cons ndebug;
  eoi_nil = At.eoi_nil ndebug;
  eoi_cons = At.eoi_cons ndebug;
  next_lem = At.next_lem ndebug;
  data_lem = At.data_lem ndebug;
  size_lem = At.size_lem ndebug;
  headroom_lem = At.headroom_lem ndebug;
  tailroom_lem = At.tailroom_lem ndebug;
  reserve_tail_lem = λ n at. Resize.reserve_tail_lem ndebug at n;
  release_head_lem = λ n at. Resize.release_head_lem ndebug at n;
  release_tail_lem = λ n at. Resize.release_tail_lem ndebug at n;
  insert_lem =
      λ fuel at other ne apart any short. Splice.insert_lem ndebug fuel at other ne apart short;
  remove_lem = λ fuel. Splice.remove_lem ndebug fuel;
  detach_lem = λ fuel. Splice.detach_lem ndebug fuel;
  new_lem = λ v alloc o. Alloc.new_lem ndebug v alloc o;
  new_ro_lem = λ v alloc addr n o narrow. Alloc.new_ro_lem ndebug v alloc addr n o;
  offers_fresh = λ o chain. Alloc.Offers-fresh o chain;
  offers_empty = λ o. record { size = o.size; head = o.head; tail = o.tail };
  keeps_refl = λ v xs. record { frags = λ p out. refl; vars = λ w away. refl };
  keeps_trans = Keeps-trans;
  keeps_chain = At.Keeps-Chain;
  keeps_at = At.Keeps-At;
}
