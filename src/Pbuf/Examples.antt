-- ===== src/Pbuf/Examples.antt =====
-- A concrete heap of three fragments in two buffers (pbuf/basic/gabs_pbuf_def.h).
mod Basic
mod Buf
use gabs.Base.{
  ℕ, ◌-◌, leb, ◌≡◌, refl, none, some, List, [], ◌∷◌, ◌++◌, arith, false, if◌then◌else◌, inl, inr,
  take, drop,
}
use gabs.Base.Run.{ok, Ends, fault, Reads}
use gabs.Pbuf.Seg.{Mem, Seg, contents}
use gabs.Pbuf.Iface.{grow_tail, cut_head, cut_tail}
use gabs.Pbuf.Basic.{
  Frag, Heap, Ci, update, basic, root, next_of, new, new_ro, decref_loop, ci_insert, ci_remove,
  ci_detach, ci_reserve_tail, ci_release_head, ci_release_tail,
}
use gabs.Pbuf.Basic.Leads.{seg}
use gabs.Pbuf.Basic.Link.{OnlyFrags, decref_loop-OnlyFrags}
use gabs.Pbuf.Basic.Splice.{insert_lem, remove_lem, detach_lem}
use gabs.Pbuf.Basic.Alloc.{Offers, new_lem, new_ro_lem}
use gabs.Pbuf.Basic.Resize.{reserve_tail_lem, release_head_lem, release_tail_lem}
use gabs.Pbuf.Basic.At.{Chain, At, Keeps}
use gabs.Pbuf.Basic.Laws.{basic_laws}
use gabs.Pbuf.Buf.{
  pbuf_size, tailroom, headroom, chain_front, chain_back, chain_at, copy, clone, shrink, strip_head,
  strip_tail, put,
}
use gabs.Pbuf.Buf.Size.{pbuf_size-total, tailroom-headroom}
use gabs.Pbuf.Buf.Chain.{
  Spliced, SplicedAt, chain_front-append, chain_back-append, chain_at-splice, chain_at-unaligned,
}
use gabs.Pbuf.Buf.Shrink.Keep.{Holding}
use gabs.Pbuf.Buf.Shrink.{shrink-Holding}
use gabs.Pbuf.Buf.Strip.{strip_head-drop, strip_tail-take}
use gabs.Pbuf.Buf.Put.{Filled, fill, put-Filled}
use gabs.Pbuf.Buf.Clone.{Cloned, clone-Cloned}
use gabs.Pbuf.Buf.Copy.{Copied, copy-Copied}

-- 3 bytes with room before and behind, then 2 bytes with room behind.
abbrev pub frag_a : Frag
frag_a = record {
  base = 1000;
  payload = 1002;
  size = 3;
  cap = 8;
  readonly = false;
  refcnt = 1;
  next = 200;
  alloc = 1;
}

abbrev pub frag_b : Frag
frag_b = record {
  base = 2000;
  payload = 2000;
  size = 2;
  cap = 4;
  readonly = false;
  refcnt = 1;
  next = 0;
  alloc = 1;
}

-- 1 byte, in a buffer of its own.
abbrev pub frag_c : Frag
frag_c = record {
  base = 3000;
  payload = 3001;
  size = 1;
  cap = 2;
  readonly = false;
  refcnt = 1;
  next = 0;
  alloc = 1;
}

abbrev pub heap : Heap
heap = record {
  frags =
      update (update (update (λ _. none) 100 (some frag_a)) 200 (some frag_b)) 300 (some frag_c);
  vars = update (update (λ _. 0) 1 100) 2 300;
  supply = (λ _. 5000) ∷ (λ _. 6000) ∷ [];
}

abbrev pub seg_a : Seg
seg_a = seg 100 frag_a

abbrev pub seg_b : Seg
seg_b = seg 200 frag_b

abbrev pub seg_c : Seg
seg_c = seg 300 frag_c

abbrev pub ab : List Seg
ab = seg_a ∷ seg_b ∷ []

-- Every byte is the last three digits of its address.
abbrev pub mem : Mem
mem a = a

pub ab-Chain : Chain heap 1 ab
ab-Chain = record {
  path = (
    frag_a,
    record { ne_null = omega arith; holds = refl; is = refl; fits = omega arith },
    (frag_b, record { ne_null = omega arith; holds = refl; is = refl; fits = omega arith }, refl),
  );
  distinct = omega arith;
}

pub c-Chain : Chain heap 2 (seg_c ∷ [])
c-Chain = record {
  path =
      (frag_c, record { ne_null = omega arith; holds = refl; is = refl; fits = omega arith }, refl);
  distinct = omega arith;
}

abbrev pub it_a : Ci
it_a = record { cur = 100; lastp = root 1 }

abbrev pub it_b : Ci
it_b = record { cur = 200; lastp = next_of 100 }

pub it_a-At : At heap 1 it_a [] ab
it_a-At = record { front = refl; back = ab-Chain.path; last = refl; distinct = omega arith }

pub it_b-At : At heap 1 it_b (seg_a ∷ []) (seg_b ∷ [])
it_b-At = record {
  front =
      (frag_a, record { ne_null = omega arith; holds = refl; is = refl; fits = omega arith }, refl);
  back =
      (frag_b, record { ne_null = omega arith; holds = refl; is = refl; fits = omega arith }, refl);
  last = refl;
  distinct = omega arith;
}

-- An empty segment of 16 bytes behind the fragment at 5000.
abbrev pub seg_new : ℕ → Seg
seg_new n = record { id = 5000; addr = 5056; size = 0; head = 0; tail = n }

pub heap-Offers : Offers heap 16 (seg_new 16)
heap-Offers = record {
  answer = λ _. 5000;
  rest = (λ _. 6000) ∷ [];
  next = refl;
  gives = refl;
  ne_null = omega arith;
  unused = refl;
  addr = refl;
  size = refl;
  head = refl;
  tail = refl;
  small = omega arith;
}

pub heap-Offers_none : Offers heap 0 (seg_new 0)
heap-Offers_none = record {
  answer = λ _. 5000;
  rest = (λ _. 6000) ∷ [];
  next = refl;
  gives = refl;
  ne_null = omega arith;
  unused = refl;
  addr = refl;
  size = refl;
  head = refl;
  tail = refl;
  small = omega arith;
}

abbrev pub seg_clone : Seg
seg_clone = seg_new 3

pub heap-Offers_clone : Offers heap 3 seg_clone
heap-Offers_clone = record {
  answer = λ _. 5000;
  rest = (λ _. 6000) ∷ [];
  next = refl;
  gives = refl;
  ne_null = omega arith;
  unused = refl;
  addr = refl;
  size = refl;
  head = refl;
  tail = refl;
  small = omega arith;
}
