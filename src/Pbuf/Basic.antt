-- ===== src/Pbuf/Basic.antt =====
-- The basic implementation of packet buffers (pbuf/basic/gabs_pbuf_def.h, pbuf/basic/basic.c):
-- fragments on an explicit heap, linked by `next`, with a reference count each.
pub mod Alloc
pub mod At
pub mod Laws
pub mod Link
pub mod Leads
pub mod Resize
pub mod Splice
use gabs.Base.{
  ℕ, zero, suc, ◌+◌, Bool, true, false, not, Option, none, some, List, [], ◌∷◌, add64, sub64, add32,
  sub32, ltb, leb, ◌==◌, if◌then◌else◌,
}
use gabs.Base.Run.{Cmd, ok, pure, crash, stuck, ◌>>=◌, ◌>>◌}
use gabs.Pbuf.Iface.{Var, Impl, assert}

abbrev pub Ptr : Type 0
Ptr = ℕ

abbrev pub null : Ptr
null = 0

-- `struct gabs_pbuf_basic_frag`; `payload` is its field `data`
pub record Frag : Type 0 where
  pub base : ℕ
  pub payload : ℕ
  pub size : ℕ
  pub cap : ℕ
  pub readonly : Bool
  pub refcnt : ℕ
  pub next : Ptr
  pub alloc : ℕ

-- `sizeof(struct gabs_pbuf_basic_frag)` on an LP64 platform
abbrev pub frag_bytes : ℕ
frag_bytes = 56

-- Fragments by address, buffer variables (`struct gabs_pbuf_basic`) by name, and what the allocators
-- will answer to the coming requests, each by the number of bytes asked for, NULL for a failure.
pub record Heap : Type 0 where
  pub frags : Ptr → Option Frag
  pub vars : Var → Ptr
  pub supply : List (ℕ → Ptr)

-- `struct gabs_pbuf_basic_frag **`: the member of a buffer variable, or `next` of a fragment
pub data Loc : Type 0 where
  root : Var → Loc
  next_of : Ptr → Loc

-- `struct gabs_pbuf_basic_ci`
pub record Ci : Type 0 where
  pub lastp : Loc
  pub cur : Ptr

abbrev pub update {ℓ} : {A : Type ℓ} → (ℕ → A) → ℕ → A → ℕ → A
update f p a q = if q == p then a else f q

-- `*p`, undefined at NULL and where no fragment lives
pub load : Ptr → Cmd Heap Frag
load p h = if p == null then crash h else elim (h.frags p) [ none ↦ crash h | some f ↦ ok f h ]

abbrev pub put_frag : Ptr → Option Frag → Cmd Heap (Unit {0})
put_frag p f h = ok tt (record h { frags = update h.frags p f })

abbrev pub set_var : Var → Ptr → Cmd Heap (Unit {0})
set_var v p h = ok tt (record h { vars = update h.vars v p })

-- an assignment to `*loc`
pub write_loc : Loc → Ptr → Cmd Heap (Unit {0})
unfolding load
write_loc (root v) q = set_var v q
write_loc (next_of p) q = do f ← load p; put_frag p (some (record f { next = q }))

-- `gabs_alloc`: NULL stands for a status that is not 0
pub take_block : ℕ → Cmd Heap Ptr
take_block n h = elim h.supply [ [] ↦ ok null h | f ∷ fs ↦ ok (f n) (record h { supply = fs }) ]

module _ (ndebug : Bool) where
  -- `gabs_pbuf_new`
  pub new : Var → ℕ → ℕ → Cmd Heap (Unit {0})
  unfolding take_block
  new v alloc size = do
    p ← take_block (add64 frag_bytes size)
    if p == null then (do assert ndebug false; set_var v null) else do
      put_frag p (
          some (record {
            base = p + frag_bytes;
            payload = p + frag_bytes;
            size = 0;
            cap = size;
            readonly = false;
            refcnt = 1;
            next = null;
            alloc = alloc;
          }))
      set_var v p

  -- `gabs_pbuf_okay`
  pub okay : Var → Cmd Heap Bool
  okay v h = ok (not (h.vars v == null)) h

  -- `gabs_pbuf_new_ro`
  pub new_ro : Var → ℕ → ℕ → ℕ → Cmd Heap (Unit {0})
  unfolding new okay load
  new_ro v alloc addr size = do
    new v alloc 0
    good ← okay v
    if not good then (do assert ndebug false; set_var v null) else λ h.
        (do
          f ← load (h.vars v)
          put_frag (h.vars v) (
              some (record f {
                readonly = true;
                base = addr;
                payload = addr;
                size = size;
                cap = size;
              })))
          h

  -- `gabs_pbuf_incref`
  pub incref : Var → Cmd Heap (Unit {0})
  unfolding load
  incref v h =
      (do f ← load (h.vars v); put_frag (h.vars v) (some (record f { refcnt = add32 f.refcnt 1 })))
        h

  -- the loop of `gabs_pbuf_decref`
  pub decref_loop : ℕ → Ptr → Cmd Heap (Unit {0})
  unfolding load
  decref_loop zero cur = stuck
  decref_loop (suc k) cur = if cur == null then pure tt else do
    f ← load cur
    put_frag cur (some (record f { refcnt = sub32 f.refcnt 1 }))
    if ltb 0 (sub32 f.refcnt 1) then pure tt else do put_frag cur none; decref_loop k f.next

  -- `gabs_pbuf_decref`
  pub decref : ℕ → Var → Cmd Heap (Unit {0})
  unfolding decref_loop
  decref fuel v h = decref_loop fuel (h.vars v) h

  -- `gabs_pbuf_ci_init`
  pub ci_init : Var → Cmd Heap Ci
  ci_init v h = ok (record { cur = h.vars v; lastp = root v }) h

  -- `gabs_pbuf_ci_next`
  pub ci_next : Ci → Cmd Heap Ci
  unfolding load
  ci_next it = do f ← load it.cur; pure (record { cur = f.next; lastp = next_of it.cur })

  -- `gabs_pbuf_ci_eoi`
  pub ci_eoi : Ci → Bool
  ci_eoi it = it.cur == null

  -- `gabs_pbuf_ci_data`
  pub ci_data : Ci → Cmd Heap ℕ
  unfolding load
  ci_data it = do f ← load it.cur; pure f.payload

  -- `gabs_pbuf_ci_size`
  pub ci_size : Ci → Cmd Heap ℕ
  unfolding load
  ci_size it = do f ← load it.cur; pure f.size

  -- `gabs_pbuf_ci_cap`
  pub ci_cap : Ci → Cmd Heap ℕ
  unfolding load
  ci_cap it = do f ← load it.cur; pure f.cap

  -- `gabs_pbuf_ci_headroom`
  pub ci_headroom : Ci → Cmd Heap ℕ
  unfolding load
  ci_headroom it = do f ← load it.cur; pure (sub64 f.payload f.base)

  -- `gabs_pbuf_ci_tailroom`
  pub ci_tailroom : Ci → Cmd Heap ℕ
  unfolding load ci_headroom
  ci_tailroom it = do
    f ← load it.cur
    headroom ← ci_headroom it
    pure (sub64 (sub64 f.cap f.size) headroom)

  -- `gabs_pbuf_ci_reserve_head`
  pub ci_reserve_head : Ci → ℕ → Cmd Heap ℕ
  unfolding load ci_headroom
  ci_reserve_head it bytes = do
    headroom ← ci_headroom it
    assert ndebug (leb bytes headroom)
    f ← load it.cur
    put_frag it.cur (some (record f { payload = sub64 f.payload bytes; size = add64 f.size bytes }))
    pure (sub64 f.payload bytes)

  -- `gabs_pbuf_ci_release_head`
  pub ci_release_head : Ci → ℕ → Cmd Heap ℕ
  unfolding load
  ci_release_head it bytes = do
    f ← load it.cur
    assert ndebug (leb bytes f.size)
    put_frag it.cur (some (record f { size = sub64 f.size bytes; payload = f.payload + bytes }))
    pure f.payload

  -- `gabs_pbuf_ci_reserve_tail`
  pub ci_reserve_tail : Ci → ℕ → Cmd Heap ℕ
  unfolding load ci_tailroom
  ci_reserve_tail it bytes = do
    tailroom ← ci_tailroom it
    assert ndebug (leb bytes tailroom)
    f ← load it.cur
    put_frag it.cur (some (record f { size = add64 f.size bytes }))
    pure (f.payload + f.size)

  -- `gabs_pbuf_ci_release_tail`
  pub ci_release_tail : Ci → ℕ → Cmd Heap ℕ
  unfolding load
  ci_release_tail it bytes = do
    f ← load it.cur
    assert ndebug (leb bytes f.size)
    put_frag it.cur (some (record f { size = sub64 f.size bytes }))
    pure (f.payload + sub64 f.size bytes)

  -- the loop of `gabs_pbuf_ci_insert`: the fragment whose `next` is at `lastp`, `none` for the member
  -- of its own parameter
  pub insert_loop : ℕ → Option Ptr → Ptr → Cmd Heap (Option Ptr)
  unfolding load
  insert_loop zero lastp cur = stuck
  insert_loop (suc k) lastp cur =
      if cur == null then pure lastp else do f ← load cur; insert_loop k (some cur) f.next

  -- `*lastp = it.cur` there, which gives the parameter's member
  pub link_last : Option Ptr → Ptr → Ptr → Cmd Heap Ptr
  unfolding write_loc
  link_last none first cur = pure cur
  link_last (some p) first cur = do write_loc (next_of p) cur; pure first

  -- `gabs_pbuf_ci_insert`
  pub ci_insert : ℕ → Ci → Var → Cmd Heap Ci
  unfolding insert_loop link_last write_loc
  ci_insert fuel it buf h =
      (do
        lastp ← insert_loop fuel none (h.vars buf)
        first ← link_last lastp (h.vars buf) it.cur
        write_loc it.lastp first
        pure (record { cur = first; lastp = it.lastp }))
        h

  -- `gabs_pbuf_ci_detach`
  pub ci_detach : ℕ → Ci → Cmd Heap (Unit {0})
  unfolding write_loc decref_loop
  ci_detach fuel it = do write_loc it.lastp null; decref_loop fuel it.cur

  -- `gabs_pbuf_ci_remove`
  pub ci_remove : ℕ → Ci → Cmd Heap Ci
  unfolding load write_loc decref_loop
  ci_remove fuel it = do
    f ← load it.cur
    write_loc it.lastp f.next
    write_loc (next_of it.cur) null
    decref_loop fuel it.cur
    pure (record it { cur = f.next })

  -- The operations under the names of the interface.
  abbrev pub basic : Impl
  basic = record {
    Heap = Heap;
    Ci = Ci;
    ndebug = ndebug;
    new = new;
    new_ro = new_ro;
    okay = okay;
    ci_init = ci_init;
    ci_next = ci_next;
    ci_eoi = ci_eoi;
    ci_data = ci_data;
    ci_size = ci_size;
    ci_headroom = ci_headroom;
    ci_tailroom = ci_tailroom;
    ci_reserve_tail = ci_reserve_tail;
    ci_release_head = ci_release_head;
    ci_release_tail = ci_release_tail;
    ci_insert = ci_insert;
    ci_remove = ci_remove;
    ci_detach = ci_detach;
  }
