-- ===== src/Pbuf/Net.antt =====
-- The implementation of packet buffers for Zephyr (pbuf/zephyr/net_buf.c,
-- pbuf/zephyr/gabs_pbuf_def.h), over the calls of Zephyr's network buffers and the allocators of the
-- program.
pub mod At
pub mod Splice
pub mod Cut
pub mod Resize
pub mod Alloc
pub mod Laws
mod Examples
use gabs.Base.{ℕ, zero, suc, Bool, true, false, not, Option, none, some, ◌==◌, if◌then◌else◌}
use gabs.Base.Run.{Cmd, ok, pure, crash, ◌>>=◌, ◌>>◌}
use gabs.Sync.{ℤ, pos, negsuc}
use gabs.Alloc.{Tables, gabs_alloc, allocator_is}
use gabs.Pbuf.Iface.{Var, Impl, assert}
use gabs.Pbuf.Basic.{Ptr, null, Frag, Heap, load, put_frag, set_var}
use gabs.Pbuf.NetBuf.{Calls}

-- `struct gabs_pbuf_zephyr_ci`; `head` is the address of the member `frags` of the variable
pub record Ci : Type 0 where
  pub head : Var
  pub prev : Ptr
  pub cur : Ptr

-- `status != 0`
abbrev pub failed : ℤ → Bool
failed (pos zero) = false
failed (pos (suc n)) = true
failed (negsuc n) = true

-- a read of the `net_buf *` that an allocator was to write, undefined when it wrote nothing
abbrev pub written : Option ℕ → Cmd Heap Ptr
written none = crash
written (some p) = pure p

module _ (ndebug : Bool) (calls : Calls) (tables : Tables Heap) (netbuf_api : ℕ) where
  open calls use {
    init_with_data, ref, unref, push, pull_mem, add, remove_mem, frag_insert, frag_add, frag_del,
  }

  -- `gabs_pbuf_new`
  pub new : Var → ℕ → ℕ → Cmd Heap (Unit {0})
  new v alloc size =
      if not (allocator_is tables alloc netbuf_api)
      then (do assert ndebug false; set_var v null)
      else do
        (status, buf) ← gabs_alloc tables alloc size
        if failed status
            then (do assert ndebug false; set_var v null)
            else do p ← written buf; set_var v p

  -- `gabs_pbuf_okay`
  pub okay : Var → Cmd Heap Bool
  okay v h = ok (not (h.vars v == null)) h

  -- `gabs_pbuf_new_ro`
  pub new_ro : Var → ℕ → ℕ → ℕ → Cmd Heap (Unit {0})
  unfolding new okay
  new_ro v alloc addr size = do
    new v alloc 0
    good ← okay v
    if not good then (do assert ndebug false; set_var v null) else λ h.
        (do
          init_with_data (h.vars v) addr size
          f ← load (h.vars v)
          put_frag (h.vars v) (some (record f { readonly = true })))
          h

  -- `gabs_pbuf_incref`; its parameter is a copy, to which the result is written
  pub incref : Var → Cmd Heap (Unit {0})
  incref v h = (do _ ← ref (h.vars v); pure tt) h

  -- `gabs_pbuf_decref`
  pub decref : ℕ → Var → Cmd Heap (Unit {0})
  decref fuel v h = if not (h.vars v == null) then unref fuel (h.vars v) h else ok tt h

  -- `gabs_pbuf_ci_init`
  pub ci_init : Var → Cmd Heap Ci
  ci_init v h = ok (record { cur = h.vars v; prev = null; head = v }) h

  -- `gabs_pbuf_ci_next`
  pub ci_next : Ci → Cmd Heap Ci
  ci_next it = do f ← load it.cur; pure (record { cur = f.next; prev = it.cur; head = it.head })

  -- `gabs_pbuf_ci_eoi`
  pub ci_eoi : Ci → Bool
  ci_eoi it = it.cur == null

  -- `gabs_pbuf_ci_data`
  pub ci_data : Ci → Cmd Heap ℕ
  ci_data it = do f ← load it.cur; pure f.payload

  -- `gabs_pbuf_ci_size`
  pub ci_size : Ci → Cmd Heap ℕ
  ci_size it = do f ← load it.cur; pure f.size

  -- `gabs_pbuf_ci_cap`
  pub ci_cap : Ci → Cmd Heap ℕ
  ci_cap it = do f ← load it.cur; pure f.cap

  -- `gabs_pbuf_ci_reserve_head`
  pub ci_reserve_head : Ci → ℕ → Cmd Heap ℕ
  ci_reserve_head it bytes = push it.cur bytes

  -- `gabs_pbuf_ci_release_head`
  pub ci_release_head : Ci → ℕ → Cmd Heap ℕ
  ci_release_head it bytes = pull_mem it.cur bytes

  -- `gabs_pbuf_ci_reserve_tail`
  pub ci_reserve_tail : Ci → ℕ → Cmd Heap ℕ
  ci_reserve_tail it bytes = add it.cur bytes

  -- `gabs_pbuf_ci_release_tail`
  pub ci_release_tail : Ci → ℕ → Cmd Heap ℕ
  ci_release_tail it bytes = remove_mem it.cur bytes

  -- `gabs_pbuf_ci_headroom`
  pub ci_headroom : Ci → Cmd Heap ℕ
  ci_headroom it = calls.headroom it.cur

  -- `gabs_pbuf_ci_tailroom`
  pub ci_tailroom : Ci → Cmd Heap ℕ
  ci_tailroom it = calls.tailroom it.cur

  -- the branch of `gabs_pbuf_ci_insert` at the head of the chain, which gives the new head
  pub insert_front : ℕ → Ptr → Ptr → Cmd Heap Ptr
  insert_front fuel frags cur = if cur == null then pure frags else frag_add fuel frags cur

  -- `gabs_pbuf_ci_insert`
  pub ci_insert : ℕ → Ci → Var → Cmd Heap Ci
  unfolding insert_front
  ci_insert fuel it buf h =
      (do
        if not (it.prev == null)
            then frag_insert fuel it.prev (h.vars buf)
            else do cur ← insert_front fuel (h.vars buf) it.cur; set_var it.head cur
        pure (record it { cur = h.vars buf }))
        h

  -- `gabs_pbuf_ci_detach`
  pub ci_detach : ℕ → Ci → Cmd Heap (Unit {0})
  ci_detach fuel it h =
      (do
        if h.vars it.head == it.cur
            then set_var it.head null
            else do f ← load it.prev; put_frag it.prev (some (record f { next = null }))
        unref fuel it.cur)
        h

  -- `gabs_pbuf_ci_remove`
  pub ci_remove : ℕ → Ci → Cmd Heap Ci
  ci_remove fuel it h =
      (do
        cur ← frag_del fuel it.prev it.cur
        if h.vars it.head == it.cur then set_var it.head cur else pure tt
        pure (record it { cur = cur }))
        h

  -- The operations under the names of the interface.
  abbrev pub net : Impl
  net = record {
    Heap = Heap;
    Ci = Ci;
    ndebug = ndebug;
    new = new;
    new_ro = new_ro;
    okay = okay;
    ci_init = ci_init;
    ci_next = ci_next;
    ci_eoi = ci_eoi;
    ci_data = ci_data;
    ci_size = ci_size;
    ci_headroom = ci_headroom;
    ci_tailroom = ci_tailroom;
    ci_reserve_tail = ci_reserve_tail;
    ci_release_head = ci_release_head;
    ci_release_tail = ci_release_tail;
    ci_insert = ci_insert;
    ci_remove = ci_remove;
    ci_detach = ci_detach;
  }
