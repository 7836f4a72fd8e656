-- ===== src/Pbuf/Buf.antt =====
-- The operations of pbuf/buf.c, over any implementation of the iterators. Each loop takes fuel: a
-- number of rounds above the number of segments is enough.
pub mod Chain
pub mod Clone
pub mod Copy
pub mod Put
pub mod Seek
pub mod Shrink
pub mod Strip
pub mod Size
pub mod Walk
use gabs.Base.{
  ℕ, zero, suc, ◌+◌, ◌-◌, Bool, true, false, not, ◌||◌, ◌&&◌, add64, sub64, ltb, ◌==◌,
  if◌then◌else◌,
}
use gabs.Base.Run.{Cmd, pure, stuck, ◌>>=◌, ◌>>◌}
use gabs.Pbuf.Seg.{Mem, memcpy}
use gabs.Pbuf.Iface.{Var, Impl, assert}

-- `gabs_min(a, b)`
abbrev pub gabs_min : ℕ → ℕ → ℕ
gabs_min a b = if ltb a b then a else b

module _ (I : Impl) where
  open I use {
    Heap, Ci, ndebug, new, new_ro, okay, ci_init, ci_next, ci_eoi, ci_data, ci_size, ci_headroom,
    ci_tailroom, ci_reserve_tail, ci_release_head, ci_release_tail, ci_insert, ci_remove, ci_detach,
  }

  -- the loop of `gabs_pbuf_size`
  pub size_loop : ℕ → Ci → ℕ → Cmd Heap ℕ
  size_loop zero it acc = stuck
  size_loop (suc k) it acc =
      if ci_eoi it
      then pure acc
      else do n ← ci_size it; it' ← ci_next it; size_loop k it' (add64 acc n)

  -- `gabs_pbuf_size`
  pub pbuf_size : ℕ → Var → Cmd Heap ℕ
  unfolding size_loop
  pbuf_size fuel buf = do it ← ci_init buf; size_loop fuel it 0

  -- the loop of `gabs_pbuf_chain_at`
  pub chain_at_loop : ℕ → Ci → ℕ → ℕ → Cmd Heap (Ci × ℕ)
  chain_at_loop zero it offset bytes = stuck
  chain_at_loop (suc k) it offset bytes = if ci_eoi it then pure (it, bytes) else do
    n ← ci_size it
    if ltb offset (add64 bytes n)
        then pure (it, bytes)
        else do it' ← ci_next it; chain_at_loop k it' offset (add64 bytes n)

  -- `gabs_pbuf_chain_front`
  pub chain_front : ℕ → Var → Var → Cmd Heap (Unit {0})
  chain_front fuel buf front = do it ← ci_init buf; _ ← ci_insert fuel it front; pure tt

  -- `gabs_pbuf_chain_at`
  pub chain_at : ℕ → Var → Var → ℕ → Cmd Heap (Unit {0})
  unfolding chain_at_loop chain_front
  chain_at fuel buf next offset = if offset == 0 then chain_front fuel buf next else do
    it ← ci_init buf
    (it', bytes) ← chain_at_loop fuel it offset 0
    assert ndebug (bytes == offset)
    _ ← ci_insert fuel it' next
    pure tt

  -- the loop of `gabs_pbuf_chain_back`: its body is empty
  pub last_loop : ℕ → Ci → Cmd Heap Ci
  last_loop zero it = stuck
  last_loop (suc k) it = if ci_eoi it then pure it else do it' ← ci_next it; last_loop k it'

  -- `gabs_pbuf_chain_back`
  pub chain_back : ℕ → Var → Var → Cmd Heap (Unit {0})
  unfolding last_loop
  chain_back fuel buf back = do
    it ← ci_init buf
    it' ← last_loop fuel it
    _ ← ci_insert fuel it' back
    pure tt

  -- the loop of `buf_seek`, which gives the iterator and `*boundary`
  pub seek_loop : ℕ → Ci → ℕ → ℕ → Cmd Heap (Ci × ℕ)
  seek_loop zero it offset bytes = stuck
  seek_loop (suc k) it offset bytes = if ci_eoi it then pure (it, bytes) else do
    n ← ci_size it
    if offset == 0 || ltb offset (add64 bytes n)
        then pure (it, bytes)
        else do it' ← ci_next it; seek_loop k it' offset (add64 bytes n)

  -- `buf_seek`
  pub buf_seek : ℕ → Var → ℕ → Cmd Heap (Ci × ℕ)
  unfolding seek_loop
  buf_seek fuel buf offset = do it ← ci_init buf; seek_loop fuel it offset 0

  -- the loop of `gabs_pbuf_view`; the variable `cur` receives each new buffer
  pub view_loop : ℕ → Ci → Ci → Var → ℕ → ℕ → Cmd Heap (Unit {0})
  view_loop zero it inserter cur alloc size = stuck
  view_loop (suc k) it inserter cur alloc size = if size == 0 then pure tt else do
    it' ← ci_next it
    n ← ci_size it'
    p ← ci_data it'
    new_ro cur alloc p (gabs_min n size)
    good ← okay cur
    if not good then assert ndebug false else do
      at ← ci_next inserter
      inserter' ← ci_insert 2 at cur
      view_loop k it' inserter' cur alloc (sub64 size (gabs_min n size))

  -- `gabs_pbuf_view`: the variable `ret` receives the result
  pub view : ℕ → Var → Var → Var → ℕ → ℕ → ℕ → Cmd Heap (Unit {0})
  unfolding buf_seek view_loop
  view fuel buf ret cur offset size alloc = do
    (it, boundary) ← buf_seek fuel buf offset
    n ← ci_size it
    p ← ci_data it
    let cur_offset = sub64 offset boundary
    let cur_size = gabs_min (sub64 n cur_offset) size
    new_ro ret alloc (p + cur_offset) cur_size
    good ← okay ret
    if not good
        then pure tt
        else do inserter ← ci_init ret; view_loop fuel it inserter cur alloc (sub64 size cur_size)

  -- the loop of `gabs_pbuf_copy`: the memory, and the bytes copied
  pub copy_loop : ℕ → Ci → ℕ → ℕ → ℕ → Mem → Cmd Heap (ℕ × Mem)
  copy_loop zero it mem size max_size m = stuck
  copy_loop (suc k) it mem size max_size m =
      if ltb size max_size
      then (do
        it' ← ci_next it
        if ci_eoi it' then pure (size, m) else do
          n ← ci_size it'
          p ← ci_data it'
          let cur_size = gabs_min n (sub64 max_size size)
          copy_loop k it' (mem + cur_size) (add64 size cur_size) max_size (memcpy mem p cur_size m))
      else pure (size, m)

  -- `gabs_pbuf_copy` behind its `buf_seek`
  pub copy_from : ℕ → Var → ℕ → ℕ → ℕ → Mem → Ci × ℕ → Cmd Heap (ℕ × Mem)
  unfolding copy_loop
  copy_from fuel buf mem offset max_size m (it, boundary) = do
    good ← okay buf
    if not good || ci_eoi it then pure (0, m) else do
      n ← ci_size it
      p ← ci_data it
      let cur_offset = sub64 offset boundary
      let cur_size = gabs_min (sub64 n cur_offset) max_size
      copy_loop fuel it (mem + cur_size) (add64 0 cur_size) max_size
          (memcpy mem (p + cur_offset) cur_size m)

  -- `gabs_pbuf_copy`
  pub copy : ℕ → Var → ℕ → ℕ → ℕ → Mem → Cmd Heap (ℕ × Mem)
  unfolding buf_seek copy_from
  copy fuel buf mem offset max_size m =
      buf_seek fuel buf offset >>= copy_from fuel buf mem offset max_size m

  -- `gabs_pbuf_clone`: the variable `ret` receives the result
  pub clone : ℕ → Var → Var → ℕ → ℕ → ℕ → Mem → Cmd Heap Mem
  unfolding copy
  clone fuel buf ret offset size alloc m = do
    new ret alloc size
    good ← okay ret
    if not good then pure m else do
      it ← ci_init ret
      mem ← ci_reserve_tail it size
      (bytes, m') ← copy fuel buf mem offset size m
      assert ndebug (bytes == size)
      pure m'

  -- the loop of `gabs_pbuf_shrink` over the head: the iterator, and the bytes removed
  pub head_loop : ℕ → Ci → ℕ → ℕ → Cmd Heap (Ci × ℕ)
  head_loop zero it offset bytes = stuck
  head_loop (suc k) it offset bytes = if ci_eoi it then pure (it, bytes) else do
    n ← ci_size it
    if ltb offset (add64 bytes n)
        then pure (it, bytes)
        else do it' ← ci_remove 2 it; head_loop k it' offset (add64 bytes n)

  -- the loop of `gabs_pbuf_shrink` over the kept bytes: the iterator, and `bytes`
  pub keep_loop : ℕ → Ci → ℕ → ℕ → Cmd Heap (Ci × ℕ)
  keep_loop zero it bytes rem = stuck
  keep_loop (suc k) it bytes rem = if ci_eoi it then pure (it, bytes) else do
    n ← ci_size it
    let bytes' = gabs_min n rem
    if sub64 rem bytes' == 0
        then pure (it, bytes')
        else do it' ← ci_next it; keep_loop k it' bytes' (sub64 rem bytes')

  -- what follows the cut: the segments behind the iterator are detached
  pub detach_rest : ℕ → Ci → Cmd Heap (Unit {0})
  detach_rest fuel it = do rest ← ci_next it; if ci_eoi rest then pure tt else ci_detach fuel rest

  -- the cut behind the kept bytes in `gabs_pbuf_shrink`
  pub cut_behind : ℕ → Ci × ℕ → Cmd Heap (Unit {0})
  unfolding detach_rest
  cut_behind fuel (it, bytes) = if ci_eoi it then pure tt else do
    n ← ci_size it
    (if ltb bytes n then (do _ ← ci_release_tail it (sub64 n bytes); pure tt) else pure tt)
    detach_rest fuel it

  -- the second block of `gabs_pbuf_shrink`
  pub shrink_tail : ℕ → ℕ → Ci → Cmd Heap (Unit {0})
  unfolding keep_loop cut_behind
  shrink_tail fuel size it = keep_loop fuel it 0 size >>= cut_behind fuel

  -- `gabs_pbuf_shrink` behind the loop over the head
  pub cut_head_at : ℕ → ℕ → ℕ → Ci × ℕ → Cmd Heap (Unit {0})
  unfolding shrink_tail
  cut_head_at fuel offset size (it, bytes) = if ci_eoi it then pure tt else do
    (if ltb bytes offset
        then (do _ ← ci_release_head it (sub64 offset bytes); pure tt)
        else pure tt)
    shrink_tail fuel size it

  -- `gabs_pbuf_shrink`
  pub shrink : ℕ → Var → ℕ → ℕ → Cmd Heap (Unit {0})
  unfolding head_loop cut_head_at shrink_tail
  shrink fuel buf offset size = do
    it ← ci_init buf
    if ltb 0 offset
        then head_loop fuel it offset 0 >>= cut_head_at fuel offset size
        else shrink_tail fuel size it

  -- `gabs_pbuf_strip_head`
  pub strip_head : ℕ → Var → ℕ → Cmd Heap (Unit {0})
  unfolding pbuf_size shrink
  strip_head fuel buf n = do all ← pbuf_size fuel buf; shrink fuel buf n (sub64 all n)

  -- `gabs_pbuf_strip_tail`
  pub strip_tail : ℕ → Var → ℕ → Cmd Heap (Unit {0})
  unfolding pbuf_size shrink
  strip_tail fuel buf n = do all ← pbuf_size fuel buf; shrink fuel buf 0 (sub64 all n)

  -- the loop of `gabs_pbuf_put`
  pub put_loop : ℕ → Ci → ℕ → ℕ → Mem → Cmd Heap Mem
  put_loop zero it bytes_from size m = stuck
  put_loop (suc k) it bytes_from size m =
      if ltb 0 size && not (ci_eoi it)
      then (do
        room ← ci_tailroom it
        let bytes = gabs_min room size
        mem ← ci_reserve_tail it bytes
        assert ndebug (not (mem == 0))
        it' ← ci_next it
        put_loop k it' (bytes_from + bytes) (sub64 size bytes) (memcpy mem bytes_from bytes m))
      else pure m

  -- `gabs_pbuf_put`
  pub put : ℕ → Var → ℕ → ℕ → Mem → Cmd Heap Mem
  unfolding put_loop
  put fuel buf bytes_from size m = do it ← ci_init buf; put_loop fuel it bytes_from size m

  -- the loop of `gabs_pbuf_tailroom`
  pub tailroom_loop : ℕ → Ci → Cmd Heap Ci
  tailroom_loop zero it = stuck
  tailroom_loop (suc k) it =
      if ci_eoi it
      then pure it
      else do it' ← ci_next it; if ci_eoi it' then pure it else tailroom_loop k it'

  -- `gabs_pbuf_tailroom`
  pub tailroom : ℕ → Var → Cmd Heap ℕ
  unfolding tailroom_loop
  tailroom fuel buf = do
    it ← ci_init buf
    it' ← tailroom_loop fuel it
    if ci_eoi it' then pure 0 else ci_tailroom it'

  -- `gabs_pbuf_headroom`
  pub headroom : Var → Cmd Heap ℕ
  headroom buf = do it ← ci_init buf; if ci_eoi it then pure 0 else ci_headroom it
