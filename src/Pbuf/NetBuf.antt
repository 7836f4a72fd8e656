-- ===== src/Pbuf/NetBuf.antt =====
-- What pbuf/zephyr/net_buf.c uses of Zephyr's network buffers, which are not part of the repository.
-- A `struct net_buf` is given by the record of a fragment, of which it has the fields under other
-- names: `__buf` is `base`, `data` is `payload`, `len` is `size`, `size` is `cap`, `frags` is `next`,
-- `ref` is `refcnt`, the flag NET_BUF_EXTERNAL_DATA is `readonly`, and the pool is `alloc`. A call
-- with a loop of its own takes the number of rounds allowed.
pub mod Plain
use gabs.Base.{ℕ, suc, ◌+◌, ◌-◌, ◌≤◌, ◌<◌, ◌^◌, ◌%◌, ◌≡◌, ◌≢◌, some, List, [], ◌∷◌, length, add32}
use gabs.Base.Run.{ok, Cmd, Ends}
use gabs.Pbuf.Seg.{Seg, NotIn}
use gabs.Pbuf.Basic.{Ptr, null, Frag, Heap, update}
use gabs.Pbuf.Basic.Leads.{seg, Fits, Leads, Distinct, SameOff}
use gabs.Pbuf.Basic.Link.{OnlyFrags}

-- The calls, each under its name without the prefix `net_buf_`; `init_with_data` is
-- `net_buf_simple_init_with_data`.
pub record Calls : Type 0 where
  pub alloc_len : ℕ → ℕ → Cmd Heap Ptr
  pub init_with_data : Ptr → ℕ → ℕ → Cmd Heap (Unit {0})
  pub ref : Ptr → Cmd Heap Ptr
  pub unref : ℕ → Ptr → Cmd Heap (Unit {0})
  pub push : Ptr → ℕ → Cmd Heap ℕ
  pub pull_mem : Ptr → ℕ → Cmd Heap ℕ
  pub add : Ptr → ℕ → Cmd Heap ℕ
  pub remove_mem : Ptr → ℕ → Cmd Heap ℕ
  pub headroom : Ptr → Cmd Heap ℕ
  pub tailroom : Ptr → Cmd Heap ℕ
  pub frag_insert : ℕ → Ptr → Ptr → Cmd Heap (Unit {0})
  pub frag_add : ℕ → Ptr → Ptr → Cmd Heap Ptr
  pub frag_del : ℕ → Ptr → Ptr → Cmd Heap Ptr

-- The heap with the buffer at `p` replaced.
abbrev pub stored : Heap → Ptr → Frag → Heap
stored h p f = record h { frags = update h.frags p (some f) }

-- A buffer lives at `p`, and its bytes lie in it.
pub record Lives (h : Heap) (p : Ptr) (f : Frag) : Type 0 where
  pub ne_null : p ≢ null
  pub holds : h.frags p ≡ some f
  pub fits : Fits f

-- Their documented behaviour. `len` and `size` are `uint16_t`, to which `init_with_data` converts.
pub record Documented (C : Calls) : Type 0 where
  pub init_lem :
      (h : Heap) (p : Ptr) (f : Frag) (addr n : ℕ)
      → Lives h p f
      → C.init_with_data p addr n h
        ≡ ok tt (
            stored h p
              (record f { base = addr; payload = addr; size = n % 2 ^ 16; cap = n % 2 ^ 16 }))
  pub ref_lem :
      (h : Heap) (p : Ptr) (f : Frag)
      → Lives h p f
      → C.ref p h ≡ ok p (stored h p (record f { refcnt = add32 f.refcnt 1 }))
  pub push_lem :
      (h : Heap) (p : Ptr) (f : Frag) (n : ℕ)
      → Lives h p f
      → n ≤ f.payload - f.base
      → C.push p n h
        ≡ ok (f.payload - n) (stored h p (record f { payload = f.payload - n; size = f.size + n }))
  pub pull_mem_lem :
      (h : Heap) (p : Ptr) (f : Frag) (n : ℕ)
      → Lives h p f
      → n ≤ f.size
      → C.pull_mem p n h
        ≡ ok f.payload (stored h p (record f { payload = f.payload + n; size = f.size - n }))
  pub add_lem :
      (h : Heap) (p : Ptr) (f : Frag) (n : ℕ)
      → Lives h p f
      → n ≤ f.base + f.cap - (f.payload + f.size)
      → C.add p n h ≡ ok (f.payload + f.size) (stored h p (record f { size = f.size + n }))
  pub remove_mem_lem :
      (h : Heap) (p : Ptr) (f : Frag) (n : ℕ)
      → Lives h p f
      → n ≤ f.size
      → C.remove_mem p n h
        ≡ ok (f.payload + (f.size - n)) (stored h p (record f { size = f.size - n }))
  pub headroom_lem :
      (h : Heap) (p : Ptr) (f : Frag) → Lives h p f → C.headroom p h ≡ ok (f.payload - f.base) h
  pub tailroom_lem :
      (h : Heap) (p : Ptr) (f : Frag)
      → Lives h p f
      → C.tailroom p h ≡ ok (f.base + f.cap - (f.payload + f.size)) h
  -- The count of the first buffer falls; at 0 it is freed, and its fragments in turn.
  pub unref_lem :
      (fuel : ℕ) (h : Heap) (p : Ptr) (xs : List Seg)
      → Leads h.frags p xs null
      → Distinct xs
      → length xs < fuel
      → Ends (OnlyFrags xs h) (C.unref fuel p h)
  -- The chain at `p` is linked in behind the buffer `q`.
  pub frag_insert_lem :
      (fuel : ℕ) (h : Heap) (q p : Ptr) (g : Frag) (y : Seg) (ys : List Seg)
      → Lives h q g
      → Leads h.frags p (y ∷ ys) null
      → Distinct (y ∷ ys)
      → NotIn q (y ∷ ys)
      → length (y ∷ ys) < fuel
      → (h' : Heap) × (C.frag_insert fuel q p h ≡ ok tt h')
        × Leads h'.frags p (y ∷ ys) g.next
        × SameOff (y ∷ ys) (update h.frags q (some (record g { next = p }))) h'.frags
        × ((w : ℕ) → h'.vars w ≡ h.vars w)
  -- The chain at `q` is linked in behind the last buffer of the chain at `p`.
  pub frag_add_lem :
      (fuel : ℕ) (h : Heap) (p q : Ptr) (y : Seg) (ys : List Seg)
      → Leads h.frags p (y ∷ ys) null
      → Distinct (y ∷ ys)
      → length (y ∷ ys) < fuel
      → (h' : Heap) × (C.frag_add fuel p q h ≡ ok p h')
        × Leads h'.frags p (y ∷ ys) q
        × SameOff (y ∷ ys) h.frags h'.frags
        × ((w : ℕ) → h'.vars w ≡ h.vars w)
  -- The buffer at `p`, which has no parent, is released alone; its successor is returned.
  pub frag_del_first :
      (fuel : ℕ) (h : Heap) (p : Ptr) (f : Frag)
      → Lives h p f
      → 1 < fuel
      → (h' : Heap) × (C.frag_del fuel null p h ≡ ok f.next h')
        × SameOff (seg p f ∷ []) h.frags h'.frags
        × ((w : ℕ) → h'.vars w ≡ h.vars w)
  -- With a parent `q`, that is linked to the successor.
  pub frag_del_next :
      (fuel : ℕ) (h : Heap) (q p : Ptr) (g f : Frag)
      → Lives h q g
      → Lives h p f
      → g.next ≡ p
      → q ≢ p
      → 1 < fuel
      → (h' : Heap) × (C.frag_del fuel q p h ≡ ok f.next h')
        × SameOff (seg p f ∷ []) (update h.frags q (some (record g { next = f.next }))) h'.frags
        × ((w : ℕ) → h'.vars w ≡ h.vars w)
