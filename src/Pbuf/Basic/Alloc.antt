-- ===== src/Pbuf/Basic/Alloc.antt =====
-- `gabs_pbuf_new` and `gabs_pbuf_new_ro` (pbuf/basic/basic.c) with an allocator that answers.
use gabs.Base.{
  ℕ, ◌+◌, ◌<◌, ◌^◌, ◌≡◌, ◌≢◌, refl, sym, ap, ◌∙◌, Bool, false, true, none, some, List, [], ◌∷◌,
  arith, ==-refl, ==-false_of_ne, add64,
}
use gabs.Base.Run.{ok}
use gabs.Pbuf.Seg.{Seg, NotIn}
use gabs.Pbuf.Iface.{Var}
use gabs.Pbuf.Basic.{Ptr, null, Frag, Heap, frag_bytes, update, take_block, load, okay, new, new_ro}
use gabs.Pbuf.Basic.Leads.{seg, Fits, Leads}
use gabs.Pbuf.Basic.Link.{load_lem}
use gabs.Pbuf.Basic.At.{Chain, Keeps}

-- The next request, for a fragment and `n` bytes, is answered by a block at `x.id` where no fragment
-- lives; the bytes follow the fragment and lie in the address space.
pub record Offers (h : Heap) (n : ℕ) (x : Seg) : Type 0 where
  pub answer : ℕ → Ptr
  pub rest : List (ℕ → Ptr)
  pub next : h.supply ≡ answer ∷ rest
  pub gives : answer (add64 frag_bytes n) ≡ x.id
  pub ne_null : x.id ≢ null
  pub unused : h.frags x.id ≡ none
  pub addr : x.addr ≡ x.id + frag_bytes
  pub size : x.size ≡ 0
  pub head : x.head ≡ 0
  pub tail : x.tail ≡ n
  pub small : x.addr + n < 2 ^ 64

pub Offers-fresh :
    {h : Heap} {n : ℕ} {x : Seg} {v : Var} {ys : List Seg}
    → Offers h n x
    → Chain h v ys
    → NotIn x.id ys
Offers-fresh {h} {x} {v} {ys} o chain = go (h.vars v) ys chain.path
  where
    go : (p : Ptr) (zs : List Seg) → Leads h.frags p zs null → NotIn x.id zs
    go p [] path = tt
    go p (z ∷ zs) (f, node, path) = (
      λ e. cc (node.holds, o.unused, ap h.frags (e ∙ ap (λ (y : Seg). y.id) node.is)),
      go f.next zs path,
    )

-- What `gabs_pbuf_new` and `gabs_pbuf_new_ro` put into a new fragment.
abbrev fresh_frag : Ptr → ℕ → ℕ → Frag
fresh_frag p alloc n = record {
  base = p + frag_bytes;
  payload = p + frag_bytes;
  size = 0;
  cap = n;
  readonly = false;
  refcnt = 1;
  next = null;
  alloc = alloc;
}

abbrev ro_frag : Ptr → ℕ → ℕ → ℕ → Frag
ro_frag p alloc addr n = record (fresh_frag p alloc 0) {
  readonly = true;
  base = addr;
  payload = addr;
  size = n;
  cap = n;
}

-- The variable `v` holds the fragment `f` alone, at `p`.
abbrev with_frag : Heap → Var → Ptr → Frag → Heap
with_frag h v p f = record h { frags = update h.frags p (some f); vars = update h.vars v p }

with_frag-Chain :
    (h : Heap) (v : Var) (x : Seg) (f : Frag)
    → x.id ≢ null
    → f.next ≡ null
    → Fits f
    → x ≡ seg x.id f
    → Chain (with_frag h v x.id f) v (x ∷ [])
with_frag-Chain h v x f ne end fits is = record {
  path =
      rw (==-refl v)
        (f, record { ne_null = ne; holds = rw (==-refl x.id); is = is; fits = fits }, end);
  distinct = (tt, tt);
}

with_frag-Keeps :
    (h : Heap) (v : Var) (x : Seg) (f : Frag) → Keeps v (x ∷ []) h (with_frag h v x.id f)
with_frag-Keeps h v x f = record {
  frags = λ p (ne, _). rw (==-false_of_ne p x.id ne);
  vars = λ w away. rw (==-false_of_ne w v (λ e. away (sym e)));
}

take_block_lem :
    {h : Heap} {n : ℕ} {x : Seg} (o : Offers h n x)
    → take_block (add64 frag_bytes n) h ≡ ok x.id (record h { supply = o.rest })
unfolding take_block
take_block_lem {h} o = ground (arith, o.next, o.gives)

module _ (ndebug : Bool) {h : Heap} {x : Seg} (v : Var) (alloc : ℕ) where
  new_run :
      {n : ℕ} (o : Offers h n x)
      → new ndebug v alloc n h
        ≡ ok tt (with_frag (record h { supply = o.rest }) v x.id (fresh_frag x.id alloc n))
  unfolding new
  new_run {n} o = rw (take_block_lem o, ==-false_of_ne x.id null o.ne_null)

  -- When the allocator answers with a block where no fragment lives, `gabs_pbuf_new` makes the
  -- variable hold a chain of one segment, empty and with `n` bytes of tailroom, and changes only
  -- the variable and that fragment.
  pub new_lem :
      {n : ℕ}
      → Offers h n x
      → (h' : Heap) × (new ndebug v alloc n h ≡ ok tt h')
        × Chain h' v (x ∷ [])
        × Keeps v (x ∷ []) h h'
  new_lem {n} o =
      let f = fresh_frag x.id alloc n in
      let is : x ≡ seg x.id f = ground (arith, o.addr, o.size, o.head, o.tail) in
      (
        with_frag (record h { supply = o.rest }) v x.id f,
        new_run o,
        with_frag-Chain _ v x f o.ne_null refl
            (record {
              low = omega arith;
              high = omega arith;
              small = omega (arith, o.addr, o.small);
            })
            is,
        record { frags = (with_frag-Keeps h v x f).frags; vars = (with_frag-Keeps h v x f).vars },
      )

  -- When the allocator answers with a block where no fragment lives, `gabs_pbuf_new_ro` makes the
  -- variable hold a chain of one segment with exactly the `n` given bytes at `addr` and no room,
  -- and changes only the variable and that fragment. The bytes lie in the address space.
  pub new_ro_lem :
      (addr n : ℕ)
      → Offers h 0 x
      → addr + n < 2 ^ 64
      → (h' : Heap) × (new_ro ndebug v alloc addr n h ≡ ok tt h')
        × Chain h' v (record x { addr = addr; size = n } ∷ [])
        × Keeps v (x ∷ []) h h'
  unfolding new_ro okay
  new_ro_lem addr n o small =
      let f = fresh_frag x.id alloc 0 in
      let g = ro_frag x.id alloc addr n in
      let h1 = with_frag (record h { supply = o.rest }) v x.id f in
      let y = record x { addr = addr; size = n } in
      let is : y ≡ seg x.id g = ground (arith, o.head, o.tail) in
      let here : h1.vars v ≡ x.id = rw (==-refl v) in
      let got : load x.id h1 ≡ ok f h1 = load_lem h1 x.id f o.ne_null (rw (==-refl x.id)) in
      (
        record h1 { frags = update h1.frags x.id (some g) },
        rw (new_run o, ==-refl v, ==-false_of_ne x.id null o.ne_null, ==-refl v, got),
        record {
          path = rw (==-refl v) (
            g,
            record {
              ne_null = o.ne_null;
              holds = rw (==-refl x.id);
              is = is;
              fits = record { low = omega arith; high = omega arith; small = small };
            },
            refl,
          );
          distinct = (tt, tt);
        },
        record {
          frags = λ p (ne, _). rw (==-false_of_ne p x.id ne);
          vars = λ w away. rw (==-false_of_ne w v (λ e. away (sym e)));
        },
      )
