-- ===== src/Pbuf/Net/Alloc.antt =====
-- `gabs_pbuf_new` and `gabs_pbuf_new_ro` (pbuf/zephyr/net_buf.c) with an allocator that answers.
use gabs.Base.{
  ℕ, ◌%◌, subst, ◌+◌, ◌<◌, ◌^◌, ◌≡◌, ◌≢◌, sym, ap, ◌∙◌, Bool, true, none, some, List, [], ◌∷◌,
  arith, ==-refl, ==-false_of_ne,
}
use gabs.Base.Run.{ok}
use gabs.Sync.{pos}
use gabs.Alloc.{Tables, gabs_alloc, allocator_is}
use gabs.Pbuf.Seg.{Seg, NotIn}
use gabs.Pbuf.Iface.{Var}
use gabs.Pbuf.Basic.{Ptr, null, Frag, Heap, update, load}
use gabs.Pbuf.Basic.Leads.{seg, Leads, Fits, SameOff}
use gabs.Pbuf.Basic.Link.{load_lem}
use gabs.Pbuf.Basic.At.{Chain, Keeps}
use gabs.Pbuf.NetBuf.{Calls, Documented, stored}
use gabs.Pbuf.Net.{new, new_ro, okay}

-- The state when the buffer at `p` is in the variable.
abbrev given : Var → Ptr → Heap → Heap
given v p after = record after { vars = update after.vars v p }

-- A variable with one buffer, which has no fragments.
given-Chain :
    (after : Heap) (v : Var) (p : Ptr) (y : Seg) (f : Frag)
    → after.vars v ≡ p
    → after.frags p ≡ some f
    → f.next ≡ null
    → Fits f
    → y ≡ seg p f
    → p ≢ null
    → Chain after v (y ∷ [])
given-Chain after v p y f at holds end fits is ne = record {
  path = rw at (f, record { ne_null = ne; holds = holds; is = is; fits = fits }, end);
  distinct = (tt, tt);
}

module _ (tables : Tables Heap) (api : ℕ) where
  -- The allocator of the handle is one of network buffers, and answers the next request for `n`
  -- bytes with a new buffer that stands for `x`, without bytes.
  pub record Offers (h : Heap) (alloc n : ℕ) (x : Seg) : Type 0 where
    pub frag : Frag
    pub after : Heap
    pub is_api : allocator_is tables alloc api ≡ true
    pub answers : gabs_alloc tables alloc n h ≡ ok (pos 0, some x.id) after
    pub made : after.frags x.id ≡ some frag
    pub others : SameOff (x ∷ []) h.frags after.frags
    pub vars : (w : Var) → after.vars w ≡ h.vars w
    pub unused : h.frags x.id ≡ none
    pub ne_null : x.id ≢ null
    pub end : frag.next ≡ null
    pub fits : Fits frag
    pub is : x ≡ seg x.id frag
    pub size : x.size ≡ 0
    pub head : x.head ≡ 0
    pub tail : x.tail ≡ n

  pub Offers-fresh :
      {h : Heap} {alloc n : ℕ} {x : Seg} {v : Var} {ys : List Seg}
      → Offers h alloc n x
      → Chain h v ys
      → NotIn x.id ys
  Offers-fresh {h} {x} {v} {ys} o chain = go (h.vars v) ys chain.path
    where
      go : (p : Ptr) (zs : List Seg) → Leads h.frags p zs null → NotIn x.id zs
      go p [] path = tt
      go p (z ∷ zs) (f, node, path) = (
        λ e. cc (node.holds, o.unused, ap h.frags (e ∙ ap (λ (y : Seg). y.id) node.is)),
        go f.next zs path,
      )

  module _ (ndebug : Bool) (calls : Calls) {h : Heap} {x : Seg} (v : Var) (alloc : ℕ) where
    new_run :
        {n : ℕ} (o : Offers h alloc n x)
        → new ndebug calls tables api v alloc n h ≡ ok tt (given v x.id o.after)
    unfolding new
    new_run o = rw (o.is_api, o.answers)

    -- When the handle is one of an allocator of network buffers, and that answers with a new buffer,
    -- `gabs_pbuf_new` makes the variable hold a chain of one segment, empty and with `n` bytes of
    -- tailroom, and changes only the variable and that fragment.
    pub new-Chain :
        {n : ℕ}
        → Offers h alloc n x
        → (h' : Heap) × (new ndebug calls tables api v alloc n h ≡ ok tt h')
          × Chain h' v (x ∷ [])
          × Keeps v (x ∷ []) h h'
    new-Chain o = (
      given v x.id o.after,
      new_run o,
      given-Chain (given v x.id o.after) v x.id x o.frag (rw (==-refl v)) o.made o.end o.fits o.is
          o.ne_null,
      record {
        frags = o.others;
        vars = λ w away. rw (==-false_of_ne w v (λ e. away (sym e))) (o.vars w);
      },
    )

    -- When the handle is one of an allocator of network buffers, and that answers a request for 0 bytes
    -- with a new buffer, `gabs_pbuf_new_ro` makes the variable hold a chain of one segment without
    -- room: the first `n` modulo 2 ^ 16 of the `n` given bytes at `addr`, hence all of them only if they
    -- are fewer than 2 ^ 16. It changes only the variable and that fragment. The bytes lie in the
    -- address space.
    pub new_ro-Chain :
        (documented : Documented calls) (addr n : ℕ)
        → Offers h alloc 0 x
        → addr + n < 2 ^ 64
        → (h' : Heap) × (new_ro ndebug calls tables api v alloc addr n h ≡ ok tt h')
          × Chain h' v (record x { addr = addr; size = n % 2 ^ 16 } ∷ [])
          × Keeps v (x ∷ []) h h'
    unfolding new_ro okay
    new_ro-Chain documented addr n o small =
        let h1 = given v x.id o.after in
        let f1 = record o.frag {
          base = addr;
          payload = addr;
          size = n % 2 ^ 16;
          cap = n % 2 ^ 16;
        } in
        let f2 = record f1 { readonly = true } in
        let h2 = stored h1 x.id f1 in
        let h3 = stored h2 x.id f2 in
        let y = record x { addr = addr; size = n % 2 ^ 16 } in
        let here : h1.vars v ≡ x.id = rw (==-refl v) in
        let init =
          documented.init_lem h1 x.id o.frag addr n
            (record { ne_null = o.ne_null; holds = o.made; fits = o.fits }) in
        let got : load x.id h2 ≡ ok f1 h2 = load_lem h2 x.id f1 o.ne_null (rw (==-refl x.id)) in
        (
          h3,
          rw (new_run o, ==-refl v, ==-false_of_ne x.id null o.ne_null, ==-refl v, init, got),
          given-Chain h3 v x.id y f2 here (rw (==-refl x.id)) o.end
              (record { low = omega arith; high = omega arith; small = omega arith })
              (ground (arith, o.head, o.tail)) o.ne_null,
          record {
            frags = λ p (ne, u). rw (==-false_of_ne p x.id ne) (o.others p (ne, u));
            vars = λ w away. rw (==-false_of_ne w v (λ e. away (sym e))) (o.vars w);
          },
        )

    pub new_ro-small :
        (documented : Documented calls) (addr n : ℕ)
        → Offers h alloc 0 x
        → n < 2 ^ 16
        → addr + n < 2 ^ 64
        → (h' : Heap) × (new_ro ndebug calls tables api v alloc addr n h ≡ ok tt h')
          × Chain h' v (record x { addr = addr; size = n } ∷ [])
          × Keeps v (x ∷ []) h h'
    new_ro-small documented addr n o narrow small =
        let same : n % 2 ^ 16 ≡ n = omega arith in
        let (h', run, chain, keeps) = new_ro-Chain documented addr n o small in
        (
          h',
          run,
          subst (λ k. Chain h' v (record x { addr = addr; size = k } ∷ [])) same chain,
          keeps,
        )
