-- ===== src/Pbuf/Basic/Link.antt =====
-- Writes through `lastp` and the release of a chain (pbuf/basic/basic.c).
use gabs.Base.{
  ℕ, zero, suc, ◌<◌, ◌≡◌, ◌≢◌, Bool, refl, sym, ap, subst, ◌∙◌, none, some, List, [], ◌∷◌, arith,
  ==-refl, ==-false_of_ne, length, Bool-cases, ltb, sub32, inl, inr,
}
use gabs.Base.Run.{ok, Ends, ends, weaken}
use gabs.Pbuf.Seg.{Seg, NotIn}
use gabs.Pbuf.Iface.{Var}
use gabs.Pbuf.Basic.{
  Ptr, null, Frag, Heap, Loc, root, next_of, update, load, write_loc, decref_loop,
}
use gabs.Pbuf.Basic.Leads.{
  Frags, Node, Leads, Distinct, SameOff, Node-id, Leads-frame, SameOff-update, last_id, NotIn-Apart,
}

pub load_lem : (h : Heap) (p : Ptr) (f : Frag) → p ≢ null → h.frags p ≡ some f → load p h ≡ ok f h
unfolding load
load_lem h p f ne e = rw (==-false_of_ne p null ne, e)

pub load_node : (h : Heap) (p : Ptr) {x : Seg} {f : Frag} → Node h.frags p x f → load p h ≡ ok f h
load_node h p {f} node = load_lem h p f node.ne_null node.holds

-- What `lastp` is behind the segments `pre` of the buffer `v`.
abbrev pub last_loc : Var → List Seg → Loc
last_loc v [] = root v
last_loc v (x ∷ xs) = next_of (last_id x xs)

pub NotIn-last : (p : Ptr) (x : Seg) (xs : List Seg) → NotIn p (x ∷ xs) → p ≢ last_id x xs
NotIn-last p x [] (ne, _) = ne
NotIn-last p x (y ∷ ys) (_, out) = NotIn-last p y ys out

-- The chain after its last fragment is linked to `q`.
pub relink :
    (F : Frags) (p c q : Ptr) (x : Seg) (xs : List Seg)
    → Leads F p (x ∷ xs) c
    → Distinct (x ∷ xs)
    → (f : Frag) × (last_id x xs ≢ null)
      × (F (last_id x xs) ≡ some f)
      × Leads (update F (last_id x xs) (some (record f { next = q }))) p (x ∷ xs) q
relink F p c q x [] (f, node, e) d =
    let id = Node-id node in
    (
      f,
      subst (λ a. a ≢ null) (sym id) node.ne_null,
      ap F id ∙ node.holds,
      (
        record f { next = q },
        record {
          ne_null = node.ne_null;
          holds = rw (id, ==-refl p);
          is = node.is;
          fits = record { low = node.fits.low; high = node.fits.high; small = node.fits.small };
        },
        refl,
      ),
    )
relink F p c q x (y ∷ ys) (f, node, path) (out, d) =
    let (g, ne, holds, path') = relink F f.next c q y ys path d in
    let apart : p ≢ last_id y ys =
      subst (λ a. a ≢ last_id y ys) (Node-id node) (NotIn-last x.id y ys out) in
    (
      g,
      ne,
      holds,
      (
        f,
        record {
          ne_null = node.ne_null;
          holds = rw (==-false_of_ne p (last_id y ys) apart) node.holds;
          is = node.is;
          fits = node.fits;
        },
        path',
      ),
    )

-- The chain `pre` of `v` now leads to `q`, and only `v` and the fragments of `pre` have changed.
pub record Linked (h : Heap) (v : Var) (pre : List Seg) (q : Ptr) (h' : Heap) : Type 0 where
  pub path : Leads h'.frags (h'.vars v) pre q
  pub frags : SameOff pre h.frags h'.frags
  pub vars : (w : Var) → v ≢ w → h'.vars w ≡ h.vars w

pub write_loc-Linked :
    (h : Heap) (v : Var) (pre : List Seg) (c q : Ptr)
    → Leads h.frags (h.vars v) pre c
    → Distinct pre
    → (h' : Heap) × (write_loc (last_loc v pre) q h ≡ ok tt h') × Linked h v pre q h'
unfolding write_loc
write_loc-Linked h v [] c q path d = (
  record h { vars = update h.vars v q },
  refl,
  record {
    path = rw (==-refl v);
    frags = λ p out. refl;
    vars = λ w ne. rw (==-false_of_ne w v (λ e. ne (sym e)));
  },
)
write_loc-Linked h v (x ∷ xs) c q path d =
    let (f, ne, holds, path') = relink h.frags (h.vars v) c q x xs path d in
    let last = last_id x xs in
    (
      record h { frags = update h.frags last (some (record f { next = q })) },
      rw (load_lem h last f ne holds),
      record {
        path = path';
        frags = λ p out. rw (==-false_of_ne p last (NotIn-last p x xs out));
        vars = λ w apart. refl;
      },
    )

-- Only the fragments of `xs` may have changed.
abbrev pub OnlyFrags : List Seg → Heap → Unit {0} → Heap → Type 0
OnlyFrags xs h _ h' = SameOff xs h.frags h'.frags × ((w : Var) → h'.vars w ≡ h.vars w)

module _ (ndebug : Bool) where
  -- The loop of `gabs_pbuf_decref` on a chain, with more rounds than fragments, returns, and changes
  -- nothing but the fragments of that chain.
  pub decref_loop-OnlyFrags :
      (k : ℕ) (h : Heap) (p : Ptr) (xs : List Seg)
      → Leads h.frags p xs null
      → Distinct xs
      → length xs < k
      → Ends (OnlyFrags xs h) (decref_loop ndebug k p h)
  unfolding decref_loop
  decref_loop-OnlyFrags zero h p xs path d fuel = absurd (omega arith)
  decref_loop-OnlyFrags (suc k) h p [] e d fuel = rw e (ends (λ a out. refl, λ w. refl))
  decref_loop-OnlyFrags (suc k) h p (x ∷ xs) (f, node, path) (out, d) fuel =
      let id = Node-id node in
      let less = some (record f { refcnt = sub32 f.refcnt 1 }) in
      let F1 = update h.frags p less in
      let F2 = update F1 p none in
      let off : SameOff (x ∷ []) h.frags F1 =
        subst (λ a. SameOff (x ∷ []) h.frags (update h.frags a less)) id
          (SameOff-update h.frags x less) in
      let off' : SameOff (x ∷ []) F1 F2 =
        subst (λ a. SameOff (x ∷ []) F1 (update F1 a none)) id (SameOff-update F1 x none) in
      elim (Bool-cases (ltb 0 (sub32 f.refcnt 1))) [
        | inl shared ↦
            rw (==-false_of_ne p null node.ne_null, load_node h p node, shared)
              (ends (λ a (ne, _). off a (ne, tt), λ w. refl))
        | inr last ↦
            rw (==-false_of_ne p null node.ne_null, load_node h p node, last)
              (weaken
                (decref_loop-OnlyFrags k (record h { frags = F2 }) f.next xs
                  (Leads-frame (x ∷ []) f.next null xs (λ a o. off' a o ∙ off a o)
                    (NotIn-Apart x xs out) path)
                  d (omega arith))
                λ u h' (same, vars).
                  (λ a (ne, o). same a o ∙ off' a (ne, tt) ∙ off a (ne, tt), vars))
      ]
