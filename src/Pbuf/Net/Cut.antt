-- ===== src/Pbuf/Net/Cut.antt =====
-- `gabs_pbuf_ci_remove` and `gabs_pbuf_ci_detach` (pbuf/zephyr/net_buf.c).
use gabs.Base.{
  ℕ, suc, ◌<◌, ◌≡◌, ◌≢◌, refl, sym, ap, subst, ◌∙◌, Bool, true, false, List, [], ◌∷◌, ◌++◌, arith,
  ==-refl, ==-false_of_ne, length, ◌==◌,
}
use gabs.Base.Run.{ok, Ends-ok}
use gabs.Pbuf.Seg.{NotIn-right, Seg, Apart}
use gabs.Pbuf.Iface.{Var}
use gabs.Pbuf.Basic.{Ptr, null, Frag, Heap, update}
use gabs.Pbuf.Basic.Leads.{
  Frags, Node, Leads, SameOff, Node-id, Leads-frame, NotIn-append, Distinct-split, Distinct-append,
  NotIn-left, Apart-one, Apart-rest, Apart-sym, Apart-append, last_id,
}
use gabs.Pbuf.Basic.Link.{load_lem, Linked}
use gabs.Pbuf.Basic.At.{Chain, Keeps}
use gabs.Pbuf.NetBuf.{Calls, Documented, stored}
use gabs.Pbuf.Net.{Ci, ci_remove, ci_detach}
use gabs.Pbuf.Net.At.{At, node}
use gabs.Pbuf.Net.Splice.{last_Lives, linked_last, stored-SameOff}
use gabs.Alloc.{Tables}

-- The first buffers of two parts of a chain are different, and so is the last of the first part.
heads_differ :
    {F : Frags} {p q : Ptr} {x y : Seg} {f g : Frag}
    → Node F p x f
    → Node F q y g
    → x.id ≢ y.id
    → p ≢ q
heads_differ node node' ne e = ne (Node-id node ∙ e ∙ sym (Node-id node'))

last_differs : (z : Seg) (zs : List Seg) (x : Seg) → Apart (z ∷ zs) (x ∷ []) → last_id z zs ≢ x.id
last_differs z [] x ((ne, _), _) = ne
last_differs z (y ∷ ys) x (_, apart) = last_differs y ys x apart

-- The buffer of `x` is taken out of the chain of `v` behind `pre`, and released; `q` is what followed
-- it.
record Removed (h : Heap) (v : Var) (x : Seg) (pre : List Seg) (q : Ptr) (h' : Heap) : Type 0 where
  path : Leads h'.frags (h'.vars v) pre q
  frags : SameOff (pre ++ x ∷ []) h.frags h'.frags
  vars : (u : Var) → v ≢ u → h'.vars u ≡ h.vars u

module _ (ndebug : Bool) (calls : Calls) (tables : Tables Heap) (api : ℕ)
    (documented : Documented calls) (fuel : ℕ) {h : Heap} {v : Var} {it : Ci} {x : Seg}
    {post : List Seg} where
  remove-Removed :
      (pre : List Seg) (at : At h v it pre (x ∷ post))
      → 1 < fuel
      → (h' : Heap) × (ci_remove ndebug calls tables api fuel it h
          ≡ ok (record it { cur = at.back.0.next }) h')
        × Removed h v x pre at.back.0.next h'
  unfolding ci_remove
  remove-Removed [] at enough =
      let (f, node, _) = at.back in
      let (h1, run, same, vars) =
        documented.frag_del_first fuel h it.cur f
          (record { ne_null = node.ne_null; holds = node.holds; fits = node.fits }) enough in
      let first : (h.vars it.head == it.cur) ≡ true = ground (arith, at.front, ap h.vars at.head) in
      (
        record h1 { vars = update h1.vars v f.next },
        rw (at.prev, run, first, at.head),
        record {
          path = rw (==-refl v);
          frags = subst (λ y. SameOff (y ∷ []) h.frags h1.frags) (sym node.is) same;
          vars = λ u ne. rw (==-false_of_ne u v (λ e. ne (sym e))) (vars u);
        },
      )
  remove-Removed (z ∷ zs) at enough =
      let (f, node, _) = at.back in
      let (g, lives, next) = last_Lives h (h.vars v) it.cur z zs at.front in
      let (front, _, off) = Distinct-split (z ∷ zs) (x ∷ post) at.distinct in
      let one = Apart-one (z ∷ zs) x post off in
      let apart : last_id z zs ≢ it.cur =
        subst (λ a. last_id z zs ≢ a) (Node-id node) (last_differs z zs x one) in
      let linked = linked_last h (h.vars v) it.cur f.next z zs g at.front front lives in
      let (h1, run, same, vars) =
        documented.frag_del_next fuel h (last_id z zs) it.cur g f lives
          (record { ne_null = node.ne_null; holds = node.holds; fits = node.fits }) next apart
          enough in
      let relinked = stored h (last_id z zs) (record g { next = f.next }) in
      let same' = subst (λ y. SameOff (y ∷ []) relinked.frags h1.frags) (sym node.is) same in
      let first : (h.vars it.head == it.cur) ≡ false =
        rw at.head (==-false_of_ne (h.vars v) it.cur (heads_differ at.front.1 node (off.0).0)) in
      (
        h1,
        rw (at.prev, run, first),
        record {
          path =
              subst (λ p. Leads h1.frags p (z ∷ zs) f.next) (sym (vars v))
                (Leads-frame (x ∷ []) (h.vars v) f.next (z ∷ zs) same' one linked);
          frags = λ p out.
              same' p (NotIn-right p (z ∷ zs) (x ∷ []) out)
              ∙ stored-SameOff h z zs (record g { next = f.next }) p
                  (NotIn-left p (z ∷ zs) (x ∷ []) out);
          vars = λ u ne. vars u;
        },
      )

  -- The link to the buffer under the iterator is set to NULL in `gabs_pbuf_ci_detach`.
  cut_link :
      (pre : List Seg) (at : At h v it pre (x ∷ post))
      → (h' : Heap) × (ci_detach ndebug calls tables api fuel it h ≡ calls.unref fuel it.cur h')
        × Linked h v pre null h'
  unfolding ci_detach
  cut_link [] at =
      let first : (h.vars it.head == it.cur) ≡ true = ground (arith, at.front, ap h.vars at.head) in
      (
        record h { vars = update h.vars v null },
        rw (first, at.head),
        record {
          path = rw (==-refl v);
          frags = λ p out. refl;
          vars = λ u ne. rw (==-false_of_ne u v (λ e. ne (sym e)));
        },
      )
  cut_link (z ∷ zs) at =
      let (f, node, _) = at.back in
      let (g, lives, next) = last_Lives h (h.vars v) it.cur z zs at.front in
      let (front, _, off) = Distinct-split (z ∷ zs) (x ∷ post) at.distinct in
      let first : (h.vars it.head == it.cur) ≡ false =
        rw at.head (==-false_of_ne (h.vars v) it.cur (heads_differ at.front.1 node (off.0).0)) in
      (
        stored h (last_id z zs) (record g { next = null }),
        rw (first, at.prev, load_lem h (last_id z zs) g lives.ne_null lives.holds),
        record {
          path = linked_last h (h.vars v) it.cur null z zs g at.front front lives;
          frags = stored-SameOff h z zs _;
          vars = λ u ne. refl;
        },
      )

  module _ {pre : List Seg} (at : At h v it pre (x ∷ post)) where
    -- `gabs_pbuf_ci_remove` of the fragment `x` under an iterator, given two rounds or more,
    -- succeeds: the iterator is behind `pre` at what followed `x`, and only `v` and the fragments
    -- it had have changed.
    pub ci_remove-At :
        1 < fuel
        → (it' : Ci) × (h' : Heap) × (ci_remove ndebug calls tables api fuel it h ≡ ok it' h')
          × At h' v it' pre post
          × Keeps v (pre ++ x ∷ post) h h'
    ci_remove-At enough =
        let (front, (out, back), off) = Distinct-split pre (x ∷ post) at.distinct in
        let (h', run, r) = remove-Removed pre at enough in
        let rest = Apart-rest pre x post off in
        let outside = Apart-append pre (x ∷ []) post rest (out, tt) in
        (
          record it { cur = at.back.0.next },
          h',
          run,
          record {
            front = r.path;
            back =
                Leads-frame (pre ++ x ∷ []) at.back.0.next null post r.frags
                  (Apart-sym (pre ++ x ∷ []) post outside) at.back.2;
            head = at.head;
            prev = at.prev;
            distinct = Distinct-append pre post front back rest;
          },
          record {
            frags = λ p o. r.frags p (
                NotIn-append p pre (x ∷ []) (NotIn-left p pre (x ∷ post) o)
                  ((NotIn-right p pre (x ∷ post) o).0, tt));
            vars = r.vars;
          },
        )

    -- `gabs_pbuf_ci_detach` at an iterator that is at the fragment `x` succeeds: the buffer has
    -- the segments before `x`, and only it and its fragments have changed. There are more rounds
    -- than fragments from `x` on.
    pub ci_detach-Chain :
        suc (length post) < fuel
        → (h' : Heap) × (ci_detach ndebug calls tables api fuel it h ≡ ok tt h')
          × Chain h' v pre
          × Keeps v (pre ++ x ∷ post) h h'
    ci_detach-Chain enough =
        let (front, back, off) = Distinct-split pre (x ∷ post) at.distinct in
        let (h1, run1, l) = cut_link pre at in
        let path1 =
          Leads-frame pre it.cur null (x ∷ post) l.frags (Apart-sym pre (x ∷ post) off) at.back in
        let (_, h2, run2, (same, vars)) =
          Ends-ok (documented.unref_lem fuel h1 it.cur (x ∷ post) path1 back enough) in
        (
          h2,
          run1 ∙ run2,
          record {
            path =
                subst (λ p. Leads h2.frags p pre null) (sym (vars v))
                  (Leads-frame (x ∷ post) (h1.vars v) null pre same off l.path);
            distinct = front;
          },
          record {
            frags = λ p out.
                same p (NotIn-right p pre (x ∷ post) out)
                ∙ l.frags p (NotIn-left p pre (x ∷ post) out);
            vars = λ u away. vars u ∙ l.vars u away;
          },
        )
