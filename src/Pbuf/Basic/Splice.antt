-- ===== src/Pbuf/Basic/Splice.antt =====
-- `gabs_pbuf_ci_insert`, `gabs_pbuf_ci_remove` and `gabs_pbuf_ci_detach` (pbuf/basic/basic.c) relink
-- a chain.
use gabs.Base.{
  ℕ, zero, suc, ◌<◌, ◌≡◌, ◌≢◌, refl, sym, ap, subst, ◌∙◌, Bool, Option, none, some, List, [], ◌∷◌,
  ◌++◌, arith, ==-refl, ==-false_of_ne, length,
}
use gabs.Base.Run.{ok, Ends-ok}
use gabs.Pbuf.Seg.{NotIn-right, Seg, Apart}
use gabs.Pbuf.Iface.{Var}
use gabs.Pbuf.Basic.{
  Ptr, null, Frag, Heap, Ci, update, write_loc, insert_loop, link_last, ci_insert, ci_remove,
  ci_detach,
}
use gabs.Pbuf.Basic.Leads.{
  Node, Leads, Distinct, SameOff, NotIn-Apart, Node-id, Leads-append, Leads-frame, Node-frame,
  SameOff-update, Distinct-split, Distinct-append, NotIn-left, Apart-one, Apart-rest, Apart-left,
  Apart-right, Apart-sym, Apart-append, last_id,
}
use gabs.Pbuf.Basic.Link.{
  load_lem, load_node, Linked, write_loc-Linked, relink, NotIn-last, decref_loop-OnlyFrags,
}
use gabs.Pbuf.Basic.At.{Chain, At, Keeps, load-here}

-- The fragment behind whose `next` the loop of `gabs_pbuf_ci_insert` stops.
abbrev pub last_ptr : Option Ptr → List Seg → Option Ptr
last_ptr p [] = p
last_ptr p (y ∷ ys) = some (last_id y ys)

module _ (ndebug : Bool) where
  pub insert_loop_lem :
      (k : ℕ) (h : Heap) (p : Option Ptr) (cur : Ptr) (ys : List Seg)
      → Leads h.frags cur ys null
      → length ys < k
      → insert_loop ndebug k p cur h ≡ ok (last_ptr p ys) h
  unfolding insert_loop
  insert_loop_lem zero h p cur ys path fuel = absurd (omega arith)
  insert_loop_lem (suc k) h p cur [] path fuel = rw path
  insert_loop_lem (suc k) h p cur (y ∷ []) (f, node, path) fuel =
      rw (==-false_of_ne cur null node.ne_null, load_node h cur node)
        (insert_loop_lem k h (some cur) f.next [] path (omega arith)
          ∙ ap (λ q. ok (some q) h) (sym (Node-id node)))
  insert_loop_lem (suc k) h p cur (y ∷ z ∷ ys) (f, node, path) fuel =
      rw (==-false_of_ne cur null node.ne_null, load_node h cur node)
        (insert_loop_lem k h (some cur) f.next (z ∷ ys) path (omega arith))

  -- The end of the chain `ys` is linked to `c`.
  pub record Appended (h : Heap) (ys : List Seg) (c first : Ptr) (h' : Heap) : Type 0 where
    pub path : Leads h'.frags first ys c
    pub frags : SameOff ys h.frags h'.frags
    pub vars : (w : Var) → h'.vars w ≡ h.vars w

  pub link_last-Appended :
      (h : Heap) (q c : Ptr) (ys : List Seg)
      → Leads h.frags q ys null
      → Distinct ys
      → (first : Ptr) × (h' : Heap) × (link_last ndebug (last_ptr none ys) q c h ≡ ok first h')
        × Appended h ys c first h'
  unfolding link_last write_loc
  link_last-Appended h q c [] path d =
      (c, h, refl, record { path = refl; frags = λ p o. refl; vars = λ w. refl })
  link_last-Appended h q c (y ∷ ys) path d =
      let (f, ne, holds, path') = relink h.frags q null c y ys path d in
      let last = last_id y ys in
      (
        q,
        record h { frags = update h.frags last (some (record f { next = c })) },
        rw (load_lem h last f ne holds),
        record {
          path = path';
          frags = λ p out. rw (==-false_of_ne p last (NotIn-last p y ys out));
          vars = λ w. refl;
        },
      )

  module _ {h : Heap} {v : Var} {it : Ci} {pre post : List Seg} (fuel : ℕ) where
    -- `gabs_pbuf_ci_insert` of the buffer `w`, at an iterator behind `pre` at `post` in the buffer
    -- `v`, succeeds: the iterator is behind `pre` at the chain of `w` followed by `post`, and only
    -- `v` and the fragments of the two have changed. The two share no fragment and no variable,
    -- and there are more rounds than `w` has fragments.
    pub insert_lem :
        {w : Var} {ys : List Seg}
        → At h v it pre post
        → Chain h w ys
        → v ≢ w
        → Apart (pre ++ post) ys
        → length ys < fuel
        → (it' : Ci) × (h' : Heap) × (ci_insert ndebug fuel it w h ≡ ok it' h')
          × At h' v it' pre (ys ++ post)
          × Keeps v ((pre ++ post) ++ ys) h h'
    unfolding ci_insert
    insert_lem {w} {ys} at chain ne apart enough =
        let (front, back, off) = Distinct-split pre post at.distinct in
        let pre_off = Apart-left pre post ys apart in
        let post_off = Apart-right pre post ys apart in
        let (first, h1, run1, a) =
          link_last-Appended h (h.vars w) it.cur ys chain.path chain.distinct in
        let v_same : h1.vars v ≡ h.vars v = a.vars v in
        let pre1 : Leads h1.frags (h1.vars v) pre it.cur =
          subst (λ p. Leads h1.frags p pre it.cur) (sym v_same)
            (Leads-frame ys (h.vars v) it.cur pre a.frags pre_off at.front) in
        let post1 = Leads-frame ys it.cur null post a.frags post_off at.back in
        let (h2, run2, l) = write_loc-Linked h1 v pre it.cur first pre1 front in
        let ys2 = Leads-frame pre first it.cur ys l.frags (Apart-sym pre ys pre_off) a.path in
        let post2 = Leads-frame pre it.cur null post l.frags (Apart-sym pre post off) post1 in
        (
          record { cur = first; lastp = it.lastp },
          h2,
          rw (insert_loop_lem fuel h none (h.vars w) ys chain.path enough, run1, at.last, run2),
          record {
            front = l.path;
            back = Leads-append h2.frags first it.cur null ys post ys2 post2;
            last = at.last;
            distinct =
                Distinct-append pre (ys ++ post) front
                  (Distinct-append ys post chain.distinct back (Apart-sym post ys post_off))
                  (Apart-sym (ys ++ post) pre
                    (Apart-append ys post pre (Apart-sym pre ys pre_off) (Apart-sym pre post off)));
          },
          record {
            frags = λ p out.
                l.frags p (NotIn-left p pre post (NotIn-left p (pre ++ post) ys out))
                ∙ a.frags p (NotIn-right p (pre ++ post) ys out);
            vars = λ u away. l.vars u away ∙ a.vars u;
          },
        )

  module _ {h : Heap} {v : Var} {it : Ci} {pre : List Seg} {x : Seg} {post : List Seg} (fuel : ℕ)
      (at : At h v it pre (x ∷ post)) where
    abbrev here : Frag
    here = at.back.0

    abbrev node : Node h.frags it.cur x here
    node = at.back.1

    -- After the link to the fragment is redirected, it still lives.
    still_here : {c : Ptr} (h1 : Heap) → Linked h v pre c h1 → Node h1.frags it.cur x here
    still_here h1 l =
        let (front, back, off) = Distinct-split pre (x ∷ post) at.distinct in
        Node-frame pre l.frags (Apart-sym pre (x ∷ []) (Apart-one pre x post off)).0 node

    -- `gabs_pbuf_ci_remove` of the fragment `x` under an iterator, given two rounds or more,
    -- succeeds: the iterator is behind `pre` at what followed `x`, and only `v` and the fragments
    -- it had have changed.
    pub remove_lem :
        1 < fuel
        → (it' : Ci) × (h' : Heap) × (ci_remove ndebug fuel it h ≡ ok it' h')
          × At h' v it' pre post
          × Keeps v (pre ++ x ∷ post) h h'
    unfolding ci_remove
    remove_lem enough =
        let (front, (out, back), off) = Distinct-split pre (x ∷ post) at.distinct in
        let one = Apart-one pre x post off in
        let (h1, run1, l) = write_loc-Linked h v pre it.cur here.next at.front front in
        let node1 = still_here h1 l in
        let cut = some (record here { next = null }) in
        let h2 = record h1 { frags = update h1.frags it.cur cut } in
        let off2 : SameOff (x ∷ []) h1.frags h2.frags =
          subst (λ a. SameOff (x ∷ []) h1.frags (update h1.frags a cut)) (Node-id node)
            (SameOff-update h1.frags x cut) in
        let alone : Leads h2.frags it.cur (x ∷ []) null = (
          record here { next = null },
          record {
            ne_null = node1.ne_null;
            holds = rw (==-refl it.cur);
            is = node1.is;
            fits = record {
              low = node1.fits.low;
              high = node1.fits.high;
              small = node1.fits.small;
            };
          },
          refl,
        ) in
        let (_, h3, run3, (same, vars)) =
          Ends-ok (decref_loop-OnlyFrags ndebug fuel h2 it.cur (x ∷ []) alone (tt, tt) enough) in
        let off3 : SameOff (x ∷ []) h1.frags h3.frags = λ p o. same p o ∙ off2 p o in
        let post1 =
          Leads-frame pre here.next null post l.frags
            (Apart-sym pre post (Apart-rest pre x post off)) at.back.2 in
        (
          record it { cur = here.next },
          h3,
          rw (load-here ndebug at, at.last, run1, load_node h1 it.cur node1, run3),
          record {
            front =
                subst (λ p. Leads h3.frags p pre here.next) (sym (vars v))
                  (Leads-frame (x ∷ []) (h1.vars v) here.next pre off3 one l.path);
            back = Leads-frame (x ∷ []) here.next null post off3 (NotIn-Apart x post out) post1;
            last = at.last;
            distinct = Distinct-append pre post front back (Apart-rest pre x post off);
          },
          record {
            frags = λ p o.
                off3 p ((NotIn-right p pre (x ∷ post) o).0, tt)
                ∙ l.frags p (NotIn-left p pre (x ∷ post) o);
            vars = λ u away. vars u ∙ l.vars u away;
          },
        )

    -- `gabs_pbuf_ci_detach` at an iterator that is at the fragment `x` succeeds: the buffer has
    -- the segments before `x`, and only it and its fragments have changed. There are more rounds
    -- than fragments from `x` on.
    pub detach_lem :
        suc (length post) < fuel
        → (h' : Heap) × (ci_detach ndebug fuel it h ≡ ok tt h')
          × Chain h' v pre
          × Keeps v (pre ++ x ∷ post) h h'
    unfolding ci_detach
    detach_lem enough =
        let (front, back, off) = Distinct-split pre (x ∷ post) at.distinct in
        let (h1, run1, l) = write_loc-Linked h v pre it.cur null at.front front in
        let path1 =
          Leads-frame pre it.cur null (x ∷ post) l.frags (Apart-sym pre (x ∷ post) off) at.back in
        let (_, h2, run2, (same, vars)) =
          Ends-ok (decref_loop-OnlyFrags ndebug fuel h1 it.cur (x ∷ post) path1 back enough) in
        (
          h2,
          rw (at.last, run1) run2,
          record {
            path =
                subst (λ p. Leads h2.frags p pre null) (sym (vars v))
                  (Leads-frame (x ∷ post) (h1.vars v) null pre same off l.path);
            distinct = front;
          },
          record {
            frags = λ p out.
                same p (NotIn-right p pre (x ∷ post) out)
                ∙ l.frags p (NotIn-left p pre (x ∷ post) out);
            vars = λ u away. vars u ∙ l.vars u away;
          },
        )
