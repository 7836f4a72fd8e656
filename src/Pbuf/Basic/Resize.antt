-- ===== src/Pbuf/Basic/Resize.antt =====
-- `gabs_pbuf_ci_reserve_tail`, `gabs_pbuf_ci_release_head` and `gabs_pbuf_ci_release_tail`
-- (pbuf/basic/basic.c) change one segment.
use gabs.Base.{
  ℕ, ◌+◌, ◌-◌, ◌≤◌, ◌≡◌, refl, subst, Bool, some, List, [], ◌∷◌, ◌++◌, arith, ==-refl, add64, sub64,
  le→leb,
}
use gabs.Base.Run.{ok}
use gabs.Pbuf.Seg.{NotIn-right, Seg, NotIn}
use gabs.Pbuf.Iface.{Var, grow_tail, cut_head, cut_tail}
use gabs.Pbuf.Basic.{
  null, Frag, Heap, Ci, update, ci_reserve_tail, ci_release_head, ci_release_tail,
}
use gabs.Pbuf.Basic.Leads.{
  seg, Fits, Node, SameOff, NotIn-Apart, Node-id, Leads-frame, SameOff-update, Distinct-split,
  Distinct-append, Apart-one, Apart-id,
}
use gabs.Pbuf.Basic.At.{At, Keeps, load-here, tailroom_lem}

module _ (ndebug : Bool) {h : Heap} {v : Var} {it : Ci} {pre : List Seg} {x : Seg} {post : List Seg}
    (at : At h v it pre (x ∷ post)) where
  abbrev here : Frag
  here = at.back.0

  abbrev node : Node h.frags it.cur x here
  node = at.back.1

  abbrev stored : Frag → Heap
  stored f = record h { frags = update h.frags it.cur (some f) }

  stored-SameOff : (f : Frag) → SameOff (x ∷ []) h.frags (stored f).frags
  stored-SameOff f =
      subst (λ a. SameOff (x ∷ []) h.frags (update h.frags a (some f))) (Node-id node)
        (SameOff-update h.frags x (some f))

  -- The fragment under the iterator is replaced by one with the same successor.
  stored-At :
      (f : Frag) → f.next ≡ here.next → Fits f → At (stored f) v it pre (seg it.cur f ∷ post)
  stored-At f e fits =
      let (front, (out, back), apart) = Distinct-split pre (x ∷ post) at.distinct in
      let same = stored-SameOff f in
      let id = Node-id node in
      record {
        front =
            Leads-frame (x ∷ []) (h.vars v) it.cur pre same (Apart-one pre x post apart) at.front;
        back = (
          f,
          record { ne_null = node.ne_null; holds = rw (==-refl it.cur); is = refl; fits = fits },
          rw e (Leads-frame (x ∷ []) here.next null post same (NotIn-Apart x post out) at.back.2),
        );
        last = at.last;
        distinct =
            Distinct-append pre (seg it.cur f ∷ post) front (subst (λ a. NotIn a post) id out, back)
              (Apart-id pre x (seg it.cur f) post id apart);
      }

  stored-Keeps : (f : Frag) → Keeps v (pre ++ x ∷ post) h (stored f)
  stored-Keeps f = record {
    frags = λ p out. stored-SameOff f p ((NotIn-right p pre (x ∷ post) out).0, tt);
    vars = λ w ne. refl;
  }

  -- `gabs_pbuf_ci_reserve_tail` of no more than the tailroom returns the address behind the
  -- segment's bytes, and makes the segment that much longer and its tailroom that much smaller;
  -- only the buffer and its fragments have changed.
  pub reserve_tail_lem :
      (n : ℕ)
      → n ≤ x.tail
      → (h' : Heap) × (ci_reserve_tail ndebug it n h ≡ ok (x.addr + x.size) h')
        × At h' v it pre (grow_tail n x ∷ post)
        × Keeps v (pre ++ x ∷ post) h h'
  unfolding ci_reserve_tail
  reserve_tail_lem n room =
      let fits = node.fits in
      let is = node.is in
      let f = record here { size = add64 here.size n } in
      let e : seg it.cur f ≡ grow_tail n x = ground arith in
      (
        stored f,
        rw (tailroom_lem ndebug at, le→leb n x.tail room, load-here ndebug at) (ground arith),
        subst (λ y. At (stored f) v it pre (y ∷ post)) e (stored-At f refl (ground arith)),
        stored-Keeps f,
      )

  -- `gabs_pbuf_ci_release_head` of no more than the size returns the old address of the segment's
  -- bytes, and takes that many off its head, to its headroom; only the buffer and its fragments
  -- have changed.
  pub release_head_lem :
      (n : ℕ)
      → n ≤ x.size
      → (h' : Heap) × (ci_release_head ndebug it n h ≡ ok x.addr h')
        × At h' v it pre (cut_head n x ∷ post)
        × Keeps v (pre ++ x ∷ post) h h'
  unfolding ci_release_head
  release_head_lem n room =
      let fits = node.fits in
      let is = node.is in
      let room' : n ≤ here.size = ground arith in
      let f = record here { size = sub64 here.size n; payload = here.payload + n } in
      let e : seg it.cur f ≡ cut_head n x = ground arith in
      (
        stored f,
        rw (load-here ndebug at, le→leb n here.size room') (ground arith),
        subst (λ y. At (stored f) v it pre (y ∷ post)) e (stored-At f refl (ground arith)),
        stored-Keeps f,
      )

  -- `gabs_pbuf_ci_release_tail` of no more than the size returns the new end of the segment's
  -- bytes, and takes that many off its tail, to its tailroom; only the buffer and its fragments
  -- have changed.
  pub release_tail_lem :
      (n : ℕ)
      → n ≤ x.size
      → (h' : Heap) × (ci_release_tail ndebug it n h ≡ ok (x.addr + (x.size - n)) h')
        × At h' v it pre (cut_tail n x ∷ post)
        × Keeps v (pre ++ x ∷ post) h h'
  unfolding ci_release_tail
  release_tail_lem n room =
      let fits = node.fits in
      let is = node.is in
      let room' : n ≤ here.size = ground arith in
      let f = record here { size = sub64 here.size n } in
      let e : seg it.cur f ≡ cut_tail n x = ground arith in
      (
        stored f,
        rw (load-here ndebug at, le→leb n here.size room') (ground arith),
        subst (λ y. At (stored f) v it pre (y ∷ post)) e (stored-At f refl (ground arith)),
        stored-Keeps f,
      )
