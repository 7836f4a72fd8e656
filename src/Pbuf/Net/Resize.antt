-- ===== src/Pbuf/Net/Resize.antt =====
-- The operations of pbuf/zephyr/net_buf.c that change one segment.
use gabs.Base.{
  ℕ, ◌+◌, ◌-◌, ◌≤◌, ◌≡◌, refl, ap, subst, ◌∙◌, Bool, some, List, [], ◌∷◌, ◌++◌, arith, ==-refl,
}
use gabs.Base.Run.{Run, ok}
use gabs.Pbuf.Seg.{NotIn-right, Seg, NotIn}
use gabs.Pbuf.Iface.{Var, grow_tail, cut_head, cut_tail}
use gabs.Pbuf.Basic.{Frag, Heap, update}
use gabs.Pbuf.Basic.Leads.{
  seg, Fits, SameOff, NotIn-Apart, Node-id, Leads-frame, SameOff-update, Distinct-split,
  Distinct-append, Apart-one, Apart-id,
}
use gabs.Pbuf.Basic.At.{Keeps}
use gabs.Pbuf.NetBuf.{Calls, Documented, Lives, stored}
use gabs.Pbuf.Net.{Ci, ci_reserve_head, ci_reserve_tail, ci_release_head, ci_release_tail}
use gabs.Pbuf.Net.At.{At, here, node, here-Lives}
use gabs.Alloc.{Tables}

-- A segment after `n` bytes are added at its front.
abbrev pub grow_head : ℕ → Seg → Seg
grow_head n x = record x { addr = x.addr - n; size = x.size + n; head = x.head - n }

module _ (ndebug : Bool) (calls : Calls) (tables : Tables Heap) (api : ℕ)
    (documented : Documented calls) {h : Heap} {v : Var} {it : Ci} {pre : List Seg} {x : Seg}
    {post : List Seg} (at : At h v it pre (x ∷ post)) where
  abbrev f : Frag
  f = here ndebug calls tables api at

  stored-SameOff : (g : Frag) → SameOff (x ∷ []) h.frags (stored h it.cur g).frags
  stored-SameOff g =
      subst (λ a. SameOff (x ∷ []) h.frags (update h.frags a (some g)))
        (Node-id (node ndebug calls tables api at)) (SameOff-update h.frags x (some g))

  -- The buffer under the iterator is replaced by one with the same successor.
  stored-At :
      (g : Frag) → g.next ≡ f.next → Fits g → At (stored h it.cur g) v it pre (seg it.cur g ∷ post)
  stored-At g e fits =
      let n = node ndebug calls tables api at in
      let (front, (out, back), apart) = Distinct-split pre (x ∷ post) at.distinct in
      let same = stored-SameOff g in
      let id = Node-id n in
      record {
        front =
            Leads-frame (x ∷ []) (h.vars v) it.cur pre same (Apart-one pre x post apart) at.front;
        back = (
          g,
          record { ne_null = n.ne_null; holds = rw (==-refl it.cur); is = refl; fits = fits },
          rw e (Leads-frame (x ∷ []) f.next _ post same (NotIn-Apart x post out) at.back.2),
        );
        head = at.head;
        prev = at.prev;
        distinct =
            Distinct-append pre (seg it.cur g ∷ post) front (subst (λ a. NotIn a post) id out, back)
              (Apart-id pre x (seg it.cur g) post id apart);
      }

  -- A run returns that address, the segment under the iterator is now `y`, and only the buffer and
  -- its fragments have changed.
  abbrev pub Resized : ℕ → Seg → Run Heap ℕ → Type 0
  Resized addr y r =
      (h' : Heap) × (r ≡ ok addr h') × At h' v it pre (y ∷ post) × Keeps v (pre ++ x ∷ post) h h'

  stored-Resized :
      (g : Frag) (a addr : ℕ) (y : Seg) (r : Run Heap ℕ)
      → r ≡ ok a (stored h it.cur g)
      → a ≡ addr
      → g.next ≡ f.next
      → Fits g
      → seg it.cur g ≡ y
      → Resized addr y r
  stored-Resized g a addr y r run same e fits is = (
    stored h it.cur g,
    run ∙ ap (λ b. ok b (stored h it.cur g)) same,
    subst (λ z. At (stored h it.cur g) v it pre (z ∷ post)) is (stored-At g e fits),
    record {
      frags = λ p out. stored-SameOff g p ((NotIn-right p pre (x ∷ post) out).0, tt);
      vars = λ w ne. refl;
    },
  )

  abbrev lives : Lives h it.cur f
  lives = here-Lives ndebug calls tables api at

  -- `gabs_pbuf_ci_reserve_head` of no more than the headroom returns the new address of the segment's
  -- bytes, and makes the segment that much longer at its front.
  pub ci_reserve_head-At :
      (n : ℕ)
      → n ≤ x.head
      → Resized (x.addr - n) (grow_head n x) (ci_reserve_head ndebug calls tables api it n h)
  unfolding ci_reserve_head
  ci_reserve_head-At n room =
      let fits = lives.fits in
      let is = (node ndebug calls tables api at).is in
      let room' : n ≤ f.payload - f.base = ground arith in
      let g = record f { payload = f.payload - n; size = f.size + n } in
      stored-Resized g (f.payload - n) (x.addr - n) (grow_head n x) _
        (documented.push_lem h it.cur f n lives room') (ground arith) refl (ground arith)
        (ground arith)

  -- `gabs_pbuf_ci_reserve_tail` of no more than the tailroom returns the address behind the segment's
  -- bytes, and makes the segment that much longer.
  pub ci_reserve_tail-At :
      (n : ℕ)
      → n ≤ x.tail
      → Resized (x.addr + x.size) (grow_tail n x) (ci_reserve_tail ndebug calls tables api it n h)
  unfolding ci_reserve_tail
  ci_reserve_tail-At n room =
      let fits = lives.fits in
      let is = (node ndebug calls tables api at).is in
      let room' : n ≤ f.base + f.cap - (f.payload + f.size) = ground arith in
      let g = record f { size = f.size + n } in
      stored-Resized g (f.payload + f.size) (x.addr + x.size) (grow_tail n x) _
        (documented.add_lem h it.cur f n lives room') (ground arith) refl (ground arith)
        (ground arith)

  -- `gabs_pbuf_ci_release_head` of no more than the size returns the old address of the segment's
  -- bytes, and takes that many off its front.
  pub ci_release_head-At :
      (n : ℕ)
      → n ≤ x.size
      → Resized (x.addr) (cut_head n x) (ci_release_head ndebug calls tables api it n h)
  unfolding ci_release_head
  ci_release_head-At n room =
      let fits = lives.fits in
      let is = (node ndebug calls tables api at).is in
      let room' : n ≤ f.size = ground arith in
      let g = record f { payload = f.payload + n; size = f.size - n } in
      stored-Resized g (f.payload) (x.addr) (cut_head n x) _
        (documented.pull_mem_lem h it.cur f n lives room') (ground arith) refl (ground arith)
        (ground arith)

  -- `gabs_pbuf_ci_release_tail` of no more than the size returns the new end of the segment's bytes,
  -- and takes that many off its end.
  pub ci_release_tail-At :
      (n : ℕ)
      → n ≤ x.size
      → Resized
          (x.addr + (x.size - n))
          (cut_tail n x)
          (ci_release_tail ndebug calls tables api it n h)
  unfolding ci_release_tail
  ci_release_tail-At n room =
      let fits = lives.fits in
      let is = (node ndebug calls tables api at).is in
      let room' : n ≤ f.size = ground arith in
      let g = record f { size = f.size - n } in
      stored-Resized g (f.payload + (f.size - n)) (x.addr + (x.size - n)) (cut_tail n x) _
        (documented.remove_mem_lem h it.cur f n lives room') (ground arith) refl (ground arith)
        (ground arith)
