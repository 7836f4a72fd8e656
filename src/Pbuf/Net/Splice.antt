-- ===== src/Pbuf/Net/Splice.antt =====
-- `gabs_pbuf_ci_insert` (pbuf/zephyr/net_buf.c), and the end of a chain of network buffers.
use gabs.Base.{
  ℕ, ◌<◌, ◌≡◌, ◌≢◌, refl, sym, subst, ◌∙◌, Bool, List, [], ◌∷◌, ◌++◌, ==-refl, ==-false_of_ne,
  length,
}
use gabs.Base.Run.{ok}
use gabs.Pbuf.Seg.{NotIn-right, Seg, NotIn, Apart}
use gabs.Pbuf.Iface.{Var}
use gabs.Pbuf.Basic.{Ptr, null, Frag, Heap, update}
use gabs.Pbuf.Basic.Leads.{
  Leads, Distinct, SameOff, Node-id, Leads-append, Leads-frame, NotIn-append, Distinct-split,
  Distinct-append, NotIn-left, Apart-left, Apart-right, Apart-sym, Apart-append, last_id,
}
use gabs.Pbuf.Basic.Link.{relink, NotIn-last}
use gabs.Pbuf.Basic.At.{Chain, Keeps}
use gabs.Pbuf.NetBuf.{Calls, Documented, Lives, stored}
use gabs.Pbuf.Net.{Ci, insert_front, ci_insert}
use gabs.Pbuf.Net.At.{At}
use gabs.Alloc.{Tables}

-- The last buffer of a chain.
pub last_Lives :
    (h : Heap) (p c : Ptr) (x : Seg) (xs : List Seg)
    → Leads h.frags p (x ∷ xs) c
    → (g : Frag) × Lives h (last_id x xs) g × (g.next ≡ c)
last_Lives h p c x [] (f, node, e) = (
  f,
  subst (λ a. Lives h a f) (sym (Node-id node))
      (record { ne_null = node.ne_null; holds = node.holds; fits = node.fits }),
  e,
)
last_Lives h p c x (y ∷ ys) (f, node, path) = last_Lives h f.next c y ys path

-- The chain after that is linked to `q`.
pub linked_last :
    (h : Heap) (p c q : Ptr) (x : Seg) (xs : List Seg) (g : Frag)
    → Leads h.frags p (x ∷ xs) c
    → Distinct (x ∷ xs)
    → Lives h (last_id x xs) g
    → Leads (stored h (last_id x xs) (record g { next = q })).frags p (x ∷ xs) q
linked_last h p c q x xs g path d lives =
    let (f, ne, holds, path') = relink h.frags p c q x xs path d in
    let same : f ≡ g = cc (holds, lives.holds) in
    subst (λ (e : Frag). Leads (stored h (last_id x xs) (record e { next = q })).frags p (x ∷ xs) q)
      same path'

pub stored-SameOff :
    (h : Heap) (x : Seg) (xs : List Seg) (g : Frag)
    → SameOff (x ∷ xs) h.frags (stored h (last_id x xs) g).frags
stored-SameOff h x xs g p out = rw (==-false_of_ne p (last_id x xs) (NotIn-last p x xs out))

last_NotIn : (x : Seg) (xs ys : List Seg) → Apart (x ∷ xs) ys → NotIn (last_id x xs) ys
last_NotIn x [] ys (out, _) = out
last_NotIn x (z ∷ zs) ys (_, apart) = last_NotIn z zs ys apart

module _ (ndebug : Bool) (calls : Calls) (tables : Tables Heap) (api : ℕ)
    (documented : Documented calls) (fuel : ℕ) where
  -- `ys` is linked in between `pre` and `cur`.
  record Joined (h : Heap) (v : Var) (pre : List Seg) (cur first : Ptr) (ys : List Seg) (h' : Heap)
      : Type 0 where
    front : Leads h'.frags (h'.vars v) pre first
    middle : Leads h'.frags first ys cur
    frags : SameOff (pre ++ ys) h.frags h'.frags
    vars : (u : Var) → v ≢ u → h'.vars u ≡ h.vars u

  insert_front_lem :
      (h : Heap) (p cur : Ptr) (y : Seg) (ys post : List Seg)
      → Leads h.frags p (y ∷ ys) null
      → Distinct (y ∷ ys)
      → length (y ∷ ys) < fuel
      → Leads h.frags cur post null
      → (h' : Heap) × (insert_front ndebug calls tables api fuel p cur h ≡ ok p h')
        × Leads h'.frags p (y ∷ ys) cur
        × SameOff (y ∷ ys) h.frags h'.frags
        × ((u : Var) → h'.vars u ≡ h.vars u)
  unfolding insert_front
  insert_front_lem h p cur y ys [] path d short e =
      (h, rw e, subst (Leads h.frags p (y ∷ ys)) (sym e) path, λ q out. refl, λ u. refl)
  insert_front_lem h p cur y ys (z ∷ post) path d short (f, node, _) =
      rw (==-false_of_ne cur null node.ne_null)
        (documented.frag_add_lem fuel h p cur y ys path d short)

  module _ {h : Heap} {v w : Var} {it : Ci} {post : List Seg} (y : Seg) (ys : List Seg)
      (chain : Chain h w (y ∷ ys)) (short : length (y ∷ ys) < fuel) where
    insert-Joined :
        (pre : List Seg)
        → At h v it pre post
        → Apart pre (y ∷ ys)
        → (h' : Heap) × (ci_insert ndebug calls tables api fuel it w h
            ≡ ok (record it { cur = h.vars w }) h')
          × Joined h v pre it.cur (h.vars w) (y ∷ ys) h'
    unfolding ci_insert
    insert-Joined [] at apart =
        let (h1, run, path, same, vars) =
          insert_front_lem h (h.vars w) it.cur y ys post chain.path chain.distinct short at.back in
        (
          record h1 { vars = update h1.vars v (h.vars w) },
          rw (at.prev, run, at.head),
          record {
            front = rw (==-refl v);
            middle = path;
            frags = same;
            vars = λ u ne. rw (==-false_of_ne u v (λ e. ne (sym e))) (vars u);
          },
        )
    insert-Joined (z ∷ zs) at apart =
        let (g, lives, next) = last_Lives h (h.vars v) it.cur z zs at.front in
        let (front, _, _) = Distinct-split (z ∷ zs) post at.distinct in
        let linked = linked_last h (h.vars v) it.cur (h.vars w) z zs g at.front front lives in
        let (h1, run, path, same, vars) =
          documented.frag_insert_lem fuel h (last_id z zs) (h.vars w) g y ys lives chain.path
            chain.distinct (last_NotIn z zs (y ∷ ys) apart) short in
        (
          h1,
          rw (at.prev, ==-false_of_ne (last_id z zs) null lives.ne_null, run),
          record {
            front =
                subst (λ p. Leads h1.frags p (z ∷ zs) (h.vars w)) (sym (vars v))
                  (Leads-frame (y ∷ ys) (h.vars v) (h.vars w) (z ∷ zs) same apart linked);
            middle = subst (Leads h1.frags (h.vars w) (y ∷ ys)) next path;
            frags = λ p out.
                same p (NotIn-right p (z ∷ zs) (y ∷ ys) out)
                ∙ stored-SameOff h z zs _ p (NotIn-left p (z ∷ zs) (y ∷ ys) out);
            vars = λ u ne. vars u;
          },
        )

  module _ {h : Heap} {v w : Var} {it : Ci} {pre post : List Seg} where
    -- `gabs_pbuf_ci_insert` of the buffer `w`, which has a segment, at an iterator behind `pre` at
    -- `post` in the buffer `v`, succeeds: the iterator is behind `pre` at the chain of `w` followed
    -- by `post`, and only `v` and the fragments of the two have changed. The two share no fragment
    -- and no variable, and there are more rounds than `w` has fragments.
    pub ci_insert-At :
        (y : Seg) (ys : List Seg)
        → At h v it pre post
        → Chain h w (y ∷ ys)
        → v ≢ w
        → Apart (pre ++ post) (y ∷ ys)
        → length (y ∷ ys) < fuel
        → (it' : Ci) × (h' : Heap) × (ci_insert ndebug calls tables api fuel it w h ≡ ok it' h')
          × At h' v it' pre (y ∷ (ys ++ post))
          × Keeps v ((pre ++ post) ++ y ∷ ys) h h'
    ci_insert-At y ys at chain ne apart short =
        let (front, back, off) = Distinct-split pre post at.distinct in
        let pre_off = Apart-left pre post (y ∷ ys) apart in
        let post_off = Apart-right pre post (y ∷ ys) apart in
        let (h', run, j) = insert-Joined y ys chain short pre at pre_off in
        let outside = Apart-append pre (y ∷ ys) post off (Apart-sym post (y ∷ ys) post_off) in
        let post' =
          Leads-frame (pre ++ y ∷ ys) it.cur null post j.frags
            (Apart-sym (pre ++ y ∷ ys) post outside) at.back in
        (
          record it { cur = h.vars w },
          h',
          run,
          record {
            front = j.front;
            back = Leads-append h'.frags (h.vars w) it.cur null (y ∷ ys) post j.middle post';
            head = at.head;
            prev = at.prev;
            distinct =
                Distinct-append pre (y ∷ (ys ++ post)) front
                  (Distinct-append (y ∷ ys) post chain.distinct back
                    (Apart-sym post (y ∷ ys) post_off))
                  (Apart-sym (y ∷ (ys ++ post)) pre (
                    Apart-append (y ∷ ys) post pre (Apart-sym pre (y ∷ ys) pre_off)
                      (Apart-sym pre post off)));
          },
          record {
            frags = λ p out. j.frags p (
                NotIn-append p pre (y ∷ ys)
                  (NotIn-left p pre post (NotIn-left p (pre ++ post) (y ∷ ys) out))
                  (NotIn-right p (pre ++ post) (y ∷ ys) out));
            vars = j.vars;
          },
        )
