-- ===== src/Pbuf/Basic/At.antt =====
-- Iterators of the basic implementation: what each reader returns, and what a change of the size of
-- a segment leaves (pbuf/basic/basic.c).
use gabs.Base.{
  ◌+◌, ◌-◌, ◌≡◌, ◌≢◌, refl, sym, ap, subst, ◌∙◌, Bool, true, false, List, [], ◌∷◌, ◌++◌,
  append_assoc, arith, ==-false_of_ne, sub64,
}
use gabs.Base.Run.{ok}
use gabs.Pbuf.Seg.{Seg, Apart}
use gabs.Pbuf.Iface.{Var}
use gabs.Pbuf.Basic.{
  null, Frag, Heap, Ci, root, next_of, load, okay, ci_init, ci_next, ci_eoi, ci_data, ci_size,
  ci_headroom, ci_tailroom,
}
use gabs.Pbuf.Basic.Leads.{
  Node, Leads, Distinct, SameOff, Node-id, Leads-append, Leads-frame, Apart-left, Apart-right,
  Apart-sym,
}
use gabs.Pbuf.Basic.Link.{load_node, last_loc}

-- The buffer variable holds a chain of distinct fragments that ends in NULL.
pub record Chain (h : Heap) (v : Var) (xs : List Seg) : Type 0 where
  pub path : Leads h.frags (h.vars v) xs null
  pub distinct : Distinct xs

-- The iterator stands behind `pre`, at the head of `post`, and its `lastp` is the link to there.
pub record At (h : Heap) (v : Var) (it : Ci) (pre post : List Seg) : Type 0 where
  pub front : Leads h.frags (h.vars v) pre it.cur
  pub back : Leads h.frags it.cur post null
  pub last : it.lastp ≡ last_loc v pre
  pub distinct : Distinct (pre ++ post)

-- Only the variable `v` and the fragments of `xs` may have changed.
pub record Keeps (v : Var) (xs : List Seg) (h h' : Heap) : Type 0 where
  pub frags : SameOff xs h.frags h'.frags
  pub vars : (w : Var) → v ≢ w → h'.vars w ≡ h.vars w

pub close :
    {h : Heap} {v : Var} {it : Ci} {pre post : List Seg}
    → At h v it pre post
    → Chain h v (pre ++ post)
close {h} {v} {it} {pre} {post} at = record {
  path = Leads-append h.frags (h.vars v) it.cur null pre post at.front at.back;
  distinct = at.distinct;
}

pub Keeps-Chain :
    {h h' : Heap} {v w : Var} {xs ys : List Seg}
    → Keeps v xs h h'
    → Chain h w ys
    → v ≢ w
    → Apart xs ys
    → Chain h' w ys
Keeps-Chain {h} {h'} {w} {xs} {ys} keeps chain ne apart = record {
  path =
      subst (λ p. Leads h'.frags p ys null) (sym (keeps.vars w ne))
        (Leads-frame xs (h.vars w) null ys keeps.frags (Apart-sym xs ys apart) chain.path);
  distinct = chain.distinct;
}

pub Keeps-At :
    {h h' : Heap} {v w : Var} {it : Ci} {xs pre post : List Seg}
    → Keeps v xs h h'
    → At h w it pre post
    → v ≢ w
    → Apart xs (pre ++ post)
    → At h' w it pre post
Keeps-At {h} {h'} {w} {it} {xs} {pre} {post} keeps at ne apart =
    let off = Apart-sym xs (pre ++ post) apart in
    record {
      front =
          subst (λ p. Leads h'.frags p pre it.cur) (sym (keeps.vars w ne))
            (Leads-frame xs (h.vars w) it.cur pre keeps.frags (Apart-left pre post xs off)
              at.front);
      back = Leads-frame xs it.cur null post keeps.frags (Apart-right pre post xs off) at.back;
      last = at.last;
      distinct = at.distinct;
    }

last_loc_snoc : (v : Var) (pre : List Seg) (x : Seg) → last_loc v (pre ++ x ∷ []) ≡ next_of x.id
last_loc_snoc v [] x = refl
last_loc_snoc v (y ∷ []) x = refl
last_loc_snoc v (y ∷ z ∷ pre) x = last_loc_snoc v (z ∷ pre) x

module _ (ndebug : Bool) where
  pub init_lem :
      {h : Heap} {v : Var} {xs : List Seg}
      → Chain h v xs
      → (it : Ci) × (ci_init ndebug v h ≡ ok it h) × At h v it [] xs
  unfolding ci_init
  init_lem {h} {v} chain = (
    record { cur = h.vars v; lastp = root v },
    refl,
    record { front = refl; back = chain.path; last = refl; distinct = chain.distinct },
  )

  pub okay_nil : {h : Heap} {v : Var} → Chain h v [] → okay ndebug v h ≡ ok false h
  unfolding okay
  okay_nil {h} {v} chain = rw (chain.path)

  pub okay_cons :
      {h : Heap} {v : Var} {x : Seg} {xs : List Seg}
      → Chain h v (x ∷ xs)
      → okay ndebug v h ≡ ok true h
  unfolding okay
  okay_cons {h} {v} chain = rw (==-false_of_ne (h.vars v) null chain.path.1.ne_null)

  pub eoi_nil :
      {h : Heap} {v : Var} {it : Ci} {pre : List Seg} → At h v it pre [] → ci_eoi ndebug it ≡ true
  unfolding ci_eoi
  eoi_nil {it} at = ground (arith, at.back)

  module _ {h : Heap} {v : Var} {it : Ci} {pre : List Seg} {x : Seg} {post : List Seg}
      (at : At h v it pre (x ∷ post)) where
    -- The fragment under the iterator.
    abbrev here : Frag
    here = at.back.0

    abbrev node : Node h.frags it.cur x here
    node = at.back.1

    pub load-here : load it.cur h ≡ ok here h
    load-here = load_node h it.cur node

    pub eoi_cons : ci_eoi ndebug it ≡ false
    unfolding ci_eoi
    eoi_cons = ==-false_of_ne it.cur null node.ne_null

    pub next_lem : (it' : Ci) × (ci_next ndebug it h ≡ ok it' h) × At h v it' (pre ++ x ∷ []) post
    unfolding ci_next
    next_lem = (
      record { cur = here.next; lastp = next_of it.cur },
      rw load-here,
      record {
        front =
            Leads-append h.frags (h.vars v) it.cur here.next pre (x ∷ []) at.front
              (here, node, refl);
        back = at.back.2;
        last = sym (last_loc_snoc v pre x ∙ ap next_of (Node-id node));
        distinct = subst Distinct (sym (append_assoc pre (x ∷ []) post)) at.distinct;
      },
    )

    pub data_lem : ci_data ndebug it h ≡ ok x.addr h
    unfolding ci_data
    data_lem = rw load-here (ap (λ (y : Seg). ok y.addr h) (sym node.is))

    pub size_lem : ci_size ndebug it h ≡ ok x.size h
    unfolding ci_size
    size_lem = rw load-here (ap (λ (y : Seg). ok y.size h) (sym node.is))

    pub headroom_lem : ci_headroom ndebug it h ≡ ok x.head h
    unfolding ci_headroom
    headroom_lem =
        let fits = node.fits in
        let e : sub64 here.payload here.base ≡ here.payload - here.base = omega arith in
        rw load-here (ap (λ n. ok n h) e ∙ ap (λ (y : Seg). ok y.head h) (sym node.is))

    pub tailroom_lem : ci_tailroom ndebug it h ≡ ok x.tail h
    unfolding ci_tailroom
    tailroom_lem =
        let fits = node.fits in
        let e : sub64 (sub64 here.cap here.size) (here.payload - here.base)
            ≡ here.base + here.cap - (here.payload + here.size) =
          omega arith in
        rw (load-here, headroom_lem)
          (ap (λ (y : Seg). ok (sub64 (sub64 here.cap here.size) y.head) h) node.is
            ∙ ap (λ n. ok n h) e
            ∙ ap (λ (y : Seg). ok y.tail h) (sym node.is))
