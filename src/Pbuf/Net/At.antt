-- ===== src/Pbuf/Net/At.antt =====
-- Iterators of the implementation for Zephyr: what each reader returns (pbuf/zephyr/net_buf.c).
use gabs.Base.{
  ◌≡◌, ◌≢◌, refl, sym, ap, subst, ◌∙◌, Bool, true, false, List, [], ◌∷◌, ◌++◌, append_assoc,
  ==-false_of_ne, arith, ℕ,
}
use gabs.Base.Run.{ok}
use gabs.Pbuf.Seg.{Seg, Apart}
use gabs.Pbuf.Iface.{Var}
use gabs.Pbuf.Basic.{Ptr, null, Frag, Heap}
use gabs.Pbuf.Basic.Leads.{
  Node, Leads, Distinct, Node-id, Leads-append, Leads-frame, Apart-left, Apart-right, Apart-sym,
  last_id,
}
use gabs.Pbuf.Basic.Link.{load_node}
use gabs.Pbuf.Basic.At.{Chain, Keeps}
use gabs.Pbuf.NetBuf.{Calls, Documented, Lives}
use gabs.Pbuf.Net.{Ci, okay, ci_init, ci_next, ci_eoi, ci_data, ci_size, ci_headroom, ci_tailroom}
use gabs.Alloc.{Tables}

-- What `prev` is behind the segments `pre`.
abbrev pub prev_id : List Seg → Ptr
prev_id [] = null
prev_id (x ∷ xs) = last_id x xs

-- The iterator stands behind `pre`, at the head of `post`.
pub record At (h : Heap) (v : Var) (it : Ci) (pre post : List Seg) : Type 0 where
  pub front : Leads h.frags (h.vars v) pre it.cur
  pub back : Leads h.frags it.cur post null
  pub head : it.head ≡ v
  pub prev : it.prev ≡ prev_id pre
  pub distinct : Distinct (pre ++ post)

pub close :
    {h : Heap} {v : Var} {it : Ci} {pre post : List Seg}
    → At h v it pre post
    → Chain h v (pre ++ post)
close {h} {v} {it} {pre} {post} at = record {
  path = Leads-append h.frags (h.vars v) it.cur null pre post at.front at.back;
  distinct = at.distinct;
}

pub Keeps-At :
    {h h' : Heap} {v w : Var} {it : Ci} {xs pre post : List Seg}
    → Keeps v xs h h'
    → At h w it pre post
    → v ≢ w
    → Apart xs (pre ++ post)
    → At h' w it pre post
Keeps-At {h} {h'} {w} {it} {xs} {pre} {post} keeps at ne apart =
    let off = Apart-sym xs (pre ++ post) apart in
    record {
      front =
          subst (λ p. Leads h'.frags p pre it.cur) (sym (keeps.vars w ne))
            (Leads-frame xs (h.vars w) it.cur pre keeps.frags (Apart-left pre post xs off)
              at.front);
      back = Leads-frame xs it.cur null post keeps.frags (Apart-right pre post xs off) at.back;
      head = at.head;
      prev = at.prev;
      distinct = at.distinct;
    }

prev_id_snoc : (pre : List Seg) (x : Seg) → prev_id (pre ++ x ∷ []) ≡ x.id
prev_id_snoc [] x = refl
prev_id_snoc (y ∷ []) x = refl
prev_id_snoc (y ∷ z ∷ pre) x = prev_id_snoc (z ∷ pre) x

module _ (ndebug : Bool) (calls : Calls) (tables : Tables Heap) (api : ℕ) where
  pub init_lem :
      {h : Heap} {v : Var} {xs : List Seg}
      → Chain h v xs
      → (it : Ci) × (ci_init ndebug calls tables api v h ≡ ok it h) × At h v it [] xs
  unfolding ci_init
  init_lem {h} {v} chain = (
    record { cur = h.vars v; prev = null; head = v },
    refl,
    record { front = refl; back = chain.path; head = refl; prev = refl; distinct = chain.distinct },
  )

  pub okay_nil : {h : Heap} {v : Var} → Chain h v [] → okay ndebug calls tables api v h ≡ ok false h
  unfolding okay
  okay_nil {h} {v} chain = rw (chain.path)

  pub okay_cons :
      {h : Heap} {v : Var} {x : Seg} {xs : List Seg}
      → Chain h v (x ∷ xs)
      → okay ndebug calls tables api v h ≡ ok true h
  unfolding okay
  okay_cons {h} {v} chain = rw (==-false_of_ne (h.vars v) null chain.path.1.ne_null)

  pub eoi_nil :
      {h : Heap} {v : Var} {it : Ci} {pre : List Seg}
      → At h v it pre []
      → ci_eoi ndebug calls tables api it ≡ true
  unfolding ci_eoi
  eoi_nil {it} at = ground (arith, at.back)

  module _ {h : Heap} {v : Var} {it : Ci} {pre : List Seg} {x : Seg} {post : List Seg}
      (at : At h v it pre (x ∷ post)) where
    -- The buffer under the iterator.
    abbrev pub here : Frag
    here = at.back.0

    abbrev pub node : Node h.frags it.cur x here
    node = at.back.1

    pub here-Lives : Lives h it.cur here
    here-Lives = record { ne_null = node.ne_null; holds = node.holds; fits = node.fits }

    pub eoi_cons : ci_eoi ndebug calls tables api it ≡ false
    unfolding ci_eoi
    eoi_cons = ==-false_of_ne it.cur null node.ne_null

    pub next_lem :
        (it' : Ci) × (ci_next ndebug calls tables api it h ≡ ok it' h)
        × At h v it' (pre ++ x ∷ []) post
    unfolding ci_next
    next_lem = (
      record { cur = here.next; prev = it.cur; head = it.head },
      rw (load_node h it.cur node),
      record {
        front =
            Leads-append h.frags (h.vars v) it.cur here.next pre (x ∷ []) at.front
              (here, node, refl);
        back = at.back.2;
        head = at.head;
        prev = sym (prev_id_snoc pre x ∙ Node-id node);
        distinct = subst Distinct (sym (append_assoc pre (x ∷ []) post)) at.distinct;
      },
    )

    pub data_lem : ci_data ndebug calls tables api it h ≡ ok x.addr h
    unfolding ci_data
    data_lem = rw (load_node h it.cur node) (ap (λ (y : Seg). ok y.addr h) (sym node.is))

    pub size_lem : ci_size ndebug calls tables api it h ≡ ok x.size h
    unfolding ci_size
    size_lem = rw (load_node h it.cur node) (ap (λ (y : Seg). ok y.size h) (sym node.is))

    module _ (documented : Documented calls) where
      pub headroom_lem : ci_headroom ndebug calls tables api it h ≡ ok x.head h
      unfolding ci_headroom
      headroom_lem =
          documented.headroom_lem h it.cur here here-Lives
          ∙ ap (λ (y : Seg). ok y.head h) (sym node.is)

      pub tailroom_lem : ci_tailroom ndebug calls tables api it h ≡ ok x.tail h
      unfolding ci_tailroom
      tailroom_lem =
          documented.tailroom_lem h it.cur here here-Lives
          ∙ ap (λ (y : Seg). ok y.tail h) (sym node.is)
