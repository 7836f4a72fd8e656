-- ===== src/Timer/Zephyr/Good.antt =====
-- When the pool of timer/zephyr/timer_zephyr.c and the lists of its contexts are in order, and that
-- taking a timer and giving it back keeps them so.
use gabs.Base.{
  ℕ, ◌<◌, ◌≡◌, ◌≢◌, ◌⊎◌, inl, inr, refl, sym, ap, subst, ◌∙◌, true, false, Option, none, List, [],
  ◌∷◌, ◌++◌, ◌==◌, ==-refl, ==-false_of_ne, arith, Bool-cases,
}
use gabs.Timer.Kernel.{Busy, View, In, Once, without, set_at}
use gabs.Timer.Zephyr.{Info}

pub In-append_left : (j : ℕ) (xs ys : List ℕ) → In j xs → In j (xs ++ ys)
In-append_left j [] ys within = elim within [ ]
In-append_left j (x ∷ xs) ys (inl e) = inl e
In-append_left j (x ∷ xs) ys (inr within) = inr (In-append_left j xs ys within)

pub In-append_right : (j : ℕ) (xs ys : List ℕ) → In j ys → In j (xs ++ ys)
In-append_right j [] ys within = within
In-append_right j (x ∷ xs) ys within = inr (In-append_right j xs ys within)

pub In-append : (j : ℕ) (xs ys : List ℕ) → In j (xs ++ ys) → In j xs ⊎ In j ys
In-append j [] ys within = inr within
In-append j (x ∷ xs) ys (inl e) = inl (inl e)
In-append j (x ∷ xs) ys (inr within) = elim (In-append j xs ys within) [
  | inl a ↦ inl (inr a)
  | inr b ↦ inr b
]

In-keep :
    (i j x : ℕ) (xs : List ℕ)
    → (i == x) ≡ false
    → (In j (without i xs) → In j xs × (j ≢ i))
    → In j (x ∷ without i xs)
    → In j (x ∷ xs) × (j ≢ i)
In-keep i j x xs e rest (inl same) = (inl same, ground arith)
In-keep i j x xs e rest (inr within) = let (a, ne) = rest within in (inr a, ne)

-- `without` takes out just that element.
pub In-without : (i j : ℕ) (xs : List ℕ) → In j (without i xs) → In j xs × (j ≢ i)
In-without i j [] within = elim within [ ]
In-without i j (x ∷ xs) within = elim (Bool-cases (i == x)) [
  | inl e ↦ let (a, ne) = In-without i j xs (rw e at within) in (inr a, ne)
  | inr e ↦ In-keep i j x xs e (In-without i j xs) (rw e at within)
]

pub without-In : (i j : ℕ) (xs : List ℕ) → In j xs → j ≢ i → In j (without i xs)
without-In i j [] within ne = elim within [ ]
without-In i j (x ∷ xs) within ne = elim (Bool-cases (i == x)) [
  | inl e ↦
      rw e (elim within [ inl same ↦ absurd (ground arith) | inr rest ↦ without-In i j xs rest ne ])
  | inr e ↦ rw e (elim within [ inl same ↦ inl same | inr rest ↦ inr (without-In i j xs rest ne) ])
]

pub without-Once : (i : ℕ) (xs : List ℕ) → Once xs → Once (without i xs)
without-Once i [] once = tt
without-Once i (x ∷ xs) (out, once) = elim (Bool-cases (i == x)) [
  | inl e ↦ rw e (without-Once i xs once)
  | inr e ↦ rw e (λ within. out (In-without i x xs within).0, without-Once i xs once)
]

pub without-none : (i : ℕ) (xs : List ℕ) → (In i xs → ⊥) → without i xs ≡ xs
without-none i [] out = refl
without-none i (x ∷ xs) out =
    rw (==-false_of_ne i x (λ e. out (inl e)))
      (ap (◌∷◌ x) (without-none i xs (λ within. out (inr within))))

pub without-snoc : (i : ℕ) (xs : List ℕ) → (In i xs → ⊥) → without i (xs ++ i ∷ []) ≡ xs
without-snoc i [] out = rw (==-refl i) refl
without-snoc i (x ∷ xs) out =
    rw (==-false_of_ne i x (λ e. out (inl e)))
      (ap (◌∷◌ x) (without-snoc i xs (λ within. out (inr within))))

Once-snoc : (i : ℕ) (xs : List ℕ) → Once xs → (In i xs → ⊥) → Once (xs ++ i ∷ [])
Once-snoc i [] once out = (λ within. elim within [ ], tt)
Once-snoc i (x ∷ xs) (alone, once) out = (
  λ within. elim (In-append x xs (i ∷ []) within) [
    | inl a ↦ alone a
    | inr b ↦ elim b [ inl e ↦ out (inl (sym e)) | inr never ↦ never ]
  ],
  Once-snoc i xs once (λ within. out (inr within)),
)

-- The timers of each list are taken and belong to the list's context, each is there once, the taken
-- timers are in the list of their context, and `firing` of a thread is the timer whose handler it is in.
pub record Good (max : ℕ) (pool : ℕ → Info) (firing : ℕ → Option ℕ) (v : View) : Type 0 where
  pub owned : (c i : ℕ) → In i (v.members c) → (v.taken i ≡ true) × (i < max) × ((pool i).ctx ≡ c)
  pub linked : (i : ℕ) → v.taken i ≡ true → In i (v.members (pool i).ctx)
  pub once : (c : ℕ) → Once (v.members c)
  pub handlers : (t : ℕ) → firing t ≡ v.handler t

-- A timer is taken for a context, and a timer is given back.
abbrev pub with_timer : View → ℕ → ℕ → View
with_timer v c i = record v {
  taken = set_at v.taken i true;
  members = set_at v.members c (v.members c ++ i ∷ []);
}

abbrev pub without_timer : View → ℕ → Busy → View
without_timer v i b = record v {
  taken = set_at v.taken i false;
  members = λ d. without i (v.members d);
  busy = set_at v.busy i b;
  due = set_at v.due i none;
}

pub set_at-same {ℓ} : {A : Type ℓ} (f : ℕ → A) (i : ℕ) (a : A) → set_at f i a i ≡ a
set_at-same f i a = rw (==-refl i) refl

pub set_at-other {ℓ} : {A : Type ℓ} (f : ℕ → A) (i j : ℕ) (a : A) → j ≢ i → set_at f i a j ≡ f j
set_at-other f i j a ne = rw (==-false_of_ne j i ne) refl

module _ {max : ℕ} {pool : ℕ → Info} {firing : ℕ → Option ℕ} {v : View}
    (good : Good max pool firing v) where
  pub free-NotIn : (i c : ℕ) → v.taken i ≡ false → In i (v.members c) → ⊥
  free-NotIn i c free within = cc (free, (good.owned c i within).0)

  pub without_timer-Good : (i : ℕ) (b : Busy) → Good max pool firing (without_timer v i b)
  without_timer-Good i b = record {
    owned = λ c j within.
        let (inside, ne) = In-without i j (v.members c) within in
        let (taken, small, ctx) = good.owned c j inside in
        (set_at-other v.taken i j false ne ∙ taken, small, ctx);
    linked = λ j taken. elim (Bool-cases (j == i)) [
      | inl e ↦ absurd (ground arith)
      | inr e ↦
          without-In i j (v.members (pool j).ctx) (good.linked j (rw e at taken)) (ground arith)
    ];
    once = λ c. without-Once i (v.members c) (good.once c);
    handlers = good.handlers;
  }

  -- A free timer is taken for a context, and filled in.
  pub with_timer-Good :
      (i c : ℕ) (info : Info)
      → i < max
      → v.taken i ≡ false
      → info.ctx ≡ c
      → Good max (set_at pool i info) firing (with_timer v c i)
  with_timer-Good i c info small free at = record {
    owned = λ d j within. elim (Bool-cases (d == c)) [
      | inl e ↦ elim (In-append j (v.members c) (i ∷ []) (rw e at within)) [
        | inl before ↦
            let ne : j ≢ i =
              λ same. free-NotIn i c free (subst (λ k. In k (v.members c)) same before) in
            let (taken, less, ctx) = good.owned c j before in
            (
              set_at-other v.taken i j true ne ∙ taken,
              less,
              rw (==-false_of_ne j i ne) (ctx ∙ sym (eq_of d c e)),
            )
        | inr (inl same) ↦ rw (same, ==-refl i) (refl, small, at ∙ sym (eq_of d c e))
        | inr (inr never) ↦ absurd never
      ]
      | inr e ↦
          let before = rw e at within in
          let ne : j ≢ i =
            λ same. free-NotIn i d free (subst (λ k. In k (v.members d)) same before) in
          let (taken, less, ctx) = good.owned d j before in
          (set_at-other v.taken i j true ne ∙ taken, less, rw (==-false_of_ne j i ne) ctx)
    ];
    linked = λ j taken. elim (Bool-cases (j == i)) [
      | inl e ↦ rw (e, at, ==-refl c) (In-append_right j (v.members c) (i ∷ []) (inl (eq_of j i e)))
      | inr e ↦
          let before = good.linked j (rw e at taken) in
          rw e (elim (Bool-cases ((pool j).ctx == c)) [
            | inl f ↦ rw f (
                In-append_left j (v.members c) (i ∷ [])
                  (subst (λ d. In j (v.members d)) (eq_of (pool j).ctx c f) before))
            | inr f ↦ rw f before
          ])
    ];
    once = λ d. elim (Bool-cases (d == c)) [
      | inl e ↦ rw e (Once-snoc i (v.members c) (good.once c) (free-NotIn i c free))
      | inr e ↦ rw e (good.once d)
    ];
    handlers = good.handlers;
  }
    where
      eq_of : (a b : ℕ) → (a == b) ≡ true → a ≡ b
      eq_of a b e = ground arith
