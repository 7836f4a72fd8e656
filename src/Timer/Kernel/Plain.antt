-- ===== src/Timer/Kernel/Plain.antt =====
-- A kernel that is its own view and behaves as documented.
use gabs.Base.{
  ℕ, zero, suc, ◌≡◌, ◌<◌, inl, inr, refl, sym, ap, subst, ◌∙◌, Bool, true, false, Option, none,
  some, List, [], ◌∷◌, ◌++◌, ◌==◌, ==-refl, ==-false_of_ne, if◌then◌else◌, arith, Bool-cases,
}
use gabs.Timer.Kernel.{Calls, View, Documented, In, Once, without, set_at, head?, idle, canceled}

-- A bit that is not set, of those below a bound.
pub find_free : ℕ → (ℕ → Bool) → Option ℕ
find_free zero taken = none
find_free (suc n) taken = if taken n then find_free n taken else some n

pub find_free-some :
    (n : ℕ) (taken : ℕ → Bool) (i : ℕ) → find_free n taken ≡ some i → (i < n) × (taken i ≡ false)
unfolding find_free
find_free-some zero taken i e = absurd (ground arith)
find_free-some (suc n) taken i e = elim (Bool-cases (taken n)) [
  | inl t ↦ let (less, free) = find_free-some n taken i (rw t at e) in (omega arith, free)
  | inr f ↦ let same : n ≡ i = ground arith in (omega arith, ap taken (sym same) ∙ f)
]

pub find_free-none :
    (n : ℕ) (taken : ℕ → Bool) → find_free n taken ≡ none → (i : ℕ) → i < n → taken i ≡ true
unfolding find_free
find_free-none zero taken e i less = absurd (omega arith)
find_free-none (suc n) taken e i less = elim (Bool-cases (taken n)) [
  | inl t ↦ elim (Bool-cases (i == n)) [
    | inl same ↦ ap taken (ground arith) ∙ t
    | inr other ↦ find_free-none n taken (rw t at e) i (ground arith)
  ]
  | inr f ↦ absurd (ground arith)
]

pub take_found : Option ℕ → View → Option ℕ × View
take_found none v = (none, v)
take_found (some i) v = (some i, record v { taken = set_at v.taken i true })

pub next_in : ℕ → List ℕ → Option ℕ
next_in i [] = none
next_in i (x ∷ xs) = if i == x then head? xs else next_in i xs

In-middle : (i : ℕ) (pre post : List ℕ) → In i (pre ++ i ∷ post)
In-middle i [] post = inl refl
In-middle i (x ∷ pre) post = inr (In-middle i pre post)

pub next_in_lem :
    (i : ℕ) (pre post : List ℕ) → Once (pre ++ i ∷ post) → next_in i (pre ++ i ∷ post) ≡ head? post
unfolding next_in
next_in_lem i [] post once = rw (==-refl i)
next_in_lem i (x ∷ pre) post (out, once) =
    rw
      (==-false_of_ne i x (λ e. out (subst (λ y. In y (pre ++ i ∷ post)) e (In-middle i pre post))))
      (next_in_lem i pre post once)

unfoldable pub plain : ℕ → Calls View
unfolding find_free take_found next_in
plain max = record {
  bitarray_alloc = λ v. take_found (find_free max v.taken) v;
  bitarray_free = λ i v. (v.taken i, record v { taken = set_at v.taken i false });
  dlist_init = λ c v. record v { members = set_at v.members c [] };
  dlist_append = λ c i v. record v { members = set_at v.members c (v.members c ++ i ∷ []) };
  dlist_remove = λ i v. record v { members = λ d. without i (v.members d) };
  dlist_peek_head = λ c v. head? (v.members c);
  dlist_peek_next = λ c i v. next_in i (v.members c);
  mutex_init = λ c v. v;
  mutex_lock = λ c v. v;
  mutex_unlock = λ c v. v;
  work_init = λ i v. record v { busy = set_at v.busy i idle; due = set_at v.due i none };
  work_busy_get = λ i v. v.busy i;
  work_reschedule = λ i d v. (
    true,
    record v {
      busy = set_at v.busy i (record (v.busy i) { delayed = true });
      due = set_at v.due i (some d);
    },
  );
  work_cancel =
      λ i v. record v { busy = set_at v.busy i (canceled (v.busy i)); due = set_at v.due i none };
  work_cancel_sync = λ i v. record v { busy = set_at v.busy i idle; due = set_at v.due i none };
}

pub take_found-some :
    (r : Option ℕ) (v : View) (i : ℕ)
    → (take_found r v).0 ≡ some i
    → (r ≡ some i) × ((take_found r v).1 ≡ record v { taken = set_at v.taken i true })
unfolding take_found
take_found-some none v i e = absurd (ground arith)
take_found-some (some j) v i e =
    let same : j ≡ i = ground arith in
    (e, ap (λ k. record v { taken = set_at v.taken k true }) same)

pub take_found-none :
    (r : Option ℕ) (v : View) → (take_found r v).0 ≡ none → (r ≡ none) × ((take_found r v).1 ≡ v)
unfolding take_found
take_found-none none v e = (refl, refl)
take_found-none (some j) v e = absurd (ground arith)

unfoldable pub plain-Documented : (max : ℕ) → Documented (plain max) max
unfolding plain
plain-Documented max = record {
  view = λ v. v;
  alloc_some = λ v i e.
      let (found, after) = take_found-some (find_free max v.taken) v i e in
      let (less, free) = find_free-some max v.taken i found in (less, free, after);
  alloc_none = λ v e.
      let (found, after) = take_found-none (find_free max v.taken) v e in
      (find_free-none max v.taken found, after);
  free_lem = λ v i less taken. (taken, refl);
  init_lem = λ v c. refl;
  append_lem = λ v c i out. refl;
  remove_lem = λ v c i within. refl;
  head_lem = λ v c. refl;
  next_lem = λ v c i pre post e once. ap (next_in i) e ∙ next_in_lem i pre post (subst Once e once);
  mutex_init_lem = λ v c. refl;
  lock_lem = λ v c. refl;
  unlock_lem = λ v c. refl;
  busy_lem = λ v i. refl;
  reschedule_lem = λ v i d waits. (refl, refl);
  cancel_lem = λ v i. refl;
  cancel_sync_lem = λ v i nobody. refl;
}
