-- ===== src/Timer/Posix/Scan/Add.antt =====
-- How a client gets a slot: `timer_alloc` and `timer_add` (timer/posix/timer_posix.c).
use gabs.Base.{
  ℕ, ◌⊎◌, zero, suc, ◌≡◌, refl, sym, ap, subst, ◌∙◌, Bool, true, false, Option, none, some, List,
  [], ◌∷◌, if◌then◌else◌, arith, Bool-cases, inl, inr,
}
use gabs.Timer.Posix.Mask.{Word, no_bits, bit_used, bit_alloc, bit_or, mask_set}
use gabs.Timer.Posix.Mask.Alone.{alone, mask_set_strict-alone, mask_set-alone}
use gabs.Timer.Posix.Scan.{Slot, next_index, behind, change, timer_alloc, fill_slot, timer_add}

abbrev pub words : List Slot → List Word
words [] = []
words (t ∷ ts) = t.state ∷ words ts

-- A slot that is not taken has no bit set.
abbrev pub Clean : List Slot → Type 0
Clean [] = Unit {0}
Clean (t ∷ ts) = (t.state.alloc ≡ false → t.state ≡ no_bits) × Clean ts

abbrev pub AllTaken : List Slot → Type 0
AllTaken [] = Unit {0}
AllTaken (t ∷ ts) = (t.state.alloc ≡ true) × AllTaken ts

-- The slots after the first that is not taken is changed; none are when all are taken.
abbrev pub first_free : List Slot → Option ℕ
first_free [] = none
first_free (t ∷ ts) = if t.state.alloc then next_index (first_free ts) else some 0

abbrev change_at : Option ℕ → (Slot → Slot) → List Slot → List Slot
change_at none f ts = ts
change_at (some i) f ts = change ts i f

take_slot : Slot → Slot
take_slot t = record t { state = bit_or t.state bit_alloc }

behind_lem :
    (t : Slot) (r : Option ℕ) (ts : List Slot)
    → behind t (r, change_at r take_slot ts)
      ≡ (next_index r, change_at (next_index r) take_slot (t ∷ ts))
behind_lem t none ts = refl
behind_lem t (some i) ts = refl

timer_alloc_lem :
    (ts : List Slot) → timer_alloc ts ≡ (first_free ts, change_at (first_free ts) take_slot ts)
unfolding timer_alloc take_slot
timer_alloc_lem [] = refl
timer_alloc_lem (t ∷ ts) =
    ground
      (arith, mask_set_strict-alone t.state, timer_alloc_lem ts, behind_lem t (first_free ts) ts)

-- The slot at the index is the first that is not taken.
abbrev pub IsFree : ℕ → List Slot → Type 0
IsFree i [] = ⊥
IsFree zero (t ∷ ts) = t.state.alloc ≡ false
IsFree (suc i) (t ∷ ts) = (t.state.alloc ≡ true) × IsFree i ts

next_index-zero : (r : Option ℕ) → next_index r ≡ some 0 → ⊥
next_index-zero none e = ground arith
next_index-zero (some j) e = ground arith

next_index-suc : (r : Option ℕ) (i : ℕ) → next_index r ≡ some (suc i) → r ≡ some i
next_index-suc none i e = absurd (ground arith)
next_index-suc (some j) i e = ground arith

first_free-IsFree : (ts : List Slot) (i : ℕ) → first_free ts ≡ some i → IsFree i ts
first_free-IsFree [] i e = absurd (ground arith)
first_free-IsFree (t ∷ ts) zero e = elim (Bool-cases t.state.alloc) [
  | inl a ↦ absurd (next_index-zero (first_free ts) (rw a at e))
  | inr a ↦ a
]
first_free-IsFree (t ∷ ts) (suc i) e = elim (Bool-cases t.state.alloc) [
  | inl a ↦ (a, first_free-IsFree ts i (next_index-suc (first_free ts) i (rw a at e)))
  | inr a ↦ absurd (ground arith)
]

next_index-none : (r : Option ℕ) → next_index r ≡ none → r ≡ none
next_index-none none e = refl
next_index-none (some j) e = absurd (ground arith)

first_free-AllTaken : (ts : List Slot) → first_free ts ≡ none → AllTaken ts
first_free-AllTaken [] e = tt
first_free-AllTaken (t ∷ ts) e = elim (Bool-cases t.state.alloc) [
  | inl a ↦ (a, first_free-AllTaken ts (next_index-none (first_free ts) (rw a at e)))
  | inr a ↦ absurd (ground arith)
]

-- Two changes of a slot that was clean are the same when they are on clean slots.
change-change :
    (i : ℕ) (f g h : Slot → Slot) (ts : List Slot)
    → Clean ts
    → IsFree i ts
    → ((t : Slot) → t.state ≡ no_bits → g (f t) ≡ h t)
    → change (change ts i f) i g ≡ change ts i h
change-change i f g h [] clean free same = absurd free
change-change zero f g h (t ∷ ts) (clean, _) free same = ap (λ x. x ∷ ts) (same t (clean free))
change-change (suc i) f g h (t ∷ ts) (_, clean) (_, free) same =
    ap (◌∷◌ t) (change-change i f g h ts clean free same)

-- A free slot that is changed and left without bits.
change-words :
    (i : ℕ) (f : Slot → Slot) (ts : List Slot)
    → Clean ts
    → IsFree i ts
    → ((t : Slot) → (f t).state ≡ no_bits)
    → words (change ts i f) ≡ words ts
change-words i f [] clean free none_set = absurd free
change-words zero f (t ∷ ts) (clean, _) free none_set =
    ap (λ w. w ∷ words ts) (none_set t ∙ sym (clean free))
change-words (suc i) f (t ∷ ts) (_, clean) (_, free) none_set =
    ap (◌∷◌ t.state) (change-words i f ts clean free none_set)

-- A slot when the installation is over.
abbrev pub new_slot : Option ℕ → ℕ → ℕ → Slot → Slot
new_slot cb user_arg fd t = record t {
  cb = cb;
  user_arg = user_arg;
  fd = some fd;
  state = bit_or bit_alloc bit_used;
}

-- NULL is returned when all slots are taken or a call fails, and the state words are as before; or the
-- first slot that was not taken is, and is in use with its data, and the others are as before.
abbrev pub Added : Option ℕ → Bool → Option ℕ → ℕ → List Slot → Option ℕ × List Slot → Type 0
Added create init cb user_arg ts (none, ts') =
    (AllTaken ts ⊎ (create ≡ none) ⊎ (init ≡ false)) × (words ts' ≡ words ts)
Added create init cb user_arg ts (some i, ts') =
    IsFree i ts
    × (init ≡ true)
    × (fd : ℕ) × (create ≡ some fd)
    × (ts' ≡ change ts i (new_slot cb user_arg fd))

fill_slot-Added :
    (create : Option ℕ) (init : Bool) (cb : Option ℕ) (user_arg : ℕ) (ts : List Slot) (r : Option ℕ)
    → Clean ts
    → first_free ts ≡ r
    → Added create init cb user_arg ts
        (fill_slot create init cb user_arg (r, change_at r take_slot ts))
unfolding fill_slot take_slot
fill_slot-Added create init cb user_arg ts none clean e = (inl (first_free-AllTaken ts e), refl)
fill_slot-Added none init cb user_arg ts (some i) clean e =
    let free = first_free-IsFree ts i e in
    let gone : Slot → Slot =
      λ t. record t { cb = cb; user_arg = user_arg; fd = none; state = no_bits } in
    (
      inr (inl refl),
      ap words (change-change i take_slot gone gone ts clean free (λ t clear. refl))
          ∙ change-words i gone ts clean free (λ t. refl),
    )
fill_slot-Added (some fd) false cb user_arg ts (some i) clean e =
    let free = first_free-IsFree ts i e in
    let gone : Slot → Slot =
      λ t. record t { cb = cb; user_arg = user_arg; fd = some fd; state = no_bits } in
    (
      inr (inr refl),
      ap words (change-change i take_slot gone gone ts clean free (λ t clear. refl))
          ∙ change-words i gone ts clean free (λ t. refl),
    )
fill_slot-Added (some fd) true cb user_arg ts (some i) clean e =
    let free = first_free-IsFree ts i e in
    let used : Slot → Slot = λ t. record t {
      cb = cb;
      user_arg = user_arg;
      fd = some fd;
      state = (alone (mask_set bit_used) t.state).0;
    } in
    (
      free,
      refl,
      fd,
      refl,
      change-change i take_slot used (new_slot cb user_arg fd) ts clean free
          λ t clear. ground (arith, mask_set-alone bit_used (bit_or t.state bit_alloc)),
    )

-- `timer_add` returns NULL when every slot is taken, when no descriptor is made, or when the lock
-- cannot be initialised, and then the state word of every slot is as it was; else the first slot that
-- was not taken, which is in use with the callback, its argument and the descriptor, and all other
-- slots are as they were. A slot that is not taken has no bit set.
pub timer_add-Added :
    (create : Option ℕ) (init : Bool) (cb : Option ℕ) (user_arg : ℕ) (ts : List Slot)
    → Clean ts
    → Added create init cb user_arg ts (timer_add create init cb user_arg ts)
unfolding timer_add
timer_add-Added create init cb user_arg ts clean =
    subst (λ r. Added create init cb user_arg ts (fill_slot create init cb user_arg r))
      (sym (timer_alloc_lem ts))
      (fill_slot-Added create init cb user_arg ts (first_free ts) clean refl)
