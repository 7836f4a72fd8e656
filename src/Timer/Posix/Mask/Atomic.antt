-- ===== src/Timer/Posix/Mask/Atomic.antt =====
-- The loops of timer/posix/atomic_mask.h act in one step on the word that they meet.
use gabs.Base.{
  ◌≡◌, ◌≢◌, refl, ap, ap₂, sym, ◌∙◌, ◌⊎◌, inl, inr, Bool, true, false, not, ◌&&◌, List, [], ◌∷◌,
  ◌++◌, Bool-cases, Memᴰ, arith,
}
use gabs.Timer.Posix.Mask.{
  Word, no_bits, bit_or, bit_and, bit_clear, eqb, same_word, Attempt, Outcome, exchanged, retry,
  mask_set, mask_set_strict, mask_clear, mask_cas,
}
use gabs.Timer.Posix.Mask.Outcome.{wrote, refused, unfinished}

eqb-eq : (p q : Bool) → eqb p q ≡ true → p ≡ q
eqb-eq true true e = refl
eqb-eq true false e = sym e
eqb-eq false true e = e
eqb-eq false false e = refl

eqb_refl : (p : Bool) → eqb p p ≡ true
eqb_refl true = refl
eqb_refl false = refl

and-split : (p q : Bool) → (p && q) ≡ true → (p ≡ true) × (q ≡ true)
and-split p q e = (ground arith, ground arith)

pub same_word-eq : (a b : Word) → same_word a b ≡ true → a ≡ b
same_word-eq a b e =
    let (e1, r1) = and-split (eqb a.used b.used) _ e in
    let (e2, r2) = and-split (eqb a.zombie b.zombie) _ r1 in
    let (e3, r3) = and-split (eqb a.active b.active) _ r2 in
    let (e4, e5) = and-split (eqb a.sched b.sched) _ r3 in
    let p1 = eqb-eq a.used b.used e1 in
    let p2 = eqb-eq a.zombie b.zombie e2 in
    let p3 = eqb-eq a.active b.active e3 in
    let p4 = eqb-eq a.sched b.sched e4 in
    let p5 = eqb-eq a.alloc b.alloc e5 in
    λ i. record { used = p1 i; zombie = p2 i; active = p3 i; sched = p4 i; alloc = p5 i }

pub same_word_refl : (a : Word) → same_word a a ≡ true
same_word_refl a =
    rw (eqb_refl a.used, eqb_refl a.zombie, eqb_refl a.active, eqb_refl a.sched, eqb_refl a.alloc)
      refl

-- What holds of the word met by one of the attempts and the word put in its place, or of the word at
-- which the loop gave up.
abbrev pub Effect : (Word → Word → Type 0) → (Word → Type 0) → List Attempt → Outcome → Type 0
Effect P Q attempts (wrote old new) = (a : Attempt) × Memᴰ a attempts × (a.seen ≡ old) × P old new
Effect P Q attempts (refused seen) = (a : Attempt) × Memᴰ a attempts × (a.seen ≡ seen) × Q seen
Effect P Q attempts unfinished = Unit

Effect-tail :
    (P : Word → Word → Type 0) (Q : Word → Type 0) (b : Attempt) (attempts : List Attempt)
    (r : Outcome)
    → Effect P Q attempts r
    → Effect P Q (b ∷ attempts) r
Effect-tail P Q b attempts (wrote old new) (a, m, at, p) = (a, Memᴰ.tail m, at, p)
Effect-tail P Q b attempts (refused seen) (a, m, at, q) = (a, Memᴰ.tail m, at, q)
Effect-tail P Q b attempts unfinished e = tt

exchanged-eq : (a : Attempt) (expected : Word) → exchanged a expected ≡ true → a.seen ≡ expected
exchanged-eq a expected e = same_word-eq a.seen expected (and-split (not a.spurious) _ e).1

-- The loop has ended.
abbrev pub Finished : Outcome → Type 0
Finished (wrote old new) = Unit
Finished (refused seen) = Unit
Finished unfinished = ⊥

module _ (stop : Word → Bool) (next : Word → Word) where
  retry-Effect :
      (P : Word → Word → Type 0) (Q : Word → Type 0) (attempts : List Attempt)
      (expected masked : Word)
      → P expected masked
      → ((v : Word) → stop v ≡ false → P v (next v))
      → ((v : Word) → stop v ≡ true → Q v)
      → Effect P Q attempts (retry stop next attempts expected masked)
  unfolding retry
  retry-Effect P Q [] expected masked p step give_up = tt
  retry-Effect P Q (a ∷ rest) expected masked p step give_up =
      elim (Bool-cases (exchanged a expected)) [
        | inl done ↦ rw done (a, Memᴰ.head refl, exchanged-eq a expected done, p)
        | inr again ↦ elim (Bool-cases (stop a.seen)) [
          | inl bad ↦ rw (again, bad) (a, Memᴰ.head refl, refl, give_up a.seen bad)
          | inr good ↦
              rw (again, good)
                (Effect-tail P Q a rest (retry stop next rest a.seen (next a.seen))
                  (retry-Effect P Q rest a.seen (next a.seen) (step a.seen good) step give_up))
        ]
      ]

  -- Two attempts in a row meet the same word, and the second does not fail spuriously.
  retry-Finished :
      (before : List Attempt) (a b : Attempt) (rest : List Attempt) (expected masked : Word)
      → b.seen ≡ a.seen
      → b.spurious ≡ false
      → Finished (retry stop next (before ++ a ∷ b ∷ rest) expected masked)
  unfolding retry
  retry-Finished [] a b rest expected masked same fair =
      let hit : exchanged b a.seen ≡ true =
        ap₂ ◌&&◌ (ap not fair) (ap (λ v. same_word v a.seen) same ∙ same_word_refl a.seen) in
      elim (Bool-cases (exchanged a expected)) [
        | inl done ↦ rw done tt
        | inr again ↦ elim (Bool-cases (stop a.seen)) [
          | inl bad ↦ rw (again, bad) tt
          | inr good ↦ rw (again, good, hit) tt
        ]
      ]
  retry-Finished (c ∷ before) a b rest expected masked same fair =
      elim (Bool-cases (exchanged c expected)) [
        | inl done ↦ rw done tt
        | inr again ↦ elim (Bool-cases (stop c.seen)) [
          | inl bad ↦ rw (again, bad) tt
          | inr good ↦
              rw (again, good) (retry-Finished before a b rest c.seen (next c.seen) same fair)
        ]
      ]

not-same_word : (a b : Word) → not (same_word a b) ≡ true → a ≢ b
not-same_word a b e is =
    let k : same_word a b ≡ true = ap (same_word a) (sym is) ∙ same_word_refl a in ground arith

-- `mask_set` sets the bits of the mask in the word that it meets in one of its attempts, in one step,
-- and leaves the other bits as that word has them; it never gives up.
pub mask_set-Effect :
    (mask : Word) (attempts : List Attempt)
    → Effect (λ old new. new ≡ bit_or old mask) (λ seen. ⊥) attempts (mask_set mask attempts)
unfolding mask_set
mask_set-Effect mask attempts =
    retry-Effect (λ _. false) (λ v. bit_or v mask) (λ old new. new ≡ bit_or old mask) (λ seen. ⊥)
      attempts no_bits mask refl (λ v good. refl) λ v bad. ground arith

-- `mask_clear` clears the bits of the mask in the word that it meets in one of its attempts, in one
-- step, and leaves the other bits as that word has them; it never gives up.
pub mask_clear-Effect :
    (mask : Word) (attempts : List Attempt)
    → Effect (λ old new. new ≡ bit_clear old mask) (λ seen. ⊥) attempts (mask_clear mask attempts)
unfolding mask_clear
mask_clear-Effect mask attempts =
    retry-Effect (λ _. false) (λ v. bit_clear v mask) (λ old new. new ≡ bit_clear old mask)
      (λ seen. ⊥) attempts no_bits no_bits refl (λ v good. refl) λ v bad. ground arith

-- `mask_set_strict` returns true when it has set the bits of the mask, all of them clear before, in
-- the word that it meets in one of its attempts, in one step; and false when it met a word with one
-- of them set, which it leaves alone.
pub mask_set_strict-Effect :
    (mask : Word) (attempts : List Attempt)
    → Effect
        (λ old new. (bit_and old mask ≡ no_bits) × (new ≡ bit_or old mask))
        (λ seen. bit_and seen mask ≢ no_bits)
        attempts
        (mask_set_strict mask attempts)
unfolding mask_set_strict
mask_set_strict-Effect mask attempts =
    retry-Effect (λ v. not (same_word (bit_and v mask) no_bits)) (λ v. bit_or v mask)
      (λ old new. (bit_and old mask ≡ no_bits) × (new ≡ bit_or old mask))
      (λ seen. bit_and seen mask ≢ no_bits) attempts no_bits mask (refl, refl)
      (λ v good. (same_word-eq (bit_and v mask) no_bits (ground arith), refl))
      λ v bad. not-same_word (bit_and v mask) no_bits bad

and_self : (p : Bool) → (p && p) ≡ p
and_self true = refl
and_self false = refl

bit_and_self : (a : Word) → bit_and a a ≡ a
bit_and_self a = λ i. record {
  used = and_self a.used i;
  zombie = and_self a.zombie i;
  active = and_self a.active i;
  sched = and_self a.sched i;
  alloc = and_self a.alloc i;
}

-- `mask_cas` returns true when all bits of `cmp` were set in the word that it met in one of its
-- attempts, and it has set those of `set` there in one step, or, when no other bit was set, has
-- replaced the word by `set`; and false when it met a word without one of the bits of `cmp`, which
-- it leaves alone.
pub mask_cas-Effect :
    (cmp set : Word) (attempts : List Attempt)
    → Effect
        (λ old new.
          (bit_and old cmp ≡ cmp) × ((new ≡ bit_or old set) ⊎ ((old ≡ cmp) × (new ≡ set))))
        (λ seen. bit_and seen cmp ≢ cmp)
        attempts
        (mask_cas cmp set attempts)
unfolding mask_cas
mask_cas-Effect cmp set attempts =
    retry-Effect (λ v. not (same_word (bit_and v cmp) cmp)) (λ v. bit_or v set)
      (λ old new. (bit_and old cmp ≡ cmp) × ((new ≡ bit_or old set) ⊎ ((old ≡ cmp) × (new ≡ set))))
      (λ seen. bit_and seen cmp ≢ cmp) attempts cmp set (bit_and_self cmp, inr (refl, refl))
      (λ v good. (same_word-eq (bit_and v cmp) cmp (ground arith), inl refl))
      λ v bad. not-same_word (bit_and v cmp) cmp bad

-- On a word that is just `cmp`, what `mask_cas` leaves depends on whether its first exchange fails
-- spuriously: without that the bits of `cmp` are lost, and with it they are kept.
pub mask_cas-differs :
    (cmp set : Word)
    → (mask_cas cmp set (record { seen = cmp; spurious = false } ∷ []) ≡ wrote cmp set)
      × (mask_cas cmp set
            (record { seen = cmp; spurious = true } ∷ record { seen = cmp; spurious = false } ∷ [])
          ≡ wrote cmp (bit_or cmp set))
unfolding mask_cas retry
mask_cas-differs cmp set = (
  rw (same_word_refl cmp) refl,
  rw
      (
        and_self cmp.used,
        and_self cmp.zombie,
        and_self cmp.active,
        and_self cmp.sched,
        and_self cmp.alloc,
        same_word_refl cmp,
      )
      refl,
)

-- Each of the four loops ends when, after any attempts, two in a row meet the same word and the
-- second does not fail spuriously.
pub masks-Finished :
    (mask cmp set : Word) (before : List Attempt) (a b : Attempt) (rest : List Attempt)
    → b.seen ≡ a.seen
    → b.spurious ≡ false
    → Finished (mask_set mask (before ++ a ∷ b ∷ rest))
      × (Finished (mask_clear mask (before ++ a ∷ b ∷ rest))
          × (Finished (mask_set_strict mask (before ++ a ∷ b ∷ rest))
              × Finished (mask_cas cmp set (before ++ a ∷ b ∷ rest))))
unfolding mask_set mask_clear mask_set_strict mask_cas
masks-Finished mask cmp set before a b rest same fair = (
  retry-Finished (λ _. false) (λ v. bit_or v mask) before a b rest no_bits mask same fair,
  (
    retry-Finished (λ _. false) (λ v. bit_clear v mask) before a b rest no_bits no_bits same fair,
    (
      retry-Finished (λ v. not (same_word (bit_and v mask) no_bits)) (λ v. bit_or v mask) before a b
          rest no_bits mask same fair,
      retry-Finished (λ v. not (same_word (bit_and v cmp) cmp)) (λ v. bit_or v set) before a b rest
          cmp set same fair,
    ),
  ),
)
