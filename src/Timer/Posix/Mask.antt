-- ===== src/Timer/Posix/Mask.antt =====
-- The state word of a POSIX timer and the operations on it (timer/posix/atomic_mask.h). Of the word
-- the bits that timer/posix/timer_posix.c names are modelled; no other is ever set. Other threads may
-- write the word between two attempts of a loop, and a weak compare and exchange may fail though the
-- word is as expected: each attempt is given with the value that it meets and whether it fails so.
pub mod Alone
pub mod Atomic
mod Examples
use gabs.Base.{Bool, true, false, not, ◌&&◌, ◌||◌, List, [], ◌∷◌, if◌then◌else◌}

-- BIT_USED, BIT_ZOMBIE, BIT_ACTIVE, BIT_SCHED and BIT_ALLOC
pub record Word : Type 0 where
  pub used : Bool
  pub zombie : Bool
  pub active : Bool
  pub sched : Bool
  pub alloc : Bool

abbrev pub bits : (Bool → Bool → Bool) → Word → Word → Word
bits f a b = record {
  used = f a.used b.used;
  zombie = f a.zombie b.zombie;
  active = f a.active b.active;
  sched = f a.sched b.sched;
  alloc = f a.alloc b.alloc;
}

abbrev pub no_bits : Word
no_bits = record { used = false; zombie = false; active = false; sched = false; alloc = false }

abbrev pub bit_used : Word
bit_used = record no_bits { used = true }

abbrev pub bit_zombie : Word
bit_zombie = record no_bits { zombie = true }

abbrev pub bit_active : Word
bit_active = record no_bits { active = true }

abbrev pub bit_sched : Word
bit_sched = record no_bits { sched = true }

abbrev pub bit_alloc : Word
bit_alloc = record no_bits { alloc = true }

-- `a | b`, `a & b` and `a & ~b`
abbrev pub bit_or : Word → Word → Word
bit_or = bits ◌||◌

abbrev pub bit_and : Word → Word → Word
bit_and = bits ◌&&◌

abbrev pub bit_clear : Word → Word → Word
bit_clear = bits (λ p q. p && not q)

abbrev pub eqb : Bool → Bool → Bool
eqb true q = q
eqb false q = not q

-- `a == b`
abbrev pub same_word : Word → Word → Bool
same_word a b =
    eqb a.used b.used
    && (eqb a.zombie b.zombie
        && (eqb a.active b.active && (eqb a.sched b.sched && eqb a.alloc b.alloc)))

-- What one attempt meets: the word, and whether it fails spuriously.
pub record Attempt : Type 0 where
  pub seen : Word
  pub spurious : Bool

-- How a loop ends: the word `old` is replaced by `new` in one step, or it is left alone; or the
-- attempts given are all used up.
pub data Outcome : Type 0 where
  wrote : (old new : Word) → Outcome
  refused : (seen : Word) → Outcome
  unfinished : Outcome

-- the result of `atomic_compare_exchange_weak`
abbrev pub exchanged : Attempt → Word → Bool
exchanged a expected = not a.spurious && same_word a.seen expected

-- The loop that the four functions below share: on a failed exchange it ends without a write when
-- `stop` says so of the word that was met, and else tries to replace that word by `next` of it.
pub retry : (Word → Bool) → (Word → Word) → List Attempt → Word → Word → Outcome
retry stop next [] expected masked = unfinished
retry stop next (a ∷ rest) expected masked =
    let later = retry stop next rest a.seen (next a.seen) in
    if exchanged a expected
    then wrote expected masked
    else if stop a.seen
    then refused a.seen
    else later

-- `mask_set`
pub mask_set : Word → List Attempt → Outcome
unfolding retry
mask_set mask attempts = retry (λ _. false) (λ v. bit_or v mask) attempts no_bits mask

-- `mask_set_strict`: `wrote` for true, `refused` for false
pub mask_set_strict : Word → List Attempt → Outcome
unfolding retry
mask_set_strict mask attempts =
    retry (λ v. not (same_word (bit_and v mask) no_bits)) (λ v. bit_or v mask) attempts no_bits mask

-- `mask_clear`
pub mask_clear : Word → List Attempt → Outcome
unfolding retry
mask_clear mask attempts = retry (λ _. false) (λ v. bit_clear v mask) attempts no_bits no_bits

-- `mask_cas`: `wrote` for true, `refused` for false
pub mask_cas : Word → Word → List Attempt → Outcome
unfolding retry
mask_cas cmp set attempts =
    retry (λ v. not (same_word (bit_and v cmp) cmp)) (λ v. bit_or v set) attempts cmp set

-- `mask_get`
unfoldable pub mask_get : Word → Word → Word
mask_get state mask = bit_and state mask

-- `mask_test`
pub mask_test : Word → Word → Bool
unfolding mask_get
mask_test state mask = same_word (mask_get state mask) mask
