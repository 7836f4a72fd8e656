-- ===== src/Timer/Posix/Context/Examples.antt =====
-- A system with the number of its next descriptor, and the theorems on the context of POSIX timers
-- (timer/posix/timer_posix.c) at it.
use gabs.Base.{
  ℕ, ◌≡◌, refl, sym, ap, ◌∙◌, suc, ◌==◌, ◌&&◌, ◌||◌, not, ltb, true, false, Bool, some, none, List,
  [], ◌∷◌, arith,
}
use gabs.Base.Run.{Ends}
use gabs.Sync.{pos}
use gabs.Timer.Posix.Mask.{no_bits, bit_used}
use gabs.Timer.Posix.Scan.{Slot}
use gabs.Timer.Posix.Context.{Event, Calls, State, ctx_init, ctx_deinit}
use gabs.Timer.Posix.Context.Closed.{Documented, Made, Ended, ctx_init-Made, ctx_deinit-Ended}

-- The descriptors below a number are taken; some of them are closed.
abbrev Table : Type 0
Table = ℕ × (ℕ → Bool)

-- A thread cannot be made.
abbrev plain : Calls Table
plain = record {
  eventfd = λ k. (Event.opens k.0, (suc k.0, λ g. k.1 g && not (g == k.0)));
  create = λ k. (11, k);
  wake = λ fd k. (true, k);
  join = λ k. k;
  close = λ fd k. (k.0, λ g. k.1 g || (g == fd));
}

abbrev open_in : Table → ℕ → Bool
open_in k g = ltb g k.0 && not (k.1 g)

abbrev number : Event → ℕ
number (Event.opens fd) = fd
number (Event.fails e) = 0

opened_next :
    (n g : ℕ) (c : Bool) → ltb g (suc n) && not (c && not (g == n)) ≡ (ltb g n && not c) || (g == n)
opened_next n g c = ground arith

closed_next : (a c e : Bool) → a && not (c || e) ≡ (a && not c) && not e
closed_next a c e = ground arith

not_open : (n : ℕ) (c : Bool) → ltb n n && not c ≡ false
not_open n c = ground arith

plain-Documented : Documented plain
plain-Documented = record {
  is_open = open_in;
  eventfd_lem =
      λ k fd e g. opened_next k.0 g (k.1 g) ∙ ap (λ n. open_in k g || (g == n)) (ap number e);
  fresh_lem = λ k fd e. ap (open_in k) (sym (ap number e)) ∙ not_open k.0 (k.1 k.0);
  no_event_lem = λ k e impossible. absurd (ground arith);
  create_lem = λ k g. refl;
  wake_lem = λ k fd up. (refl, λ g. refl);
  join_lem = λ k g. refl;
  close_lem = λ k fd g. closed_next (ltb g k.0) (k.1 g) (g == fd);
}

abbrev slots : List Slot
slots =
    record { cb = some 1; user_arg = 2; fd = some 4; state = bit_used }
    ∷ record { cb = none; user_arg = 0; fd = some 0; state = no_bits }
    ∷ []

abbrev ctx : State Table
ctx = record { eventfd = some 3; exiting = false; timers = slots; kernel = (5, λ g. false) }

ctx_init-Made_example : Ends (Made plain plain-Documented ctx) (ctx_init plain ctx)
ctx_init-Made_example = ctx_init-Made plain plain-Documented ctx

ctx_deinit-Ended_example :
    Ends (λ r s'. (r ≡ pos 0) × Ended plain plain-Documented ctx s') (ctx_deinit plain ctx)
unfolding plain-Documented
ctx_deinit-Ended_example = ctx_deinit-Ended plain plain-Documented ctx 3 refl refl
