-- ===== src/Timer/Posix/Context/Closed.antt =====
-- Which descriptors a context of POSIX timers (timer/posix/timer_posix.c) leaves open.
use gabs.Base.{
  ℕ, ◌==◌, ◌≡◌, refl, ap, ◌∙◌, ◌&&◌, ◌||◌, Bool, true, false, not, none, some, List, [], ◌∷◌, map,
  if◌then◌else◌, arith, Bool-cases, inl, inr, ◌≢◌, ◌⊎◌,
}
use gabs.Base.Run.{Ends, ends}
use gabs.Sync.{ℤ, pos, negated}
use gabs.Timer.Posix.Mask.{no_bits}
use gabs.Timer.Posix.Mask.Alone.{mask_test-used}
use gabs.Timer.Posix.Scan.{Slot, Fd, same_fd, timer_cleanup}
use gabs.Timer.Posix.Context.{
  Event, Calls, State, zeroed, create_thread, ctx_init, close_fd, cleanup_loop, finish, ctx_deinit,
}

-- The documented behaviour of the calls, where `is_open` tells the descriptors that are open.
pub record Documented {K : Type 0} (C : Calls K) : Type 0 where
  pub is_open : K → ℕ → Bool
  pub eventfd_lem :
      (k : K) (fd : ℕ)
      → (C.eventfd k).0 ≡ Event.opens fd
      → (g : ℕ) → is_open (C.eventfd k).1 g ≡ is_open k g || (g == fd)
  pub fresh_lem : (k : K) (fd : ℕ) → (C.eventfd k).0 ≡ Event.opens fd → is_open k fd ≡ false
  pub no_event_lem :
      (k : K) (e : ℕ)
      → (C.eventfd k).0 ≡ Event.fails e
      → (e ≢ 0) × ((g : ℕ) → is_open (C.eventfd k).1 g ≡ is_open k g)
  pub create_lem : (k : K) (g : ℕ) → is_open (C.create k).1 g ≡ is_open k g
  pub wake_lem :
      (k : K) (fd : ℕ)
      → is_open k fd ≡ true
      → ((C.wake (some fd) k).0 ≡ true) × ((g : ℕ) → is_open (C.wake (some fd) k).1 g ≡ is_open k g)
  pub join_lem : (k : K) (g : ℕ) → is_open (C.join k) g ≡ is_open k g
  pub close_lem : (k : K) (fd g : ℕ) → is_open (C.close fd k) g ≡ is_open k g && not (g == fd)

-- A slot in use is cleared.
abbrev pub cleared : Slot → Slot
cleared t = if t.state.used then record t { state = no_bits } else t

-- Whether a slot in use has the descriptor.
abbrev pub in_use : ℕ → List Slot → Bool
in_use g [] = false
in_use g (t ∷ ts) = (t.state.used && same_fd (some g) t.fd) || in_use g ts

module _ {K : Type 0} (C : Calls K) (D : Documented C) where
  close_fd_lem :
      (fd : Fd) (k : K) (g : ℕ)
      → D.is_open (close_fd C fd k) g ≡ D.is_open k g && not (same_fd (some g) fd)
  unfolding close_fd
  close_fd_lem none k g = ground arith
  close_fd_lem (some fd) k g = D.close_lem k fd g

  cleanup_loop-slots : (ts : List Slot) (k : K) → (cleanup_loop C ts k).0 ≡ map cleared ts
  unfolding cleanup_loop timer_cleanup
  cleanup_loop-slots [] k = refl
  cleanup_loop-slots (t ∷ ts) k = ground (
    arith,
    mask_test-used t.state,
    cleanup_loop-slots ts k,
    cleanup_loop-slots ts (close_fd C t.fd k),
  )

  cleanup_loop-open :
      (ts : List Slot) (k : K) (g : ℕ)
      → D.is_open (cleanup_loop C ts k).1 g ≡ D.is_open k g && not (in_use g ts)
  unfolding cleanup_loop
  cleanup_loop-open [] k g = ground arith
  cleanup_loop-open (t ∷ ts) k g = ground (
    arith,
    mask_test-used t.state,
    cleanup_loop-open ts k g,
    cleanup_loop-open ts (close_fd C t.fd k) g,
    close_fd_lem t.fd k g,
  )

  -- `gabs_timer_ctx_deinit` has ended the context.
  pub record Ended (s s' : State K) : Type 0 where
    pub exits : s'.exiting ≡ true
    pub slots : s'.timers ≡ map cleared s.timers
    pub opened :
        (g : ℕ)
        → D.is_open s'.kernel g
          ≡ D.is_open s.kernel g && not (same_fd (some g) s.eventfd || in_use g s.timers)

  -- `gabs_timer_ctx_deinit` of a context whose event is open returns 0, with the worker told to exit, every
  -- slot in use cleared and the others as they were; of the descriptors that were open, exactly the
  -- event and those of the slots in use are closed. The worker makes no more visits to the slots.
  pub ctx_deinit-Ended :
      (s : State K) (fd : ℕ)
      → s.eventfd ≡ some fd
      → D.is_open s.kernel fd ≡ true
      → Ends (λ r s'. (r ≡ pos 0) × Ended s s') (ctx_deinit C s)
  unfolding ctx_deinit finish
  ctx_deinit-Ended s fd e up =
      let woke : (C.wake s.eventfd s.kernel).0 ≡ true =
        ap (λ h. (C.wake h s.kernel).0) e ∙ (D.wake_lem s.kernel fd up).0 in
      rw woke (
        ends (
          refl,
          record {
            exits = refl;
            slots = cleanup_loop-slots s.timers _;
            opened = λ g.
                cleanup_loop-open s.timers _ g
                ∙ ap (λ b. b && not (in_use g s.timers)) (closed g)
                ∙ both (D.is_open s.kernel g) (same_fd (some g) s.eventfd) (in_use g s.timers);
          },
        ))
    where
      awake : K
      awake = (C.wake s.eventfd s.kernel).1

      closed :
          (g : ℕ)
          → D.is_open (close_fd C s.eventfd (C.join awake)) g
            ≡ D.is_open s.kernel g && not (same_fd (some g) s.eventfd)
      closed g =
          close_fd_lem s.eventfd (C.join awake) g
          ∙ ap (λ b. b && not (same_fd (some g) s.eventfd))
              (D.join_lem awake g
                ∙ ap (λ h. D.is_open (C.wake h s.kernel).1 g) e
                ∙ (D.wake_lem s.kernel fd up).1 g)

      both : (a b c : Bool) → (a && not b) && not c ≡ a && not (b || c)
      both a b c = ground arith

  -- `gabs_timer_ctx_init` has returned 0 with an open event, or an error with what was open before.
  pub record Made (s : State K) (r : ℤ) (s' : State K) : Type 0 where
    pub runs : s'.exiting ≡ false
    pub slots : s'.timers ≡ map zeroed s.timers
    pub outcome :
        ((r ≡ pos 0)
          × ((fd : ℕ) × (s'.eventfd ≡ some fd)
              × ((g : ℕ) → D.is_open s'.kernel g ≡ D.is_open s.kernel g || (g == fd))))
        ⊎ ((e : ℕ) × (e ≢ 0)
            × (r ≡ negated e)
            × ((g : ℕ) → D.is_open s'.kernel g ≡ D.is_open s.kernel g))

  -- `gabs_timer_ctx_init` clears every slot and tells the worker not to exit, and either returns 0, with a
  -- descriptor for its event open beside those that were, or it returns a negated error number, not 0, and
  -- the same descriptors are open as before.
  pub ctx_init-Made : (s : State K) → Ends (Made s) (ctx_init C s)
  unfolding ctx_init create_thread
  ctx_init-Made s = by_event (C.eventfd s.kernel).0 refl
    where
      k1 : K
      k1 = (C.eventfd s.kernel).1

      start : State K
      start = record s { timers = map zeroed s.timers; exiting = false; kernel = k1 }

      kept :
          (fd : ℕ)
          → (C.eventfd s.kernel).0 ≡ Event.opens fd
          → (g : ℕ) → D.is_open (C.create k1).1 g ≡ D.is_open s.kernel g || (g == fd)
      kept fd e g = D.create_lem k1 g ∙ D.eventfd_lem s.kernel fd e g

      undone :
          (fd : ℕ)
          → (C.eventfd s.kernel).0 ≡ Event.opens fd
          → (g : ℕ) → (D.is_open s.kernel g || (g == fd)) && not (g == fd) ≡ D.is_open s.kernel g
      undone fd e g = elim (Bool-cases (g == fd)) [
        | inl same ↦
            let shut : D.is_open s.kernel g ≡ false =
              ap (D.is_open s.kernel) (ground arith) ∙ D.fresh_lem s.kernel fd e in
            rw (same, shut) refl
        | inr other ↦ rw other (ground arith)
      ]

      by_event :
          (ev : Event) → (C.eventfd s.kernel).0 ≡ ev → Ends (Made s) (create_thread C ev start)
      by_event (Event.fails e) at = ends (record {
        runs = refl;
        slots = refl;
        outcome =
            let (some_error, same) = D.no_event_lem s.kernel e at in
            inr (e, some_error, refl, same);
      })
      by_event (Event.opens fd) at = elim (Bool-cases ((C.create k1).0 == 0)) [
        | inl fine ↦ rw fine (
            ends
              (record { runs = refl; slots = refl; outcome = inl (refl, (fd, refl, kept fd at)) }))
        | inr bad ↦ rw bad (
            ends (record {
              runs = refl;
              slots = refl;
              outcome = inr (
                (C.create k1).0,
                ground arith,
                refl,
                λ g.
                    close_fd_lem (some fd) (C.create k1).1 g
                    ∙ ap (λ b. b && not (g == fd)) (kept fd at g)
                    ∙ undone fd at g,
              );
            }))
      ]
