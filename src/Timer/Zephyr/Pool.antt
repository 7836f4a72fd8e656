-- ===== src/Timer/Zephyr/Pool.antt =====
-- `gabs_timer_install` and `gabs_timer_uninstall` (timer/zephyr/timer_zephyr.c) take a timer of the
-- pool for a context and give it back.
use gabs.Base.{
  ℕ, ◌<◌, ◌≡◌, ◌≢◌, inl, inr, refl, sym, ap, subst, ◌∙◌, Bool, true, false, Option, none, some, [],
  ◌∷◌, ◌++◌, ◌==◌, ==-refl, if◌then◌else◌, arith, Bool-cases,
}
use gabs.Base.Run.{Cmd, ok, pure, ◌>>=◌, Ends, ends, then-Ends}
use gabs.Sync.{pos}
use gabs.Timer.Kernel.{Busy, View, Calls, Documented, In, without, set_at, idle, canceled}
use gabs.Timer.Zephyr.{Info, State, reserve, release, fill, install, uninstall, is_timer}
use gabs.Timer.Zephyr.Good.{
  Good, with_timer, without_timer, with_timer-Good, without_timer-Good, free-NotIn, without-snoc,
  without-none, set_at-same,
}

module _ {K : Type 0} (ndebug : Bool) (C : Calls K) (max : ℕ) (D : Documented C max) where
  abbrev pub view : State K → View
  view s = D.view s.kernel

  -- The pool is in order.
  abbrev pub InOrder : State K → Type 0
  InOrder s = Good max s.pool s.firing (view s)

  -- No timer is left and nothing has changed; or a timer that was free is now in the pool with these
  -- data, and taken for the context as the last of its list, with nothing else changed.
  abbrev pub Installed : (ctx : ℕ) → Option ℕ → ℕ → State K → Option ℕ → State K → Type 0
  Installed ctx cb user_data s none s' =
      ((i : ℕ) → i < max → (view s).taken i ≡ true)
      × (view s' ≡ view s)
      × (s'.pool ≡ s.pool)
      × (s'.firing ≡ s.firing)
  Installed ctx cb user_data s (some i) s' =
      (i < max)
      × ((view s).taken i ≡ false)
      × (view s' ≡ with_timer (view s) ctx i)
      × (s'.pool ≡ set_at s.pool i (record { callback = cb; user_data = user_data; ctx = ctx }))
      × (s'.firing ≡ s.firing)

  fill_view :
      (k : K) (ctx i : ℕ)
      → ((d : ℕ) → In i ((D.view k).members d) → ⊥)
      → D.view (C.mutex_unlock ctx (C.dlist_append ctx i (C.mutex_lock ctx k)))
        ≡ record (D.view k) {
          members = set_at (D.view k).members ctx ((D.view k).members ctx ++ i ∷ []);
        }
  fill_view k ctx i out =
      let k1 = C.mutex_lock ctx k in
      let same : D.view k1 ≡ D.view k = D.lock_lem k ctx in
      D.unlock_lem (C.dlist_append ctx i k1) ctx
      ∙ D.append_lem k1 ctx i
          (λ d within. out d (subst (λ (v : View). In i (v.members d)) same within))
      ∙ ap (λ (v : View). record v { members = set_at v.members ctx (v.members ctx ++ i ∷ []) })
          same

  -- `gabs_timer_install` ends with NULL, when every timer of the pool is taken, and nothing has
  -- changed; or with a timer that was free, is filled in, and is taken for the context as the last of
  -- its list, with nothing else changed. The pool was in order, and is.
  pub install-Installed :
      (ctx : ℕ) (cb : Option ℕ) (user_data : ℕ) (s : State K)
      → InOrder s
      → Ends
          (λ t s'. Installed ctx cb user_data s t s' × InOrder s')
          (install ndebug C ctx cb user_data s)
  unfolding install reserve fill
  install-Installed ctx cb user_data s good = by_reserve (C.bitarray_alloc s.kernel).0 refl
    where
      info : Info
      info = record { callback = cb; user_data = user_data; ctx = ctx }

      by_reserve :
          (r : Option ℕ)
          → (C.bitarray_alloc s.kernel).0 ≡ r
          → Ends
              (λ t s'. Installed ctx cb user_data s t s' × InOrder s')
              (install ndebug C ctx cb user_data s)
      by_reserve none e =
          let (full, same) = D.alloc_none s.kernel e in
          rw e (ends ((full, same, refl, refl), subst (Good max s.pool s.firing) (sym same) good))
      by_reserve (some i) e =
          let (small, free, reserved) = D.alloc_some s.kernel i e in
          let k1 = (C.bitarray_alloc s.kernel).1 in
          let seen =
            fill_view k1 ctx i (λ d within.
              free-NotIn good i d free (subst (λ (v : View). In i (v.members d)) reserved within))
            ∙ ap
                (λ (v : View). record v {
                  members = set_at v.members ctx (v.members ctx ++ i ∷ []);
                })
                reserved in
          rw e (
            ends (
              (small, free, seen, refl, refl),
              subst (Good max (set_at s.pool i info) s.firing) (sym seen)
                  (with_timer-Good good i ctx info small free refl),
            ))

  -- The flags of the work item after `gabs_timer_uninstall`: in the timer's own callback it is only
  -- asked to stop.
  abbrev pub flags_left : ℕ → ℕ → State K → Busy
  flags_left thread i s = if is_timer i (s.firing thread) then canceled ((view s).busy i) else idle

  unlink_view :
      (k : K) (c i : ℕ)
      → In i ((D.view k).members c)
      → D.view (C.mutex_unlock c (C.dlist_remove i (C.mutex_lock c k)))
        ≡ record (D.view k) { members = λ d. without i ((D.view k).members d) }
  unlink_view k c i within =
      let k1 = C.mutex_lock c k in
      let same : D.view k1 ≡ D.view k = D.lock_lem k c in
      D.unlock_lem (C.dlist_remove i k1) c
      ∙ D.remove_lem k1 c i (subst (λ (v : View). In i (v.members c)) (sym same) within)
      ∙ ap (λ (v : View). record v { members = λ d. without i (v.members d) }) same

  -- Give the timer `i` back, in a state where it is out of its list.
  pub released :
      (k : K) (i : ℕ) (v : View) (b : Busy)
      → i < max
      → v.taken i ≡ true
      → D.view k ≡ record v {
        members = λ d. without i (v.members d);
        busy = set_at v.busy i b;
        due = set_at v.due i none;
      }
      → ((C.bitarray_free i k).0 ≡ true) × (D.view (C.bitarray_free i k).1 ≡ without_timer v i b)
  released k i v b small taken seen =
      let (good, after) = D.free_lem k i small (ap (λ (w : View). w.taken i) seen ∙ taken) in
      (good, after ∙ ap (λ (w : View). record w { taken = set_at w.taken i false }) seen)

  -- Out of its callback, a timer is stopped with `k_work_cancel_delayable_sync`.
  pub sync_view :
      (k : K) (i : ℕ) (v : View)
      → D.view k ≡ record v { members = λ d. without i (v.members d) }
      → ((t : ℕ) → v.handler t ≢ some i)
      → D.view (C.work_cancel_sync i k) ≡ record v {
        members = λ d. without i (v.members d);
        busy = set_at v.busy i idle;
        due = set_at v.due i none;
      }
  sync_view k i v seen nobody =
      D.cancel_sync_lem k i (λ t e. nobody t (ap (λ (w : View). w.handler t) (sym seen) ∙ e))
      ∙ ap (λ (w : View). record w { busy = set_at w.busy i idle; due = set_at w.due i none }) seen

  -- In its callback, with `k_work_cancel_delayable`.
  async_view :
      (k : K) (i : ℕ) (v : View)
      → D.view k ≡ record v { members = λ d. without i (v.members d) }
      → D.view (C.work_cancel i k) ≡ record v {
        members = λ d. without i (v.members d);
        busy = set_at v.busy i (canceled (v.busy i));
        due = set_at v.due i none;
      }
  async_view k i v seen =
      D.cancel_lem k i
      ∙ ap
          (λ (w : View). record w {
            busy = set_at w.busy i (canceled (w.busy i));
            due = set_at w.due i none;
          })
          seen

  module _ (thread i : ℕ) (s : State K) (good : InOrder s) (taken : (view s).taken i ≡ true)
      (elsewhere : (t : ℕ) → t ≢ thread → s.firing t ≢ some i) where
    -- The kernel after the timer is out of its list.
    abbrev unlinked : K
    unlinked =
        C.mutex_unlock (s.pool i).ctx (C.dlist_remove i (C.mutex_lock (s.pool i).ctx s.kernel))

    unlinked_view :
        D.view unlinked ≡ record (view s) { members = λ d. without i ((view s).members d) }
    unlinked_view = unlink_view s.kernel (s.pool i).ctx i (good.linked i taken)

    small : i < max
    small = (good.owned (s.pool i).ctx i (good.linked i taken)).1

    nobody : is_timer i (s.firing thread) ≡ false → (t : ℕ) → (view s).handler t ≢ some i
    nobody e t h = elim (Bool-cases (t == thread)) [
      | inl same ↦
          let fired : s.firing thread ≡ some i =
            subst (λ u. s.firing u ≡ some i) (ground arith) (good.handlers t ∙ h) in
          cc (e, ap (is_timer i) fired, ==-refl i)
      | inr other ↦ elsewhere t (ground arith) (good.handlers t ∙ h)
    ]

    -- `gabs_timer_uninstall` of a timer that is taken ends with 0, also in the timer's own callback;
    -- the timer is out of its list, free and not due, with nothing else changed. The pool was in
    -- order, and is. No other thread is in the timer's callback.
    pub uninstall-Released :
        (s' : State K) × (uninstall ndebug C thread i s ≡ ok (pos 0) s')
        × (view s' ≡ without_timer (view s) i (flags_left thread i s))
        × (s'.pool ≡ s.pool)
        × (s'.firing ≡ s.firing)
        × InOrder s'
    unfolding uninstall release
    uninstall-Released = by_thread (is_timer i (s.firing thread)) refl
      where
        by_thread :
            (own : Bool)
            → is_timer i (s.firing thread) ≡ own
            → (s' : State K) × (uninstall ndebug C thread i s ≡ ok (pos 0) s')
              × (view s' ≡ without_timer (view s) i (flags_left thread i s))
              × (s'.pool ≡ s.pool)
              × (s'.firing ≡ s.firing)
              × InOrder s'
        by_thread true e =
            let k = C.work_cancel i unlinked in
            let (free, seen) =
              released k i (view s) (canceled ((view s).busy i)) small taken
                (async_view unlinked i (view s) unlinked_view) in
            (
              record s { kernel = (C.bitarray_free i k).1 },
              rw (e, release, free),
              rw e seen,
              refl,
              refl,
              subst (Good max s.pool s.firing) (sym seen) (without_timer-Good good i _),
            )
        by_thread false e =
            let k = C.work_cancel_sync i unlinked in
            let (free, seen) =
              released k i (view s) idle small taken
                (sync_view unlinked i (view s) unlinked_view (nobody e)) in
            (
              record s { kernel = (C.bitarray_free i k).1 },
              rw (e, release, free),
              rw e seen,
              refl,
              refl,
              subst (Good max s.pool s.firing) (sym seen) (without_timer-Good good i _),
            )

  -- An installation followed by the uninstall of its timer, if there is one.
  abbrev pub uninstall_some : (thread : ℕ) → Option ℕ → Cmd (State K) (Unit {0})
  uninstall_some thread none = pure tt
  uninstall_some thread (some i) = do _ ← uninstall ndebug C thread i; pure tt

  abbrev pub install_uninstall : (thread ctx : ℕ) → Option ℕ → ℕ → Cmd (State K) (Unit {0})
  install_uninstall thread ctx cb user_data = do
    t ← install ndebug C ctx cb user_data
    uninstall_some thread t

  -- Installing a timer and uninstalling it leaves the pool as it was: the same timers are taken, and
  -- every context has its list. The pool was in order, and is. No thread is in a callback.
  pub uninstall-install :
      (thread ctx : ℕ) (cb : Option ℕ) (user_data : ℕ) (s : State K)
      → InOrder s
      → ((t : ℕ) → s.firing t ≡ none)
      → Ends
          (λ _ s'.
            ((i : ℕ) → (view s').taken i ≡ (view s).taken i)
            × ((c : ℕ) → (view s').members c ≡ (view s).members c)
            × InOrder s')
          (install_uninstall thread ctx cb user_data s)
  uninstall-install thread ctx cb user_data s good outside =
      then-Ends (install-Installed ctx cb user_data s good) undo
    where
      undo :
          (t : Option ℕ) (s1 : State K)
          → Installed ctx cb user_data s t s1 × InOrder s1
          → Ends
              (λ _ s'.
                ((i : ℕ) → (view s').taken i ≡ (view s).taken i)
                × ((c : ℕ) → (view s').members c ≡ (view s).members c)
                × InOrder s')
              (uninstall_some thread t s1)
      undo none s1 ((full, seen, _, _), good1) =
          ends (
            λ i. ap (λ (v : View). v.taken i) seen,
            λ c. ap (λ (v : View). v.members c) seen,
            good1,
          )
      undo (some i) s1 ((small, free, seen, pools, same), good1) =
          let taken = ap (λ (v : View). v.taken i) seen ∙ set_at-same (view s).taken i true in
          let (s2, run, after, _, _, good2) =
            uninstall-Released thread i s1 good1 taken
              (λ t ne e. cc (e, ap (λ (f : ℕ → Option ℕ). f t) same, outside t)) in
          rw run (
            ends (
              λ j.
                  ap (λ (v : View). v.taken j) after
                  ∙ ap (λ (v : View). set_at v.taken i false j) seen
                  ∙ given_back j i (view s).taken free,
              λ c.
                  ap (λ (v : View). v.members c) after
                  ∙ ap (λ (v : View). without i (v.members c)) seen
                  ∙ taken_out c i (free-NotIn good i ctx free) (free-NotIn good i c free),
              good2,
            ))
        where
          given_back :
              (j i : ℕ) (f : ℕ → Bool) → f i ≡ false → set_at (set_at f i true) i false j ≡ f j
          given_back j i f e = elim (Bool-cases (j == i)) [
            | inl same ↦ rw same (ground arith)
            | inr other ↦ rw other
          ]

          taken_out :
              (c i : ℕ)
              → (In i ((view s).members ctx) → ⊥)
              → (In i ((view s).members c) → ⊥)
              → without i (set_at (view s).members ctx ((view s).members ctx ++ i ∷ []) c)
                ≡ (view s).members c
          taken_out c i out out' = elim (Bool-cases (c == ctx)) [
            | inl e ↦
                rw e
                  (without-snoc i ((view s).members ctx) out ∙ ap (view s).members (ground arith))
            | inr e ↦ rw e (without-none i ((view s).members c) out')
          ]
