-- ===== src/Timer/Zephyr/Deinit.antt =====
-- `gabs_timer_ctx_init` and `gabs_timer_ctx_deinit` (timer/zephyr/timer_zephyr.c).
use gabs.Base.{
  ℕ, zero, suc, ◌<◌, ◌≡◌, ◌≢◌, inl, inr, refl, sym, ap, subst, ◌∙◌, Bool, false, none, some, List,
  [], ◌∷◌, ==-refl, arith, length,
}
use gabs.Base.Run.{Ends, ends, weaken, then-Ends}
use gabs.Sync.{pos}
use gabs.Timer.Kernel.{View, Calls, Documented, In, Once, without, idle, head?}
use gabs.Timer.Zephyr.{State, release, deinit_loop, ctx_deinit}
use gabs.Timer.Zephyr.Good.{
  Good, without_timer, without_timer-Good, In-without, without-none, set_at-same, set_at-other,
}
use gabs.Timer.Zephyr.Pool.{view, InOrder, released, sync_view}

module _ {K : Type 0} (ndebug : Bool) (C : Calls K) (max : ℕ) (D : Documented C max) where
  abbrev seen : State K → View
  seen s = view ndebug C max D s

  -- The timers `xs` are free and not due, and are the whole difference to `s`.
  pub record Freed (s : State K) (xs : List ℕ) (s' : State K) : Type 0 where
    pub order : InOrder ndebug C max D s'
    pub pool : s'.pool ≡ s.pool
    pub firing : s'.firing ≡ s.firing
    pub free : (i : ℕ) → In i xs → ((seen s').taken i ≡ false) × ((seen s').due i ≡ none)
    pub kept :
        (i : ℕ)
        → (In i xs → ⊥)
        → ((seen s').taken i ≡ (seen s).taken i)
          × ((seen s').due i ≡ (seen s).due i)
          × ((seen s').busy i ≡ (seen s).busy i)
    pub lists :
        (d : ℕ)
        → ((i : ℕ) → In i xs → In i ((seen s).members d) → ⊥)
        → (seen s').members d ≡ (seen s).members d

  cons-Freed :
      (s s1 s' : State K) (x : ℕ) (xs : List ℕ)
      → seen s1 ≡ without_timer (seen s) x idle
      → s1.pool ≡ s.pool
      → s1.firing ≡ s.firing
      → (In x xs → ⊥)
      → Freed s1 xs s'
      → Freed s (x ∷ xs) s'
  cons-Freed s s1 s' x xs after pools same alone r = record {
    order = r.order;
    pool = r.pool ∙ pools;
    firing = r.firing ∙ same;
    free = λ i within. elim within [
      | inl e ↦
          let (taken, due, _) = r.kept i (λ inside. alone (subst (λ j. In j xs) e inside)) in
          (
            taken ∙ ap (λ (v : View). v.taken i) after ∙ rw e (set_at-same (seen s).taken x false),
            due ∙ ap (λ (v : View). v.due i) after ∙ rw e (set_at-same (seen s).due x none),
          )
      | inr rest ↦ r.free i rest
    ];
    kept = λ i out.
        let (taken, due, busy) = r.kept i (λ inside. out (inr inside)) in
        let ne : i ≢ x = λ e. out (inl e) in
        (
          taken ∙ ap (λ (v : View). v.taken i) after ∙ set_at-other (seen s).taken x i false ne,
          due ∙ ap (λ (v : View). v.due i) after ∙ set_at-other (seen s).due x i none ne,
          busy ∙ ap (λ (v : View). v.busy i) after ∙ set_at-other (seen s).busy x i idle ne,
        );
    lists = λ d apart.
        let left = ap (λ (v : View). v.members d) after in
        r.lists d (λ i inside here.
          apart i (inr inside) (In-without x i ((seen s).members d) (subst (In i) left here)).0)
        ∙ left
        ∙ without-none x ((seen s).members d) (apart x (inl refl));
  }

  deinit_loop-Freed :
      (f ctx : ℕ) (xs : List ℕ) (s : State K)
      → InOrder ndebug C max D s
      → (seen s).members ctx ≡ xs
      → length xs < f
      → ((t i : ℕ) → In i xs → s.firing t ≢ some i)
      → Ends
          (λ _ s'. Freed s xs s' × ((seen s').members ctx ≡ []))
          (deinit_loop ndebug C f ctx (head? xs) s)
  unfolding deinit_loop release
  deinit_loop-Freed zero ctx xs s good at fuel outside = absurd (omega arith)
  deinit_loop-Freed (suc f) ctx [] s good at fuel outside = ends (
    record {
      order = good;
      pool = refl;
      firing = refl;
      free = λ i within. elim within [ ];
      kept = λ i out. (refl, refl, refl);
      lists = λ d out. refl;
    },
    at,
  )
  deinit_loop-Freed (suc f) ctx (x ∷ xs) s good at fuel outside =
      let here : In x ((seen s).members ctx) = subst (In x) (sym at) (inl refl) in
      let (taken, small, is_ctx) = good.owned ctx x here in
      let (alone, once) = subst Once at (good.once ctx) in
      let k2 = C.work_cancel_sync x (C.dlist_remove x s.kernel) in
      let (free, after) = released ndebug C max D k2 x (seen s) idle small taken (
        sync_view ndebug C max D (C.dlist_remove x s.kernel) x (seen s)
          (D.remove_lem s.kernel ctx x here)
          (λ t h. outside t x (inl refl) (good.handlers t ∙ h))) in
      let s1 = record s { kernel = (C.bitarray_free x k2).1 } in
      let good1 : InOrder ndebug C max D s1 =
        subst (Good max s.pool s.firing) (sym after) (without_timer-Good good x idle) in
      let at1 : (seen s1).members ctx ≡ xs =
        ap (λ (v : View). v.members ctx) after
        ∙ ap (without x) at
        ∙ rw (==-refl x) (without-none x xs alone) in
      rw (D.next_lem s.kernel ctx x [] xs at (good.once ctx), free)
        (weaken
          (deinit_loop-Freed f ctx xs s1 good1 at1 (omega arith)
            (λ t i within. outside t i (inr within)))
          λ u s' (r, empty). (cons-Freed s s1 s' x xs after refl refl alone r, empty))

  -- `gabs_timer_ctx_deinit` ends with 0 and an empty list: the timers that were in it are free and not
  -- due, all other timers and the lists of all other contexts are as they were, and the pool is in
  -- order, as it was. There are more rounds than timers in the list, and no thread is in the callback
  -- of one of them.
  pub ctx_deinit-Freed :
      (f ctx : ℕ) (s : State K)
      → InOrder ndebug C max D s
      → length ((seen s).members ctx) < f
      → ((t i : ℕ) → In i ((seen s).members ctx) → s.firing t ≢ some i)
      → Ends
          (λ r s'.
            (r ≡ pos 0)
            × Freed s ((seen s).members ctx) s'
            × ((seen s').members ctx ≡ [])
            × ((d : ℕ) → d ≢ ctx → (seen s').members d ≡ (seen s).members d))
          (ctx_deinit ndebug C f ctx s)
  unfolding ctx_deinit
  ctx_deinit-Freed f ctx s good fuel outside =
      let xs = (seen s).members ctx in
      rw (D.head_lem s.kernel ctx) (
        then-Ends (deinit_loop-Freed f ctx xs s good refl fuel outside) λ u s' (r, empty). ends (
          refl,
          r,
          empty,
          λ d ne.
              r.lists d
                (λ i here there. ne (sym (good.owned d i there).2 ∙ (good.owned ctx i here).2)),
        ))
