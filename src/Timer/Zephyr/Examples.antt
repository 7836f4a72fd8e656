-- ===== src/Timer/Zephyr/Examples.antt =====
-- The theorems on timer/zephyr/timer_zephyr.c at a pool of 4 timers, of which one is taken for the
-- context at 7.
use gabs.Base.{ℕ, ◌≡◌, ◌≢◌, refl, true, false, none, some, List, [], ◌∷◌, arith}
use gabs.Base.Run.{ok, Ends}
use gabs.Sync.{pos, negsuc}
use gabs.Timer.Kernel.{View, Documented, set_at, idle, canceled}
use gabs.Timer.Kernel.Plain.{plain, plain-Documented}
use gabs.Timer.Zephyr.{Info, State, install, uninstall, ctx_deinit, timer_expiry}
use gabs.Timer.Zephyr.Good.{Good, with_timer, without_timer, with_timer-Good}
use gabs.Timer.Zephyr.Pool.{
  Installed, install-Installed, view, InOrder, flags_left, install_uninstall, uninstall-Released,
  uninstall-install,
}
use gabs.Timer.Zephyr.Deinit.{Freed, ctx_deinit-Freed}
use gabs.Timer.Zephyr.Due.{Op, Stands, exec_all, promised_all, exec_all-Stands}
use gabs.Timer.Zephyr.Expiry.{uninstalls, timer_expiry-uninstalls}

abbrev nothing : View
nothing = record {
  taken = λ i. false;
  members = λ c. [];
  busy = λ i. idle;
  due = λ i. none;
  handler = λ t. none;
}

abbrev info : Info
info = record { callback = some 3; user_data = 9; ctx = 7 }

abbrev blank : Info
blank = record { callback = none; user_data = 0; ctx = 0 }

abbrev D : Documented (plain 4) 4
D = plain-Documented 4

nothing-Good : Good 4 (λ i. blank) (λ t. none) nothing
nothing-Good = record {
  owned = λ c i within. elim within [ ];
  linked = λ i taken. absurd (ground arith);
  once = λ c. tt;
  handlers = λ t. refl;
}

abbrev one : State View
one = record {
  pool = set_at (λ i. blank) 0 info;
  firing = λ t. none;
  kernel = with_timer nothing 7 0;
}

one-Good : Good 4 one.pool one.firing one.kernel
one-Good = with_timer-Good nothing-Good 0 7 info (omega arith) refl refl

install-Installed_example :
    Ends
      (λ t s'. Installed false (plain 4) 4 D 7 (some 5) 8 one t s' × InOrder false (plain 4) 4 D s')
      (install false (plain 4) 7 (some 5) 8 one)
unfolding plain-Documented
install-Installed_example = install-Installed false (plain 4) 4 D 7 (some 5) 8 one one-Good

uninstall-Released_example :
    (s' : State View) × (uninstall false (plain 4) 1 0 one ≡ ok (pos 0) s')
    × (view false (plain 4) 4 D s'
        ≡ without_timer (view false (plain 4) 4 D one) 0 (flags_left false (plain 4) 4 D 1 0 one))
    × (s'.pool ≡ one.pool)
    × (s'.firing ≡ one.firing)
    × InOrder false (plain 4) 4 D s'
unfolding plain-Documented
uninstall-Released_example =
    uninstall-Released false (plain 4) 4 D 1 0 one one-Good refl (λ t ne e. absurd (ground arith))

uninstall-install_example :
    Ends
      (λ _ s'.
        ((i : ℕ) → (view false (plain 4) 4 D s').taken i ≡ (view false (plain 4) 4 D one).taken i)
        × ((c : ℕ)
            → (view false (plain 4) 4 D s').members c ≡ (view false (plain 4) 4 D one).members c)
        × InOrder false (plain 4) 4 D s')
      (install_uninstall false (plain 4) 4 D 1 7 (some 5) 8 one)
unfolding plain-Documented
uninstall-install_example =
    uninstall-install false (plain 4) 4 D 1 7 (some 5) 8 one one-Good (λ t. refl)

ctx_deinit-Freed_example :
    Ends
      (λ r s'.
        (r ≡ pos 0)
        × Freed false (plain 4) 4 D one (0 ∷ []) s'
        × ((view false (plain 4) 4 D s').members 7 ≡ [])
        × ((d : ℕ)
            → d ≢ 7
            → (view false (plain 4) 4 D s').members d ≡ (view false (plain 4) 4 D one).members d))
      (ctx_deinit false (plain 4) 2 7 one)
unfolding plain-Documented
ctx_deinit-Freed_example =
    ctx_deinit-Freed false (plain 4) 4 D 2 7 one one-Good (omega arith)
      (λ t i within e. absurd (ground arith))

abbrev calls_made : List Op
calls_made = Op.starts 0 100 ∷ Op.starts 0 200 ∷ Op.restarts 1 0 ∷ Op.stops 0 ∷ Op.asks 1 ∷ []

exec_all-Stands_example :
    Ends
      (λ rs s'.
        (rs ≡ pos 0 ∷ negsuc 15 ∷ pos 0 ∷ pos 0 ∷ pos 1 ∷ [])
        × Stands false (plain 4) 4 D (promised_all calls_made (λ i. none)).1 s')
      (exec_all false (plain 4) 4 D calls_made one)
unfolding plain-Documented
exec_all-Stands_example =
    exec_all-Stands false (plain 4) 4 D calls_made one
      (record { due_same = λ i. refl; flags_same = λ i. refl })

-- The handler of that timer runs in the thread 1.
abbrev running : State View
running = record {
  pool = one.pool;
  firing = λ t. none;
  kernel = record (with_timer nothing 7 0) {
    busy = set_at (λ i. idle) 0 (record idle { running = true });
    handler = set_at (λ t. none) 1 (some 0);
  };
}

timer_expiry-uninstalls_example :
    (s' : State View) × (timer_expiry false (plain 4) (uninstalls false (plain 4) 4 D 1) 1 0 running
      ≡ ok tt s')
    × (view false (plain 4) 4 D s'
        ≡ without_timer
            (view false (plain 4) 4 D running)
            0
            (canceled ((view false (plain 4) 4 D running).busy 0)))
    × (s'.pool ≡ running.pool)
    × (s'.firing 1 ≡ none)
unfolding plain-Documented
timer_expiry-uninstalls_example =
    timer_expiry-uninstalls false (plain 4) 4 D 1 0 running 3
      (record {
        owned = one-Good.owned;
        linked = one-Good.linked;
        once = one-Good.once;
        handlers = λ t. refl;
      })
      refl (λ t ne e. absurd (ground arith)) refl refl
