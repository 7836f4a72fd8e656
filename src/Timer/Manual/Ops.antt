-- ===== src/Timer/Manual/Ops.antt =====
-- The invariant of a context under the operations of include/gabs/timer.h as implemented by
-- timer/manual/timer_manual.c.
use gabs.Base.{
  ℕ, zero, suc, ◌+◌, ◌≤◌, ◌<◌, ◌^◌, ◌≡◌, ◌≢◌, refl, ap, sym, subst, ◌∙◌, Bool, true, false, not,
  Bool-cases, Option, none, some, List, [], ◌∷◌, arith, get_elem?, set, map, add64, length,
  length-set, inl, inr, get_elem?-set, some-injective, none-ne-some, if◌then◌else◌,
}
use gabs.Base.Run.{Cmd, pure, Ends, ends, then-Ends, ◌>>=◌}
use gabs.Timer.Manual.{
  Timer, Ctx, install_loop, install, uninstall, start, restart, stop, ctx_deinit, cleared,
}
use gabs.Timer.Manual.Advance.{timer_at_lem}
use gabs.Timer.Manual.Install.{Placed, installed, install_loop-Placed}

-- Every timer that is used belongs to the context, and the timers that run have different numbers,
-- below the next one to be given.
pub record Wf (next : ℕ) (ts : List Timer) : Type 0 where
  pub linked : (j : ℕ) (y : Timer) → get_elem? ts j ≡ some y → y.used ≡ true → y.linked ≡ true
  pub below : (j : ℕ) (y : Timer) → get_elem? ts j ≡ some y → y.active ≡ true → y.seq < next
  pub apart :
      (i j : ℕ) (x y : Timer)
      → i ≢ j
      → get_elem? ts i ≡ some x
      → get_elem? ts j ≡ some y
      → x.active ≡ true
      → y.active ≡ true
      → x.seq ≢ y.seq

-- The calls of a client on a context.
pub data Op : Type 0 where
  op_install : ℕ → ℕ → Op
  op_uninstall : ℕ → Op
  op_start : ℕ → ℕ → Op
  op_restart : ℕ → ℕ → Op
  op_stop : ℕ → Op
  op_deinit : Op

pub exec : Op → Cmd Ctx (Unit {0})
unfolding install uninstall start restart stop ctx_deinit
exec (op_install cb arg) = do _ ← install cb arg; pure tt
exec (op_uninstall t) = do _ ← uninstall t; pure tt
exec (op_start t delay_us) = do _ ← start t delay_us; pure tt
exec (op_restart t delay_us) = do _ ← restart t delay_us; pure tt
exec (op_stop t) = do _ ← stop t; pure tt
exec op_deinit = do _ ← ctx_deinit; pure tt

abbrev Used : Ctx → ℕ → Type 0
Used c t = (x : Timer) × (get_elem? c.timers t ≡ some x) × (x.used ≡ true)

-- A call on a timer is made while that is installed.
abbrev pub Allowed : Ctx → Op → Type 0
Allowed c (op_install cb arg) = Unit
Allowed c (op_uninstall t) = Used c t
Allowed c (op_start t delay_us) = Used c t
Allowed c (op_restart t delay_us) = Used c t
Allowed c (op_stop t) = Used c t
Allowed c op_deinit = Unit

pub set-Wf :
    (n n' : ℕ) (ts : List Timer) (i : ℕ) (x : Timer)
    → Wf n ts
    → n ≤ n'
    → (x.used ≡ true → x.linked ≡ true)
    → (x.active ≡ true → x.seq < n')
    → ((j : ℕ) (y : Timer)
        → j ≢ i
        → get_elem? ts j ≡ some y
        → y.active ≡ true
        → x.active ≡ true
        → y.seq ≢ x.seq)
    → Wf n' (set ts i x)
set-Wf n n' ts i x wf low bound less other = record {
  linked = λ j y got u. elim (get_elem?-set ts i x j got) [
    | inl (at, is) ↦ subst (λ (z : Timer). z.used ≡ true → z.linked ≡ true) is bound u
    | inr (ne, old) ↦ wf.linked j y old u
  ];
  below = λ j y got a. elim (get_elem?-set ts i x j got) [
    | inl (at, is) ↦ subst (λ (z : Timer). z.active ≡ true → z.seq < n') is less a
    | inr (ne, old) ↦ omega (arith, wf.below j y old a)
  ];
  apart = λ j k y z ne gotj gotk ay az. elim (get_elem?-set ts i x j gotj) [
    | inl (at, is) ↦ elim (get_elem?-set ts i x k gotk) [
      | inl (at', is') ↦ absurd (ne (at ∙ sym at'))
      | inr (ne', old') ↦ λ e.
          other k z ne' old' az (ap (λ (q : Timer). q.active) is ∙ ay)
            (sym e ∙ sym (ap (λ (q : Timer). q.seq) is))
    ]
    | inr (ne1, old) ↦ elim (get_elem?-set ts i x k gotk) [
      | inl (at', is') ↦ λ e.
          other j y ne1 old ay (ap (λ (q : Timer). q.active) is' ∙ az)
            (e ∙ sym (ap (λ (q : Timer). q.seq) is'))
      | inr (ne', old') ↦ wf.apart j k y z ne old old' ay az
    ]
  ];
}

Placed-Wf :
    (n cb arg : ℕ) (ts ts' : List Timer) (r : Option ℕ)
    → Wf n ts
    → Placed cb arg ts (r, ts')
    → Wf n ts' × (length ts' ≡ length ts)
Placed-Wf n cb arg ts ts' none wf (all, same) = (subst (Wf n) (sym same) wf, ap length same)
Placed-Wf n cb arg ts ts' (some i) wf (x, here, free, before, same) = (
  subst (Wf n) (sym same) (
      set-Wf n n ts i (installed cb arg) wf (omega arith) (λ u. refl) (λ a. ground arith)
        λ j y ne got a b. ground arith),
  ap length same ∙ length-set ts i (installed cb arg),
)

pub unless : {A : Type 0} (b : Bool) (x y : A) → b ≡ true → (if not b then x else y) ≡ y
unless b x y e = rw e refl

pub get_elem?-const :
    (ts : List Timer) (z : Timer) (j : ℕ) (y : Timer)
    → get_elem? (map (λ _. z) ts) j ≡ some y
    → z ≡ y
get_elem?-const [] z j y e = absurd (none-ne-some y e)
get_elem?-const (x ∷ ts) z zero y e = some-injective z y e
get_elem?-const (x ∷ ts) z (suc j) y e = get_elem?-const ts z j y e

length-const : (ts : List Timer) (z : Timer) → length (map (λ _. z) ts) ≡ length ts
length-const [] z = refl
length-const (x ∷ ts) z = ap suc (length-const ts z)

pub idle : (z y : Timer) {P : Type 0} → z ≡ y → z.active ≡ false → y.active ≡ true → P
idle z y e off on = absurd (let k = ap (λ (q : Timer). q.active) e in ground arith)

-- An array that was cleared satisfies the invariant.
pub cleared-Wf : (n : ℕ) (ts : List Timer) → Wf n (map (λ _. cleared) ts)
cleared-Wf n ts = record {
  linked = λ j y got u.
      absurd
        (let k = ap (λ (q : Timer). q.used) (get_elem?-const ts cleared j y got) in ground arith);
  below = λ j y got a. idle cleared y (get_elem?-const ts cleared j y got) refl a;
  apart =
      λ i j x y ne goti gotj ax ay. idle cleared y (get_elem?-const ts cleared j y gotj) refl ay;
}

-- The context is as the invariant says, with as many timers as before and the same time.
abbrev pub Kept : {A : Type 0} → Ctx → A → Ctx → Type 0
Kept c _ c' =
    Wf c'.next_seq c'.timers × (length c'.timers ≡ length c.timers) × (c'.now_us ≡ c.now_us)

-- The timer gives way to one that does not run.
idle-Kept :
    (c : Ctx) (t : ℕ) (x : Timer)
    → Wf c.next_seq c.timers
    → (x.used ≡ true → x.linked ≡ true)
    → x.active ≡ false
    → Kept c tt (record c { timers = set c.timers t x })
idle-Kept c t x wf bound off = (
  set-Wf c.next_seq c.next_seq c.timers t x wf (omega arith) bound (λ a. ground arith)
      λ j y ne got a b. ground arith,
  length-set c.timers t x,
  refl,
)

restart-Kept :
    (c : Ctx) (t delay_us : ℕ) (x : Timer)
    → Wf c.next_seq c.timers
    → get_elem? c.timers t ≡ some x
    → x.used ≡ true
    → c.next_seq + 1 < 2 ^ 64
    → Ends (Kept c) (restart t delay_us c)
unfolding restart
restart-Kept c t delay_us x wf got used room =
    rw (timer_at_lem t x c got, unless x.linked _ _ (wf.linked t x got used))
      (ends (
        set-Wf c.next_seq (add64 c.next_seq 1) c.timers t _ wf (omega arith)
            (λ u. wf.linked t x got used) (λ a. omega arith)
            λ j y ne old ay on. let less = wf.below j y old ay in omega arith,
        length-set c.timers t _,
        refl,
      ))

-- Each call of a client, on a timer that is installed, ends and preserves the invariant, the number
-- of timers and the clock, as long as the counter of starts does not wrap around.
pub exec-Kept :
    (op : Op) (c : Ctx)
    → Wf c.next_seq c.timers
    → Allowed c op
    → c.next_seq + 1 < 2 ^ 64
    → Ends (Kept c) (exec op c)
unfolding exec install uninstall start stop ctx_deinit
exec-Kept (op_install cb arg) c wf ok_op room =
    let (wf', len) =
      Placed-Wf c.next_seq cb arg c.timers (install_loop cb arg c.timers).1
        (install_loop cb arg c.timers).0 wf (install_loop-Placed cb arg c.timers) in
    ends (wf', len, refl)
exec-Kept (op_uninstall t) c wf (x, got, used) room =
    rw (timer_at_lem t x c got) (ends (idle-Kept c t _ wf (λ u. ground arith) refl))
exec-Kept (op_start t delay_us) c wf (x, got, used) room = elim (Bool-cases x.active) [
  | inl e ↦ rw (timer_at_lem t x c got, e) (ends (wf, refl, refl))
  | inr e ↦
      rw (timer_at_lem t x c got, e)
        (then-Ends (restart-Kept c t delay_us x wf got used room) λ r c' kept. ends kept)
]
exec-Kept (op_restart t delay_us) c wf (x, got, used) room =
    then-Ends (restart-Kept c t delay_us x wf got used room) λ r c' kept. ends kept
exec-Kept (op_stop t) c wf (x, got, used) room =
    rw (timer_at_lem t x c got) (ends (idle-Kept c t _ wf (wf.linked t x got) refl))
exec-Kept op_deinit c wf ok_op room =
    ends (cleared-Wf c.next_seq c.timers, length-const c.timers cleared, refl)
