-- ===== src/Timer/Manual/Examples.antt =====
-- A concrete context of three manual timers, and the theorems on timer/manual/timer_manual.c at it.
use gabs.Base.{ℕ, suc, ◌≡◌, refl, true, some, List, [], ◌∷◌, arith, inl, inr, ap, get_elem?-set}
use gabs.Base.Run.{Cmd, ok, Ends, ends}
use gabs.Timer.Manual.{Timer, Ctx, cleared, next_expired, advance}
use gabs.Timer.Manual.Next.{Earliest, next_expired-Earliest}
use gabs.Timer.Manual.Advance.{Settled, advance-Settled}
use gabs.Timer.Manual.Trace.{Fired, quiet, advance-Fired}
use gabs.Timer.Manual.Ops.{
  Wf, set-Wf, cleared-Wf, idle, get_elem?-const, op_start, exec, Kept, exec-Kept,
}

-- Two timers that expire at 10, the second of them started first, and a free place.
abbrev late : Timer
late = record {
  cb = 7;
  user_arg = 1;
  used = true;
  active = true;
  expiry_us = 10;
  seq = 1;
  linked = true;
}

abbrev early : Timer
early = record late { cb = 8; seq = 0 }

abbrev ctx : Ctx
ctx = record { now_us = 4; next_seq = 2; timers = late ∷ early ∷ cleared ∷ [] }

ctx-Wf : Wf 2 (late ∷ early ∷ cleared ∷ [])
ctx-Wf =
    let none_used = cleared ∷ cleared ∷ cleared ∷ [] in
    set-Wf 1 2 (cleared ∷ early ∷ cleared ∷ []) 0 late
      (set-Wf 0 1 none_used 1 early (cleared-Wf 0 none_used) (omega arith) (λ u. refl)
        (λ a. omega arith)
        λ j y ne got a on. idle cleared y (get_elem?-const none_used cleared j y got) refl a)
      (omega arith) (λ u. refl) (λ a. omega arith)
      λ j y ne got a on. elim (get_elem?-set none_used 1 early j got) [
        | inl (at, is) ↦ λ e. absurd (let k = ap (λ (q : Timer). q.seq) is in omega arith)
        | inr (other, old) ↦ idle cleared y (get_elem?-const none_used cleared j y old) refl a
      ]

-- The second timer is the first that is due by 12.
early-Earliest : Earliest 12 (late ∷ early ∷ cleared ∷ []) (some (1, early))
unfolding next_expired
early-Earliest = next_expired-Earliest ctx 12

-- A callback that counts its calls.
abbrev counting : ℕ → ℕ → ℕ → Cmd (ℕ × Ctx) (Unit {0})
counting cb t arg (n, c) = ok tt (suc n, c)

-- A client that notes which callbacks ran, and when.
abbrev note : List (ℕ × ℕ) → (cb t arg clock : ℕ) → List (ℕ × ℕ)
note l cb t arg clock = (cb, clock) ∷ l

advance-Settled_example :
    Ends (λ n s. (s.1.now_us ≡ 12) × Settled counting 12 0 2 n s) (advance counting 3 8 (0, ctx))
advance-Settled_example =
    advance-Settled counting 3 8 0 ctx (λ cb t arg w c h. ends λ j y e d. e) (omega arith)
      (omega arith)

advance-Fired_example :
    Ends
      (λ n s. Fired note 12 0 [] ctx n s × (s.1.now_us ≡ 12))
      (advance (quiet note) 3 8 ([], ctx))
advance-Fired_example = advance-Fired note 3 8 [] ctx (omega arith) (omega arith)

exec-Kept_example : Ends (Kept ctx) (exec (op_start 1 30) ctx)
exec-Kept_example = exec-Kept (op_start 1 30) ctx ctx-Wf (early, refl, refl) (omega arith)
