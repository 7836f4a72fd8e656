-- ===== src/Pbuf/Buf/Walk.antt =====
-- Where a walk by byte offset stops: the loops of `gabs_pbuf_chain_at`, `buf_seek` and
-- `gabs_pbuf_shrink` in pbuf/buf.c all go on while the segment at hand ends by the offset.
use gabs.Base.{ℕ, ◌+◌, ◌-◌, ◌≤◌, ◌<◌, ◌≡◌, refl, subst, ◌⊎◌, inl, inr, List, [], ◌∷◌, ◌++◌, arith}
use gabs.Pbuf.Seg.{Seg, total}

-- `bytes` come before the segments, and the first of these holds the byte at `offset`.
abbrev pub Stops : ℕ → ℕ → List Seg → Type 0
Stops offset bytes [] = bytes ≤ offset
Stops offset bytes (x ∷ _) = (bytes ≤ offset) × (offset < bytes + x.size)

-- The offset lies between two segments, or at an end.
abbrev pub Boundary : ℕ → List Seg → Type 0
Boundary offset [] = offset ≡ 0
Boundary offset (x ∷ xs) = (offset ≡ 0) ⊎ ((x.size ≤ offset) × Boundary (offset - x.size) xs)

Boundary-zero : (offset : ℕ) (xs : List Seg) → offset ≡ 0 → Boundary offset xs
Boundary-zero offset [] e = e
Boundary-zero offset (x ∷ xs) e = inl e

Stops-le : (offset bytes : ℕ) (post : List Seg) → Stops offset bytes post → bytes ≤ offset
Stops-le offset bytes [] s = s
Stops-le offset bytes (x ∷ post) s = s.0

Stops-sub :
    (offset bytes n : ℕ) (post : List Seg)
    → Stops offset (n + bytes) post
    → Stops (offset - n) bytes post
Stops-sub offset bytes n [] s = omega arith
Stops-sub offset bytes n (x ∷ post) s = omega arith

-- A walk that stops has met the offset exactly if the offset is a boundary.
pub Stops-Boundary :
    (offset : ℕ) (pre post : List Seg)
    → Stops offset (total pre) post
    → Boundary offset (pre ++ post)
    → total pre ≡ offset
Stops-Boundary offset [] [] s b = omega arith
Stops-Boundary offset [] (x ∷ post) s b = omega arith
Stops-Boundary offset (x ∷ pre) post s (inl e) =
    omega (arith, Stops-le offset (total (x ∷ pre)) post s)
Stops-Boundary offset (x ∷ pre) post s (inr (le, b)) = omega (
  arith,
  Stops-Boundary (offset - x.size) pre post (Stops-sub offset (total pre) x.size post s) b,
)

pub Boundary-total : (pre post : List Seg) → Boundary (total pre) (pre ++ post)
Boundary-total [] post = Boundary-zero 0 post refl
Boundary-total (x ∷ pre) post =
    inr (omega arith, subst (λ n. Boundary n (pre ++ post)) (omega arith) (Boundary-total pre post))
