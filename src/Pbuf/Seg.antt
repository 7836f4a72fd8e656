-- ===== src/Pbuf/Seg.antt =====
-- The abstract view of a buffer: contiguous segments of byte memory, and the bytes that they hold.
use gabs.Base.{
  ℕ, zero, suc, ◌+◌, ◌-◌, ◌≤◌, ◌≡◌, refl, ap, sym, ◌∙◌, ◌≢◌, ◌⊎◌, List, [], ◌∷◌, ◌++◌, append_assoc,
  arith, length, length-append, leb, ltb, ◌&&◌, if◌then◌else◌,
}

-- Byte memory by address.
abbrev pub Mem : Type 0
Mem = ℕ → ℕ

-- `n` bytes from address `a` on.
abbrev pub slice : Mem → ℕ → ℕ → List ℕ
slice m a zero = []
slice m a (suc n) = m a ∷ slice m (a + 1) n

-- `memcpy(dst, src, n)`
unfoldable pub memcpy : ℕ → ℕ → ℕ → Mem → Mem
memcpy dst src n m a = if leb dst a && ltb a (dst + n) then m (src + (a - dst)) else m a

-- A contiguous segment: the fragment that owns it, where its bytes are, and the room round them.
pub record Seg : Type 0 where
  pub id : ℕ
  pub addr : ℕ
  pub size : ℕ
  pub head : ℕ
  pub tail : ℕ

abbrev pub total : List Seg → ℕ
total [] = 0
total (x ∷ xs) = x.size + total xs

-- The bytes of a buffer, in order.
abbrev pub contents : Mem → List Seg → List ℕ
contents m [] = []
contents m (x ∷ xs) = slice m x.addr x.size ++ contents m xs

abbrev pub NotIn : ℕ → List Seg → Type 0
NotIn p [] = Unit
NotIn p (x ∷ xs) = (p ≢ x.id) × NotIn p xs

-- No fragment of the one is a fragment of the other.
abbrev pub Apart : List Seg → List Seg → Type 0
Apart [] ys = Unit
Apart (x ∷ xs) ys = NotIn x.id ys × Apart xs ys

-- No byte of the segments lies in `[a, a + n)`.
abbrev pub Spares : ℕ → ℕ → List Seg → Type 0
Spares a n [] = Unit
Spares a n (x ∷ xs) = ((a + n ≤ x.addr) ⊎ (x.addr + x.size ≤ a)) × Spares a n xs

pub length-slice : (m : Mem) (a n : ℕ) → length (slice m a n) ≡ n
length-slice m a zero = refl
length-slice m a (suc n) = ap suc (length-slice m (a + 1) n)

pub length-contents : (m : Mem) (xs : List Seg) → length (contents m xs) ≡ total xs
length-contents m [] = refl
length-contents m (x ∷ xs) = omega (
  arith,
  length-append (slice m x.addr x.size) (contents m xs),
  length-slice m x.addr x.size,
  length-contents m xs,
)

pub total-append : (xs ys : List Seg) → total (xs ++ ys) ≡ total xs + total ys
total-append [] ys = omega arith
total-append (x ∷ xs) ys = omega (arith, total-append xs ys)

pub contents-append :
    (m : Mem) (xs ys : List Seg) → contents m (xs ++ ys) ≡ contents m xs ++ contents m ys
contents-append m [] ys = refl
contents-append m (x ∷ xs) ys = ground (
  arith,
  contents-append m xs ys,
  append_assoc (slice m x.addr x.size) (contents m xs) (contents m ys),
)

pub NotIn-same :
    (p : ℕ) (xs : List Seg) (x y : Seg) (ys : List Seg)
    → x.id ≡ y.id
    → NotIn p (xs ++ x ∷ ys)
    → NotIn p (xs ++ y ∷ ys)
NotIn-same p [] x y ys e (ne, out) = (λ q. ne (q ∙ sym e), out)
NotIn-same p (z ∷ xs) x y ys e (ne, out) = (ne, NotIn-same p xs x y ys e out)

pub NotIn-right : (p : ℕ) (xs ys : List Seg) → NotIn p (xs ++ ys) → NotIn p ys
NotIn-right p [] ys a = a
NotIn-right p (x ∷ xs) ys (ne, a) = NotIn-right p xs ys a
