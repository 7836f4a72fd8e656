-- ===== src/Pbuf/Bytes.antt =====
-- What `memcpy` leaves in byte memory, and the bytes of a buffer cut at an offset.
use gabs.Base.{
  ℕ, zero, suc, ◌+◌, ◌-◌, ◌≤◌, ◌<◌, ◌≡◌, refl, ap, ap₂, ◌∙◌, sym, ◌⊎◌, inl, inr, List, [], ◌∷◌,
  ◌++◌, append-nil, arith, take, drop, take-append_le, take-append_ge, drop-append_le,
  drop-append_ge, drop_all, ltb, if◌then◌else◌, Bool-cases,
}
use gabs.Pbuf.Seg.{
  Mem, slice, memcpy, Seg, total, contents, Spares, length-slice, length-contents, contents-append,
}

pub memcpy_in :
    (dst src n : ℕ) (m : Mem) (i : ℕ) → i < n → memcpy dst src n m (dst + i) ≡ m (src + i)
unfolding memcpy
memcpy_in dst src n m i h =
    let e : dst + i - dst ≡ i = omega arith in ground (arith, ap (λ k. m (src + k)) e)

pub memcpy_out :
    (dst src n : ℕ) (m : Mem) (a : ℕ) → (a < dst) ⊎ (dst + n ≤ a) → memcpy dst src n m a ≡ m a
unfolding memcpy
memcpy_out dst src n m a h = ground arith

pub slice_ext :
    (m m' : Mem) (a b n : ℕ)
    → ((i : ℕ) → i < n → m (a + i) ≡ m' (b + i))
    → slice m a n ≡ slice m' b n
slice_ext m m' a b zero same = refl
slice_ext m m' a b (suc n) same =
    ap₂ ◌∷◌ (ap m (omega arith) ∙ same 0 (omega arith) ∙ ap m' (omega arith)) (
      slice_ext m m' (a + 1) (b + 1) n
        λ i h. ap m (omega arith) ∙ same (i + 1) (omega arith) ∙ ap m' (omega arith))

pub slice-memcpy : (dst src n : ℕ) (m : Mem) → slice (memcpy dst src n m) dst n ≡ slice m src n
slice-memcpy dst src n m = slice_ext _ m dst src n λ i h. memcpy_in dst src n m i h

pub slice_same :
    (m m' : Mem) (a n : ℕ) → ((b : ℕ) → a ≤ b → b < a + n → m' b ≡ m b) → slice m' a n ≡ slice m a n
slice_same m m' a n same = slice_ext m' m a a n λ i h. same (a + i) (omega arith) (omega arith)

-- Memory that changes only in `[a, a + n)` keeps the bytes of segments that lie elsewhere.
pub contents_same :
    (m m' : Mem) (a n : ℕ) (xs : List Seg)
    → ((b : ℕ) → (b < a) ⊎ (a + n ≤ b) → m' b ≡ m b)
    → Spares a n xs
    → contents m' xs ≡ contents m xs
contents_same m m' a n [] same s = refl
contents_same m m' a n (x ∷ xs) same (inl before, s) =
    ap₂ ◌++◌ (slice_same m m' x.addr x.size λ b h k. same b (inr (omega arith)))
      (contents_same m m' a n xs same s)
contents_same m m' a n (x ∷ xs) same (inr behind, s) =
    ap₂ ◌++◌ (slice_same m m' x.addr x.size λ b h k. same b (inl (omega arith)))
      (contents_same m m' a n xs same s)

pub contents-memcpy :
    (dst src n : ℕ) (m : Mem) (xs : List Seg)
    → Spares dst n xs
    → contents (memcpy dst src n m) xs ≡ contents m xs
contents-memcpy dst src n m xs s =
    contents_same m _ dst n xs (λ b out. memcpy_out dst src n m b out) s

pub Spares-sub :
    (a n b k : ℕ) (xs : List Seg) → a ≤ b → b + k ≤ a + n → Spares a n xs → Spares b k xs
Spares-sub a n b k [] low high s = tt
Spares-sub a n b k (x ∷ xs) low high (inl h, s) =
    (inl (omega arith), Spares-sub a n b k xs low high s)
Spares-sub a n b k (x ∷ xs) low high (inr h, s) =
    (inr (omega arith), Spares-sub a n b k xs low high s)

pub Spares-append : (a n : ℕ) (xs ys : List Seg) → Spares a n (xs ++ ys) → Spares a n ys
Spares-append a n [] ys s = s
Spares-append a n (x ∷ xs) ys s = Spares-append a n xs ys s.1

pub slice-append : (m : Mem) (a n k : ℕ) → slice m a (n + k) ≡ slice m a n ++ slice m (a + n) k
slice-append m a zero k = ap₂ (slice m) (omega arith) (omega arith)
slice-append m a (suc n) k =
    ap (slice m a) (let e : suc n + k ≡ suc (n + k) = omega arith in e)
    ∙ ap (λ t. m a ∷ t)
        (slice-append m (a + 1) n k ∙ ap (λ b. slice m (a + 1) n ++ slice m b k) (omega arith))

pub take-slice : (m : Mem) (a n k : ℕ) → n ≤ k → take n (slice m a k) ≡ slice m a n
take-slice m a zero k h = refl
take-slice m a (suc n) zero h = absurd (omega arith)
take-slice m a (suc n) (suc k) h = ap (λ t. m a ∷ t) (take-slice m (a + 1) n k (omega arith))

pub drop-slice : (m : Mem) (a n k : ℕ) → n ≤ k → drop n (slice m a k) ≡ slice m (a + n) (k - n)
drop-slice m a zero k h = ap₂ (slice m) (omega arith) (omega arith)
drop-slice m a (suc n) zero h = absurd (omega arith)
drop-slice m a (suc n) (suc k) h =
    drop-slice m (a + 1) n k (omega arith) ∙ ap₂ (slice m) (omega arith) (omega arith)

-- The first `n` bytes of a segment of `s` bytes with more behind it.
pub take-slice-append :
    (m : Mem) (a s n : ℕ) (l : List ℕ)
    → take n (slice m a s ++ l)
      ≡ slice m a (if ltb s n then s else n) ++ take (n - (if ltb s n then s else n)) l
take-slice-append m a s n l = elim (Bool-cases (ltb s n)) [
  | inl less ↦ rw less (
      take-append_ge n (slice m a s) l (ground (arith, length-slice m a s))
      ∙ ap (λ k. slice m a s ++ take (n - k) l) (length-slice m a s))
  | inr more ↦ rw more (
      take-append_le n (slice m a s) l (ground (arith, length-slice m a s))
      ∙ take-slice m a n s (ground arith)
      ∙ sym (append-nil _)
      ∙ ap (λ k. slice m a n ++ take k l) (let e : 0 ≡ n - n = omega arith in e))
]

-- The bytes from an offset on, when that lies in the segment `x` behind `pre`.
pub drop-contents :
    (m : Mem) (offset : ℕ) (pre : List Seg) (x : Seg) (post : List Seg)
    → total pre ≤ offset
    → offset ≤ total pre + x.size
    → drop offset (contents m (pre ++ x ∷ post))
      ≡ slice m (x.addr + (offset - total pre)) (x.size - (offset - total pre)) ++ contents m post
drop-contents m offset pre x post low high =
    let here = contents m (x ∷ post) in
    ap (drop offset) (contents-append m pre (x ∷ post))
    ∙ drop-append_ge offset (contents m pre) here (omega (arith, length-contents m pre))
    ∙ ap (λ k. drop (offset - k) here) (length-contents m pre)
    ∙ drop-append_le (offset - total pre) (slice m x.addr x.size) (contents m post)
        (omega (arith, length-slice m x.addr x.size))
    ∙ ap (λ t. t ++ contents m post) (drop-slice m x.addr (offset - total pre) x.size (omega arith))

pub drop-contents_past :
    (m : Mem) (offset : ℕ) (xs : List Seg) → total xs ≤ offset → drop offset (contents m xs) ≡ []
drop-contents_past m offset xs h =
    drop_all offset (contents m xs) (omega (arith, length-contents m xs))
