-- ===== src/Pbuf/Buf/Put.antt =====
-- `gabs_pbuf_put` (pbuf/buf.c) fills the room behind the bytes of each segment in turn.
use gabs.Base.{
  ℕ, zero, suc, ◌+◌, ◌-◌, ◌≤◌, ◌<◌, ◌^◌, ◌≡◌, refl, ap, ap₂, sym, subst, ◌∙◌, ◌⊎◌, inl, inr, List,
  [], ◌∷◌, ◌++◌, append_assoc, arith, length, sub64, sub64_lem, Bool, ltb, lt→ltb, true, false,
  ◌&&◌, ==-false_of_ne,
}
use gabs.Base.Run.{Ends, ends, weaken}
use gabs.Pbuf.Seg.{Mem, slice, memcpy, Seg, contents, NotIn, NotIn-same}
use gabs.Pbuf.Bytes.{memcpy_out, slice-memcpy, slice_same, slice-append}
use gabs.Pbuf.Iface.{Var, Impl, Laws, grow_tail}
use gabs.Pbuf.Buf.{gabs_min, put_loop, put}

-- The memory of no segment, its room included, meets `[a, a + n)`.
abbrev pub Off : ℕ → ℕ → List Seg → Type 0
Off a n [] = Unit
Off a n (x ∷ xs) = ((a + n ≤ x.addr) ⊎ (x.addr + (x.size + x.tail) ≤ a)) × Off a n xs

-- The memory of the segments, their room included, is disjoint, and none of it is at NULL.
abbrev pub Roomy : List Seg → Type 0
Roomy [] = Unit
Roomy (x ∷ xs) = (0 < x.addr) × Off x.addr (x.size + x.tail) xs × Roomy xs

-- The bytes of the segments after `n` bytes at `src` have been put behind them, as many behind each
-- as there is room for.
abbrev pub fill : Mem → List Seg → ℕ → ℕ → List ℕ
fill m [] src n = []
fill m (x ∷ xs) src n =
    slice m x.addr x.size
    ++ (slice m src (gabs_min x.tail n)
        ++ fill m xs (src + gabs_min x.tail n) (n - gabs_min x.tail n))

Off-sub : (a n b k : ℕ) (xs : List Seg) → a ≤ b → b + k ≤ a + n → Off a n xs → Off b k xs
Off-sub a n b k [] low high off = tt
Off-sub a n b k (x ∷ xs) low high (inl h, off) =
    (inl (omega arith), Off-sub a n b k xs low high off)
Off-sub a n b k (x ∷ xs) low high (inr h, off) =
    (inr (omega arith), Off-sub a n b k xs low high off)

slice-memcpy_off :
    (m : Mem) (dst src n a k : ℕ)
    → (a + k ≤ dst) ⊎ (dst + n ≤ a)
    → slice (memcpy dst src n m) a k ≡ slice m a k
slice-memcpy_off m dst src n a k (inl h) =
    slice_same m _ a k λ b low high. memcpy_out dst src n m b (inl (omega arith))
slice-memcpy_off m dst src n a k (inr h) =
    slice_same m _ a k λ b low high. memcpy_out dst src n m b (inr (omega arith))

-- A write to memory that is neither the segments' nor the source's changes nothing here.
fill-memcpy :
    (m : Mem) (dst from c : ℕ) (xs : List Seg) (src n : ℕ)
    → Off dst c xs
    → (src + n ≤ dst) ⊎ (dst + c ≤ src)
    → fill (memcpy dst from c m) xs src n ≡ fill m xs src n
fill-memcpy m dst from c [] src n off away = refl
fill-memcpy m dst from c (x ∷ xs) src n (here, off) away =
    ap₂ ◌++◌ (slice-memcpy_off m dst from c x.addr x.size (ground arith)) (
      ap₂ ◌++◌ (slice-memcpy_off m dst from c src (gabs_min x.tail n) (ground arith)) (
        fill-memcpy m dst from c xs (src + gabs_min x.tail n) (n - gabs_min x.tail n) off
          (ground arith)))

fill_none : (m : Mem) (xs : List Seg) (src n : ℕ) → n ≡ 0 → fill m xs src n ≡ contents m xs
fill_none m [] src n e = refl
fill_none m (x ∷ xs) src n e =
    ap (λ l. slice m x.addr x.size ++ l)
      (ap₂ ◌++◌ (ap (slice m src) (let k : gabs_min x.tail n ≡ 0 = ground arith in k))
        (fill_none m xs _ (n - gabs_min x.tail n) (ground arith)))

and-false : (b : Bool) → (b && false) ≡ false
and-false true = refl
and-false false = refl

-- The segment that got `c` bytes from `src`, when what follows was filled from the memory after it.
slice-grown :
    (m m' : Mem) (x : Seg) (c src : ℕ) (post : List Seg)
    → c ≤ x.tail
    → Off x.addr (x.size + x.tail) post
    → ((a : ℕ) → Off a 1 post → m' a ≡ memcpy (x.addr + x.size) src c m a)
    → slice m' x.addr (x.size + c) ≡ slice m x.addr x.size ++ slice m src c
slice-grown m m' x c src post room out same =
    slice_same (memcpy (x.addr + x.size) src c m) m' x.addr (x.size + c)
      (λ b low high. same b (Off-sub x.addr (x.size + x.tail) b 1 post low (omega arith) out))
    ∙ slice-append (memcpy (x.addr + x.size) src c m) x.addr x.size c
    ∙ ap₂ ◌++◌ (slice-memcpy_off m (x.addr + x.size) src c x.addr x.size (inl (omega arith)))
        (slice-memcpy (x.addr + x.size) src c m)

fill-grown :
    (m m' : Mem) (x : Seg) (src n : ℕ) (post zs : List Seg)
    → n < 2 ^ 64
    → Off x.addr (x.size + x.tail) post
    → (src + n ≤ x.addr) ⊎ (x.addr + (x.size + x.tail) ≤ src)
    → ((a : ℕ) → Off a 1 post → m' a ≡ memcpy (x.addr + x.size) src (gabs_min x.tail n) m a)
    → contents m' zs
      ≡ fill
          (memcpy (x.addr + x.size) src (gabs_min x.tail n) m)
          post
          (src + gabs_min x.tail n)
          (sub64 n (gabs_min x.tail n))
    → contents m' (grow_tail (gabs_min x.tail n) x ∷ zs) ≡ fill m (x ∷ post) src n
fill-grown m m' x src n post zs small out away same held =
    let c = gabs_min x.tail n in
    let dst = x.addr + x.size in
    let room : c ≤ x.tail = ground arith in
    let least : c ≤ n = ground arith in
    let left = sub64_lem n c small least in
    ap₂ ◌++◌ (slice-grown m m' x c src post room out same) (
      held
      ∙ ap (fill (memcpy dst src c m) post (src + c)) left
      ∙ fill-memcpy m dst src c post (src + c) (n - c)
          (Off-sub x.addr (x.size + x.tail) dst c post (omega arith) (omega arith) out)
          (ground arith))
    ∙ append_assoc (slice m x.addr x.size) (slice m src c) (fill m post (src + c) (n - c))

beyond :
    (x : Seg) (c a : ℕ)
    → (a + 1 ≤ x.addr) ⊎ (x.addr + (x.size + x.tail) ≤ a)
    → c ≤ x.tail
    → (a < x.addr + x.size) ⊎ (x.addr + x.size + c ≤ a)
beyond x c a (inl h) room = inl (omega arith)
beyond x c a (inr h) room = inr (omega arith)

module _ {I : Impl} (L : Laws I) where
  open I use {Heap, Ci, ndebug}
  open L use {
    Chain, At, Keeps, init_lem, close, eoi_nil, eoi_cons, next_lem, tailroom_lem, reserve_tail_lem,
    keeps_refl, keeps_trans,
  }

  -- The segments `post` behind `pre` now hold `bytes`; only their memory has been written, and only
  -- the buffer and its fragments have changed.
  abbrev pub Filled : Heap → Var → (pre post : List Seg) → Mem → List ℕ → Mem → Heap → Type 0
  Filled h v pre post m bytes m' h' =
      (zs : List Seg) × Chain h' v (pre ++ zs)
      × (contents m' zs ≡ bytes)
      × ((a : ℕ) → Off a 1 post → m' a ≡ m a)
      × Keeps v (pre ++ post) h h'

  put_loop-Filled :
      (k src n : ℕ) (m : Mem) {h : Heap} {v : Var} {it : Ci} (pre post : List Seg)
      → At h v it pre post
      → length post < k
      → n < 2 ^ 64
      → Roomy post
      → Off src n post
      → Ends (Filled h v pre post m (fill m post src n)) (put_loop I k it src n m h)
  unfolding put_loop
  put_loop-Filled zero src n m pre post at fuel small roomy off = absurd (omega arith)
  put_loop-Filled (suc k) src n m {v} pre [] at fuel small roomy off =
      rw (eoi_nil at, and-false (ltb 0 n))
        (ends ([], close at, refl, λ a o. refl, keeps_refl v (pre ++ [])))
  put_loop-Filled (suc k) src zero m {v} pre (x ∷ post) at fuel small roomy off = ends (
    x ∷ post,
    close at,
    sym (fill_none m (x ∷ post) src 0 refl),
    λ a o. refl,
    keeps_refl v (pre ++ x ∷ post),
  )
  put_loop-Filled (suc k) src (suc n') m {h} {v} pre (x ∷ post) at fuel small (addr, out, roomy)
        (away, off) =
      let n = suc n' in
      let c = gabs_min x.tail n in
      let dst = x.addr + x.size in
      let (h1, run, at1, keeps1) = reserve_tail_lem c at (ground arith) in
      let (it', step, at') = next_lem at1 in
      rw
        (
          lt→ltb 0 n (omega arith),
          eoi_cons at,
          tailroom_lem at,
          run,
          ==-false_of_ne dst 0 (omega arith),
          step,
        )
        (weaken
          (put_loop-Filled k (src + c) (sub64 n c) (memcpy dst src c m) (pre ++ grow_tail c x ∷ [])
            post at' (omega arith) (omega arith) roomy
            (Off-sub src n (src + c) (sub64 n c) post (omega arith) (ground (arith, sub64_lem n c))
              off))
          λ m' h' (zs, chain, held, same, keeps). (
            grow_tail c x ∷ zs,
            subst (Chain h' v) (append_assoc pre (grow_tail c x ∷ []) zs) chain,
            fill-grown m m' x src n post zs small out away same held,
            λ a (o, os). same a os ∙ memcpy_out dst src c m a (beyond x c a o (ground arith)),
            keeps_trans keeps1 keeps λ p out'.
                subst (NotIn p) (sym (append_assoc pre (grow_tail c x ∷ []) post))
                  (NotIn-same p pre x (grow_tail c x) post refl out'),
          ))

  -- `gabs_pbuf_put` ends, with the buffer's segments a list whose bytes are: behind the old bytes of
  -- each segment as many of the `n` bytes at `src` as its tailroom takes, in turn until they run
  -- out. No memory but the segments' and no heap but the buffer's has changed. There are more rounds
  -- than segments, `n` is a `size_t`, the memory of the segments (their tailroom included) is
  -- disjoint and not at NULL, and the `n` bytes at `src` are outside of it.
  pub put-Filled :
      (fuel src n : ℕ) (m : Mem) {h : Heap} {v : Var} {xs : List Seg}
      → Chain h v xs
      → length xs < fuel
      → n < 2 ^ 64
      → Roomy xs
      → Off src n xs
      → Ends (Filled h v [] xs m (fill m xs src n)) (put I fuel v src n m h)
  unfolding put
  put-Filled fuel src n m {v} {xs} chain enough small roomy off =
      let (it, run, at) = init_lem chain in
      rw run (put_loop-Filled fuel src n m [] xs at enough small roomy off)
