-- ===== src/Alloc/Header.antt =====
-- The C++ allocator (include/gabs/alloc/std.hh), which keeps the size of a block in front of it.
use gabs.Base.{
  ℕ, ap, zero, suc, ◌+◌, ◌-◌, ◌*◌, ◌/◌, ◌%◌, ◌≤◌, ◌<◌, ◌^◌, ◌≡◌, refl, ◌∙◌, Option, some, arith,
  add64, sub64, ◌==◌, if◌then◌else◌, ==-refl, ==-false_of_ne,
}
use gabs.Base.Run.{Cmd, ok, pure, ◌>>=◌, ◌>>◌}
use gabs.Pbuf.Seg.{Mem}
use gabs.Sync.{ℤ, pos}
use gabs.Alloc.{Layout, from_handle}

-- The memory, and the rest of what the underlying allocator works on.
pub record World (S : Type 0) : Type 0 where
  pub mem : Mem
  pub rest : S

-- What is used of the underlying allocator, a parameter of the template, for an element type of one
-- byte. An exception ends the run.
pub record Underlying (S : Type 0) : Type 0 where
  pub allocate : ℕ → Cmd (World S) ℕ
  pub deallocate : ℕ → ℕ → Cmd (World S) (Unit {0})

-- `sizeof(size)`
abbrev pub size_bytes : ℕ
size_bytes = 8

-- `memcpy` from a `size_t`: its bytes, the lowest first
pub store_bytes : ℕ → ℕ → ℕ → Mem → Mem
store_bytes zero a n m = m
store_bytes (suc k) a n m = store_bytes k (a + 1) (n / 256) (λ q. if q == a then n % 256 else m q)

-- `memcpy` to a `size_t`
pub load_bytes : ℕ → ℕ → Mem → ℕ
load_bytes zero a m = 0
load_bytes (suc k) a m = m a + 256 * load_bytes k (a + 1) m

-- `Allocator::from_handle(handle)->underlying()`, of which the source works with a copy: what it
-- allocates is in the world, which copies share. Given the underlying allocators of the instances by
-- their addresses
abbrev pub owner : {S : Type 0} → Layout → (ℕ → Underlying S) → ℕ → Underlying S
owner layout instances handle = instances (from_handle layout handle)

module _ {S : Type 0} (layout : Layout) (instances : ℕ → Underlying S) where
  -- `detail::do_alloc`
  pub do_alloc : ℕ → ℕ → Cmd (World S) (ℤ × Option ℕ)
  unfolding store_bytes
  do_alloc handle size = do
    ptr ← (owner layout instances handle).allocate (add64 size_bytes size)
    λ w. ok tt (record w { mem = store_bytes size_bytes ptr size w.mem })
    pure (pos 0, some (ptr + size_bytes))

  -- `detail::do_dealloc`
  pub do_dealloc : ℕ → ℕ → Cmd (World S) ℤ
  unfolding load_bytes
  do_dealloc handle mem w =
      (do
        (owner layout instances handle).deallocate (sub64 mem size_bytes)
            (add64 size_bytes (load_bytes size_bytes (sub64 mem size_bytes) w.mem))
        pure (pos 0))
        w

-- What `k` bytes can hold.
abbrev bound : ℕ → ℕ
bound zero = 1
bound (suc k) = 256 * bound k

store_bytes-below : (k a n : ℕ) (m : Mem) (q : ℕ) → q < a → store_bytes k a n m q ≡ m q
unfolding store_bytes
store_bytes-below zero a n m q h = refl
store_bytes-below (suc k) a n m q h =
    store_bytes-below k (a + 1) (n / 256) _ q (omega arith)
    ∙ rw (==-false_of_ne q a (omega arith)) refl

load_bytes-store_bytes :
    (k a n : ℕ) (m : Mem) → n < bound k → load_bytes k a (store_bytes k a n m) ≡ n
unfolding load_bytes store_bytes
load_bytes-store_bytes zero a n m h = omega arith
load_bytes-store_bytes (suc k) a n m h =
    let m' : Mem = λ q. if q == a then n % 256 else m q in
    let first : m' a ≡ n % 256 = rw (==-refl a) refl in
    omega (
      arith,
      first,
      store_bytes-below k (a + 1) (n / 256) m' a (omega arith),
      load_bytes-store_bytes k (a + 1) (n / 256) m' (omega arith),
    )

load_bytes-agree :
    (k a : ℕ) (m m' : Mem)
    → ((q : ℕ) → a ≤ q → q < a + k → m q ≡ m' q)
    → load_bytes k a m ≡ load_bytes k a m'
unfolding load_bytes
load_bytes-agree zero a m m' same = refl
load_bytes-agree (suc k) a m m' same = omega (
  arith,
  same a (omega arith) (omega arith),
  load_bytes-agree k (a + 1) m m' (λ q low high. same q (omega arith) (omega arith)),
)

-- The memory after the block's size was stored at `p`.
abbrev pub with_size : {S : Type 0} → ℕ → ℕ → World S → World S
with_size p size w = record w { mem = store_bytes size_bytes p size w.mem }

module _ {S : Type 0} (layout : Layout) (instances : ℕ → Underlying S) where
  -- `do_alloc` asks for the size and 8 bytes, and returns status 0 and what follows those 8 bytes;
  -- `do_dealloc` of that address, from the same handle and in any state where the 8 bytes are as they were
  -- then, gives back exactly the block that was allocated, with the size that was asked for. The
  -- allocation succeeds, and the block lies in the address space.
  pub do_dealloc-do_alloc :
      (handle size p : ℕ) (w w' u : World S)
      → (owner layout instances handle).allocate (size_bytes + size) w ≡ ok p w'
      → p + (size_bytes + size) < 2 ^ 64
      → ((q : ℕ) → p ≤ q → q < p + size_bytes → u.mem q ≡ (with_size p size w').mem q)
      → (do_alloc layout instances handle size w
          ≡ ok (pos 0, some (p + size_bytes)) (with_size p size w'))
        × (do_dealloc layout instances handle (p + size_bytes) u
            ≡ (do (owner layout instances handle).deallocate p (size_bytes + size); pure (pos 0)) u)
  unfolding do_alloc do_dealloc
  do_dealloc-do_alloc handle size p w w' u got room same =
      let asked : add64 size_bytes size ≡ size_bytes + size = omega arith in
      let base : sub64 (p + size_bytes) size_bytes ≡ p = omega arith in
      let stored : load_bytes size_bytes p u.mem ≡ size =
        load_bytes-agree size_bytes p u.mem _ same
        ∙ load_bytes-store_bytes size_bytes p size w'.mem (omega arith) in
      (
        rw (asked, got) refl,
        ap
              (λ b.
                (do
                  (owner layout instances handle).deallocate b
                      (add64 size_bytes (load_bytes size_bytes b u.mem))
                  pure (pos 0))
                  u)
              base
            ∙ ap
                (λ n.
                  (do
                    (owner layout instances handle).deallocate p (add64 size_bytes n)
                    pure (pos 0))
                    u)
                stored
            ∙ ap (λ n. (do (owner layout instances handle).deallocate p n; pure (pos 0)) u) asked,
      )

  -- For the 8 greatest sizes `do_alloc` asks for fewer bytes than it then writes in front of the
  -- block, since the sum wraps around, and returns status 0 all the same, when that request succeeds.
  pub do_alloc-wraps :
      (handle size p : ℕ) (w w' : World S)
      → size < 2 ^ 64
      → 2 ^ 64 ≤ size_bytes + size
      → (owner layout instances handle).allocate (size_bytes + size - 2 ^ 64) w ≡ ok p w'
      → (size_bytes + size - 2 ^ 64 < size_bytes)
        × (do_alloc layout instances handle size w
            ≡ ok (pos 0, some (p + size_bytes)) (with_size p size w'))
  unfolding do_alloc
  do_alloc-wraps handle size p w w' fits over got =
      let asked : add64 size_bytes size ≡ size_bytes + size - 2 ^ 64 = omega arith in
      (omega arith, rw (asked, got) refl)
