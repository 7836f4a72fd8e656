-- ===== src/Alloc/Kinds.antt =====
-- The allocators of C: alloc/std.c, alloc/zephyr/zephyr_heap.c and alloc/zephyr/netbuf_alloc.c. What
-- they allocate from is a parameter.
use gabs.Base.{
  ℕ, ◌≡◌, ◌≢◌, ◌<◌, ◌^◌, refl, Bool, true, false, Option, none, some, ◌⊎◌, inl, inr, ◌==◌,
  if◌then◌else◌, ==-false_of_ne,
}
use gabs.Base.Run.{Cmd, Run, ok, and_then, pure, ◌>>=◌, ◌>>◌, Ends, ends, then-Ends}
use gabs.Pbuf.Iface.{assert}
use gabs.Sync.{ℤ, pos, negsuc, negated}
use gabs.Alloc.{
  Api, Tables, container_of, allocator_get, allocator_handle, gabs_alloc, gabs_alloc-reaches,
  gabs_alloc-dispatch, allocator_is, allocator_get-handle,
}

-- Error numbers, those of Zephyr where the systems differ.
abbrev pub enomem : ℕ
enomem = 12

abbrev pub enotsup : ℕ
enotsup = 134

-- `get_container` of the two allocators for Zephyr: `allocator` stands behind one pointer.
pub get_container : ℕ → ℕ
unfolding container_of
get_container alloc = container_of alloc 8

module _ {S : Type 0} where
  -- `std_alloc`
  pub std_alloc : (ℕ → Cmd S ℕ) → ℕ → ℕ → Cmd S (ℤ × Option ℕ)
  std_alloc malloc allocator size = do
    mem ← malloc size
    if mem == 0 then pure (negated enomem, some mem) else pure (pos 0, some mem)

  -- `std_dealloc`
  pub std_dealloc : (ℕ → Cmd S (Unit {0})) → ℕ → ℕ → Cmd S ℤ
  std_dealloc free allocator mem = do free mem; pure (pos 0)

  -- `std_api`
  abbrev pub std_api : (ℕ → Cmd S ℕ) → (ℕ → Cmd S (Unit {0})) → Api S
  std_api malloc free = record { alloc = std_alloc malloc; dealloc = std_dealloc free }

  -- `heap_alloc`, given the member `heap` of the container at an address
  pub heap_alloc : (ℕ → ℕ) → (ℕ → ℕ → Cmd S ℕ) → ℕ → ℕ → Cmd S (ℤ × Option ℕ)
  heap_alloc heap_of k_heap_alloc alloc size = do
    mem ← k_heap_alloc (heap_of (get_container (allocator_get alloc))) size
    if mem == 0 then pure (negated enomem, some mem) else pure (pos 0, some mem)

  -- `heap_dealloc`
  pub heap_dealloc : (ℕ → ℕ) → (ℕ → ℕ → Cmd S (Unit {0})) → ℕ → ℕ → Cmd S ℤ
  heap_dealloc heap_of k_heap_free alloc mem = do
    k_heap_free (heap_of (get_container (allocator_get alloc))) mem
    pure (pos 0)

  -- `gabs_zephyr_heap_alloc_api__`
  abbrev pub heap_api : (ℕ → ℕ) → (ℕ → ℕ → Cmd S ℕ) → (ℕ → ℕ → Cmd S (Unit {0})) → Api S
  heap_api heap_of k_heap_alloc k_heap_free = record {
    alloc = heap_alloc heap_of k_heap_alloc;
    dealloc = heap_dealloc heap_of k_heap_free;
  }

  -- `netbuf_alloc`, given the member `pool` of the container at an address
  pub netbuf_alloc : (ℕ → ℕ) → (ℕ → ℕ → Cmd S ℕ) → ℕ → ℕ → Cmd S (ℤ × Option ℕ)
  netbuf_alloc pool_of alloc_len alloc size = do
    buf ← alloc_len (pool_of (get_container (allocator_get alloc))) size
    if buf == 0 then pure (negated enomem, none) else pure (pos 0, some buf)

  -- `netbuf_dealloc`
  pub netbuf_dealloc : Bool → ℕ → ℕ → Cmd S ℤ
  netbuf_dealloc ndebug alloc mem = do assert ndebug false; pure (negated enotsup)

  -- `gabs_zephyr_netbuf_alloc_api__`
  abbrev pub netbuf_api : Bool → (ℕ → ℕ) → (ℕ → ℕ → Cmd S ℕ) → Api S
  netbuf_api ndebug pool_of alloc_len = record {
    alloc = netbuf_alloc pool_of alloc_len;
    dealloc = netbuf_dealloc ndebug;
  }

  -- A source of blocks returns NULL and changes nothing, or returns an address at which `Block`
  -- holds of the new state.
  abbrev pub Answers : (ℕ → S → Type 0) → S → Run S ℕ → Type 0
  Answers Block s = Ends λ p s'. ((p ≡ 0) × (s' ≡ s)) ⊎ ((p ≢ 0) × Block p s')

  -- An allocator has reported what it did: status 0 with the block in `*mem`, or -ENOMEM with NULL or
  -- nothing in it, and then nothing has changed.
  abbrev pub Reported : (ℕ → S → Type 0) → S → Run S (ℤ × Option ℕ) → Type 0
  Reported Block s = Ends λ r s'.
      ((p : ℕ) × (r ≡ (pos 0, some p)) × (p ≢ 0) × Block p s')
      ⊎ ((r.0 ≡ negsuc 11) × ((r.1 ≡ none) ⊎ (r.1 ≡ some 0)) × (s' ≡ s))

  -- what the three do with the address that they get
  abbrev report : (ℕ → Option ℕ) → ℕ → Cmd S (ℤ × Option ℕ)
  report failed p = if p == 0 then pure (negated enomem, failed p) else pure (pos 0, some p)

  report-Reported :
      (Block : ℕ → S → Type 0) (s : S) (failed : ℕ → Option ℕ) (r : Run S ℕ)
      → ((failed 0 ≡ none) ⊎ (failed 0 ≡ some 0))
      → Answers Block s r
      → Reported Block s (and_then r (report failed))
  report-Reported Block s failed r out a = then-Ends a λ p s' c. elim c [
    | inl (e, same) ↦ rw e (ends (inr (refl, out, same)))
    | inr (ne, block) ↦ rw (==-false_of_ne p 0 ne) (ends (inl (p, refl, ne, block)))
  ]

  -- Through its handle, an allocator of each kind reports what it did, when the source of its blocks
  -- returns NULL and changes nothing, or returns an address. The address of the allocator is below
  -- 2 ^ 64.
  pub gabs_alloc-Reported :
      (tables : Tables S) (ndebug : Bool) (Block : ℕ → S → Type 0) (s : S) (a n : ℕ)
      (malloc : ℕ → Cmd S ℕ) (free : ℕ → Cmd S (Unit {0})) (member_of : ℕ → ℕ)
      (from_pool : ℕ → ℕ → Cmd S ℕ) (to_pool : ℕ → ℕ → Cmd S (Unit {0}))
      → a < 2 ^ 64
      → Answers Block s (malloc n s)
      → Answers Block s (from_pool (member_of (get_container a)) n s)
      → (tables.api_at (tables.api_of a) ≡ std_api malloc free)
        ⊎ (tables.api_at (tables.api_of a) ≡ heap_api member_of from_pool to_pool)
        ⊎ (tables.api_at (tables.api_of a) ≡ netbuf_api ndebug member_of from_pool)
      → Reported Block s (gabs_alloc tables (allocator_handle a) n s)
  unfolding std_alloc heap_alloc netbuf_alloc
  gabs_alloc-Reported tables ndebug Block s a n malloc free member_of from_pool to_pool small std
        pool kind =
      elim kind [
        | inl e ↦
            rw (gabs_alloc-reaches tables a n s small, e)
              (report-Reported Block s some (malloc n s) (inr refl) std)
        | inr (inl e) ↦
            rw (gabs_alloc-reaches tables a n s small, e, allocator_get-handle a small)
              (report-Reported Block s some (from_pool (member_of (get_container a)) n s) (inr refl)
                pool)
        | inr (inr e) ↦
            rw (gabs_alloc-reaches tables a n s small, e, allocator_get-handle a small)
              (report-Reported Block s (λ p. none) (from_pool (member_of (get_container a)) n s)
                (inl refl) pool)
      ]

  -- `gabs_alloc` through the handle of an allocator of network buffers gives what the pool of that
  -- allocator answers with.
  pub netbuf-serves :
      (tables : Tables S) (ndebug : Bool) (pool_of : ℕ → ℕ) (alloc_len : ℕ → ℕ → Cmd S ℕ)
      (api a n p : ℕ) (s s' : S)
      → a < 2 ^ 64
      → tables.api_of a ≡ api
      → tables.api_at api ≡ netbuf_api ndebug pool_of alloc_len
      → alloc_len (pool_of (get_container a)) n s ≡ ok p s'
      → p ≢ 0
      → (allocator_is tables (allocator_handle a) api ≡ true)
        × (gabs_alloc tables (allocator_handle a) n s ≡ ok (pos 0, some p) s')
  unfolding netbuf_alloc
  netbuf-serves tables ndebug pool_of alloc_len api a n p s s' small is_api is_netbuf got ne = (
    (gabs_alloc-dispatch tables a n 0 api s small).3 is_api,
    rw
        (
          gabs_alloc-reaches tables a n s small,
          is_api,
          is_netbuf,
          allocator_get-handle a small,
          got,
          ==-false_of_ne p 0 ne,
        )
        refl,
  )
