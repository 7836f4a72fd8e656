-- ===== src/Alloc.antt =====
-- Allocators (include/gabs/alloc.h, alloc/alloc.c, include/gabs/cc/handle.hh, include/gabs/alloc.hh):
-- a handle is the address of a member of an allocator, through which calls reach the functions of
-- its API. Addresses are numbers below 2 ^ 64.
pub mod Kinds
pub mod Header
mod Examples
use gabs.Base.{
  ℕ, ◌+◌, ◌<◌, ◌^◌, ◌≡◌, refl, ap, Bool, true, false, Option, arith, add64, sub64, ◌==◌,
}
use gabs.Base.Run.{Cmd, ok}
use gabs.Sync.{ℤ}

-- `struct gabs_allocator_api`. A function gets the handle; `alloc` returns its status, and what it
-- has written to `*mem`, `none` for nothing.
pub record Api (S : Type 0) : Type 0 where
  pub alloc : ℕ → ℕ → Cmd S (ℤ × Option ℕ)
  pub dealloc : ℕ → ℕ → Cmd S ℤ

-- `gabs_container_of`, and `container_of` of gabs::core: the object that has the member at an offset
pub container_of : ℕ → ℕ → ℕ
container_of ptr offset = sub64 ptr offset

-- the member `handle` of `struct gabs_allocator` stands behind its member `api`
abbrev pub handle_offset : ℕ
handle_offset = 8

-- `GABS_ALLOCATOR_HANDLE`
pub allocator_handle : ℕ → ℕ
allocator_handle allocator = add64 allocator handle_offset

-- `GABS_ALLOCATOR_GET`
pub allocator_get : ℕ → ℕ
unfolding container_of
allocator_get handle = container_of handle handle_offset

-- The constant allocators and APIs of a program: the member `api` of the `struct gabs_allocator` at
-- an address, and the API at an address.
pub record Tables (S : Type 0) : Type 0 where
  pub api_of : ℕ → ℕ
  pub api_at : ℕ → Api S

module _ {S : Type 0} (tables : Tables S) where
  -- `gabs_alloc`
  pub gabs_alloc : ℕ → ℕ → Cmd S (ℤ × Option ℕ)
  gabs_alloc allocator size =
      (tables.api_at (tables.api_of (allocator_get allocator))).alloc allocator size

  -- `gabs_dealloc`
  pub gabs_dealloc : ℕ → ℕ → Cmd S ℤ
  gabs_dealloc allocator mem =
      (tables.api_at (tables.api_of (allocator_get allocator))).dealloc allocator mem

  -- `gabs_allocator_is`
  pub allocator_is : ℕ → ℕ → Bool
  allocator_is allocator api = tables.api_of (allocator_get allocator) == api

pub container_of-member :
    (a offset : ℕ) → a < 2 ^ 64 → offset < 2 ^ 64 → container_of (add64 a offset) offset ≡ a
unfolding container_of
container_of-member a offset h k = omega arith

pub allocator_get-handle : (a : ℕ) → a < 2 ^ 64 → allocator_get (allocator_handle a) ≡ a
unfolding allocator_get allocator_handle container_of
allocator_get-handle a h = omega arith

-- `handle_wrapper` and `allocator_handle` of C++: where in the wrapper the member `handle_` stands,
-- in that the member `alloc_`, and in the object of the class `T` the wrapper, its base.
pub record Layout : Type 0 where
  pub base : ℕ
  pub handle_member : ℕ
  pub alloc_member : ℕ

-- `allocator_handle::to` and `allocator_handle::from`
pub handle_to : Layout → ℕ → ℕ
unfolding allocator_handle
handle_to l this = allocator_handle (add64 this l.alloc_member)

pub handle_from : Layout → ℕ → ℕ
unfolding allocator_get container_of
handle_from l h = container_of (allocator_get h) l.alloc_member

-- the conversion of an object to a handle
pub to_handle : Layout → ℕ → ℕ
unfolding handle_to
to_handle l this = handle_to l (add64 (add64 this l.base) l.handle_member)

-- `handle_wrapper::from_handle`
pub from_handle : Layout → ℕ → ℕ
unfolding handle_from container_of
from_handle l h = container_of (container_of (handle_from l h) l.handle_member) l.base

-- `simple_handle_trait`: `to` and `from`, with the offset of its member
pub trait_to : ℕ → ℕ → ℕ
trait_to offset this = add64 this offset

pub trait_from : ℕ → ℕ → ℕ
unfolding container_of
trait_from offset h = container_of h offset

-- The object from which a handle was made is the one that `from_handle` gives back, for a wrapper of
-- an allocator with any layout, and likewise for `simple_handle_trait`. The address and the offsets
-- are below 2 ^ 64.
pub from_handle-to_handle :
    (l : Layout) (this offset : ℕ)
    → this < 2 ^ 64
    → l.base < 2 ^ 64
    → l.handle_member < 2 ^ 64
    → l.alloc_member < 2 ^ 64
    → offset < 2 ^ 64
    → (from_handle l (to_handle l this) ≡ this) × (trait_from offset (trait_to offset this) ≡ this)
unfolding from_handle to_handle handle_from handle_to trait_from trait_to allocator_get
    allocator_handle container_of
from_handle-to_handle l this offset h hb hm ha ho = (omega arith, omega arith)

module _ {S : Type 0} (tables : Tables S) where
  pub gabs_alloc-reaches :
      (a n : ℕ) (s : S)
      → a < 2 ^ 64
      → gabs_alloc tables (allocator_handle a) n s
        ≡ (tables.api_at (tables.api_of a)).alloc (allocator_handle a) n s
  unfolding gabs_alloc
  gabs_alloc-reaches a n s h =
      ap (λ b. (tables.api_at (tables.api_of b)).alloc (allocator_handle a) n s)
        (allocator_get-handle a h)

  -- A call through the handle of an allocator reaches the functions of the API that it was
  -- initialised with, with that handle, and `gabs_allocator_is` tells that API from all others. The
  -- address of the allocator is below 2 ^ 64.
  pub gabs_alloc-dispatch :
      (a n mem api : ℕ) (s : S)
      → a < 2 ^ 64
      → (gabs_alloc tables (allocator_handle a) n s
          ≡ (tables.api_at (tables.api_of a)).alloc (allocator_handle a) n s)
        × (gabs_dealloc tables (allocator_handle a) mem s
            ≡ (tables.api_at (tables.api_of a)).dealloc (allocator_handle a) mem s)
        × (allocator_is tables (allocator_handle a) api ≡ true → tables.api_of a ≡ api)
        × (tables.api_of a ≡ api → allocator_is tables (allocator_handle a) api ≡ true)
  unfolding gabs_dealloc allocator_is
  gabs_alloc-dispatch a n mem api s h =
      let get = allocator_get-handle a h in
      (
        gabs_alloc-reaches a n s h,
        ap (λ b. (tables.api_at (tables.api_of b)).dealloc (allocator_handle a) mem s) get,
        λ e. ground (arith, ap tables.api_of get),
        λ e. ground (arith, ap tables.api_of get),
      )
