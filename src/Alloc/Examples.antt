-- ===== src/Alloc/Examples.antt =====
-- A bump allocator and a table of one allocator, and the theorems on allocators at them.
use gabs.Base.{ℕ, ◌+◌, ◌-◌, ◌<◌, ◌^◌, ◌≡◌, refl, false, some, arith, inr, if◌then◌else◌, ◌==◌}
use gabs.Base.Run.{Cmd, ok, pure, ◌>>◌, ends}
use gabs.Sync.{pos}
use gabs.Alloc.{Tables, Layout, allocator_handle, gabs_alloc}
use gabs.Alloc.Kinds.{Reported, netbuf_api, gabs_alloc-Reported}
use gabs.Alloc.Header.{
  World, Underlying, size_bytes, with_size, do_alloc, do_dealloc, do_dealloc-do_alloc,
  do_alloc-wraps,
}

-- The state is the address of the next block; 0 when there is none.
abbrev from_pool : ℕ → ℕ → Cmd ℕ ℕ
from_pool pool n next = ok next (next + n)

abbrev tables : Tables ℕ
tables = record { api_of = λ a. 64; api_at = λ a. netbuf_api false (λ c. 5) from_pool }

abbrev layout : Layout
layout = record { base = 0; handle_member = 0; alloc_member = 0 }

gabs_alloc-Reported_example :
    Reported (λ p next. p < next) 1000 (gabs_alloc tables (allocator_handle 256) 24 1000)
gabs_alloc-Reported_example =
    gabs_alloc-Reported tables false (λ p next. p < next) 1000 256 24 (from_pool 0) (λ p. pure tt)
      (λ c. 5) from_pool (λ pool p. pure tt) (omega arith) (ends (inr (omega arith, omega arith)))
      (ends (inr (omega arith, omega arith))) (inr (inr refl))

abbrev bump : Underlying ℕ
bump = record {
  allocate = λ n w. ok w.rest (record w { rest = w.rest + n });
  deallocate = λ p n w. ok tt (record w { rest = if p + n == w.rest then p else w.rest });
}

abbrev start : World ℕ
start = record { mem = λ q. 170; rest = 4096 }

abbrev after : ℕ → World ℕ
after n = record start { rest = 4096 + n }

do_dealloc-do_alloc_example :
    (do_alloc layout (λ a. bump) 1 300 start
      ≡ ok (pos 0, some 4104) (with_size 4096 300 (after 308)))
    × (do_dealloc layout (λ a. bump) 1 4104 (with_size 4096 300 (after 308))
        ≡ (do bump.deallocate 4096 308; pure (pos 0)) (with_size 4096 300 (after 308)))
do_dealloc-do_alloc_example =
    do_dealloc-do_alloc layout (λ a. bump) 1 300 4096 start (after 308)
      (with_size 4096 300 (after 308)) refl (omega arith) (λ q low high. refl)

do_alloc-wraps_example :
    (size_bytes + (2 ^ 64 - 5) - 2 ^ 64 < size_bytes)
    × (do_alloc layout (λ a. bump) 1 (2 ^ 64 - 5) start
        ≡ ok (pos 0, some (4096 + size_bytes)) (with_size 4096 (2 ^ 64 - 5) (after 3)))
do_alloc-wraps_example =
    do_alloc-wraps layout (λ a. bump) 1 (2 ^ 64 - 5) 4096 start (after 3) (omega arith)
      (omega arith) refl
