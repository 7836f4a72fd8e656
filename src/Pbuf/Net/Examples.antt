-- ===== src/Pbuf/Net/Examples.antt =====
-- The theorems on pbuf/zephyr/net_buf.c at a concrete heap, with calls that behave as documented.
use gabs.Base.{ℕ, ◌<◌, ◌≡◌, refl, false, some, [], ◌∷◌, arith}
use gabs.Base.Run.{Cmd, ok}
use gabs.Alloc.{Tables, allocator_handle}
use gabs.Alloc.Kinds.{netbuf_api, netbuf-serves}
use gabs.Pbuf.Seg.{Seg}
use gabs.Pbuf.Basic.{Frag, Heap, update}
use gabs.Pbuf.Basic.Leads.{seg}
use gabs.Pbuf.Basic.At.{Chain, Keeps}
use gabs.Pbuf.NetBuf.{Calls}
use gabs.Pbuf.NetBuf.Plain.{plain, plain-Documented}
use gabs.Pbuf.Net.Laws.{net_laws}
use gabs.Pbuf.Buf.{pbuf_size}
use gabs.Pbuf.Buf.Size.{pbuf_size-total}
use gabs.Pbuf.Net.{Ci, net, new_ro, ci_insert, ci_remove}
use gabs.Pbuf.Net.At.{At}
use gabs.Pbuf.Net.Alloc.{Offers, new_ro-Chain}
use gabs.Pbuf.Net.Splice.{ci_insert-At}
use gabs.Pbuf.Net.Cut.{ci_remove-At}
use gabs.Pbuf.Examples.{heap, seg_a, seg_b, seg_c, ab, ab-Chain, c-Chain, it_b-At}

-- A new buffer of `n` bytes at 5000.
abbrev fresh : ℕ → Frag
fresh n = record {
  base = 5056;
  payload = 5056;
  size = 0;
  cap = n;
  readonly = false;
  refcnt = 1;
  next = 0;
  alloc = 7;
}

abbrev pool : ℕ → ℕ → Cmd Heap ℕ
pool p n h = ok 5000 (record h { frags = update h.frags 5000 (some (fresh n)) })

-- The allocator at 256 has the API at 64, that of network buffers.
abbrev tables : Tables Heap
tables = record { api_of = λ a. 64; api_at = λ a. netbuf_api false (λ c. 7) pool }

abbrev calls : Calls
calls = record plain { alloc_len = pool }

abbrev seg_new : ℕ → Seg
seg_new n = seg 5000 (fresh n)

heap-Offers : (n : ℕ) → n < 100 → Offers tables 64 heap (allocator_handle 256) n (seg_new n)
heap-Offers n small =
    let (is, answers) =
      netbuf-serves tables false (λ c. 7) pool 64 256 n 5000 heap _ (omega arith) refl refl refl
        (omega arith) in
    record {
      frag = fresh n;
      after = record heap { frags = update heap.frags 5000 (some (fresh n)) };
      is_api = is;
      answers = answers;
      made = refl;
      others = λ p (ne, _). ground arith;
      vars = λ w. refl;
      unused = refl;
      ne_null = omega arith;
      end = refl;
      fits = omega arith;
      is = refl;
      size = refl;
      head = refl;
      tail = omega arith;
    }

new_ro-Chain_example :
    (h' : Heap) × (new_ro false plain tables 64 3 (allocator_handle 256) 9000 65548 heap ≡ ok tt h')
    × Chain h' 3 (record (seg_new 0) { addr = 9000; size = 12 } ∷ [])
    × Keeps 3 (seg_new 0 ∷ []) heap h'
new_ro-Chain_example =
    new_ro-Chain tables 64 false plain 3 (allocator_handle 256) plain-Documented 9000 65548
      (heap-Offers 0 (omega arith)) (omega arith)

abbrev it_a : Ci
it_a = record { head = 1; prev = 0; cur = 100 }

abbrev it_b : Ci
it_b = record { head = 1; prev = 100; cur = 200 }

a-At : At heap 1 it_a [] ab
a-At = record {
  front = refl;
  back = ab-Chain.path;
  head = refl;
  prev = refl;
  distinct = ab-Chain.distinct;
}

b-At : At heap 1 it_b (seg_a ∷ []) (seg_b ∷ [])
b-At = record {
  front = it_b-At.front;
  back = it_b-At.back;
  head = refl;
  prev = refl;
  distinct = it_b-At.distinct;
}

ci_insert-At_example :
    (it' : Ci) × (h' : Heap) × (ci_insert false plain tables 64 2 it_b 2 heap ≡ ok it' h')
    × At h' 1 it' (seg_a ∷ []) (seg_c ∷ seg_b ∷ [])
    × Keeps 1 (seg_a ∷ seg_b ∷ seg_c ∷ []) heap h'
ci_insert-At_example =
    ci_insert-At false plain tables 64 plain-Documented 2 seg_c [] b-At c-Chain (omega arith)
      (omega arith) (omega arith)

ci_remove-At_example :
    (it' : Ci) × (h' : Heap) × (ci_remove false plain tables 64 2 it_b heap ≡ ok it' h')
    × At h' 1 it' (seg_a ∷ []) []
    × Keeps 1 ab heap h'
ci_remove-At_example = ci_remove-At false plain tables 64 plain-Documented 2 b-At (omega arith)

-- Zephyr's buffers keep the laws of the interface, so that the operations of pbuf/buf.c run on them.
pbuf_size-runs : pbuf_size (net false plain tables 64) 3 1 heap ≡ ok 5 heap
unfolding net_laws
pbuf_size-runs =
    pbuf_size-total (net_laws false plain tables 64 plain-Documented) 3 ab ab-Chain (omega arith)
      (omega arith)
