-- ===== src/Pbuf/Iface.antt =====
-- The contiguous iterators that an implementation provides (include/gabs/pbuf.h, the group
-- gabs_pbuf_ci), and what a client may rely on. A buffer is named by the variable that holds it: an
-- operation that takes `gabs_pbuf *` takes the variable, one that takes `gabs_pbuf` reads it, and
-- one that returns `gabs_pbuf` is given the variable that receives it. An operation with a loop of
-- its own takes the number of rounds allowed.
use gabs.Base.{
  ℕ, suc, ◌+◌, ◌-◌, ◌≤◌, ◌<◌, ◌^◌, ◌≡◌, ◌≢◌, Bool, true, false, List, [], ◌∷◌, ◌++◌, length,
}
use gabs.Base.Run.{ok, Cmd, crash, pure}
use gabs.Pbuf.Seg.{Seg, NotIn, Apart}

abbrev pub Var : Type 0
Var = ℕ

pub record Impl : Type 1 where
  pub Heap : Type 0
  pub Ci : Type 0
  -- whether the build leaves assertions out
  pub ndebug : Bool
  pub new : Var → ℕ → ℕ → Cmd Heap (Unit {0})
  pub new_ro : Var → ℕ → ℕ → ℕ → Cmd Heap (Unit {0})
  pub okay : Var → Cmd Heap Bool
  pub ci_init : Var → Cmd Heap Ci
  pub ci_next : Ci → Cmd Heap Ci
  pub ci_eoi : Ci → Bool
  pub ci_data : Ci → Cmd Heap ℕ
  pub ci_size : Ci → Cmd Heap ℕ
  pub ci_headroom : Ci → Cmd Heap ℕ
  pub ci_tailroom : Ci → Cmd Heap ℕ
  pub ci_reserve_tail : Ci → ℕ → Cmd Heap ℕ
  pub ci_release_head : Ci → ℕ → Cmd Heap ℕ
  pub ci_release_tail : Ci → ℕ → Cmd Heap ℕ
  pub ci_insert : ℕ → Ci → Var → Cmd Heap Ci
  pub ci_remove : ℕ → Ci → Cmd Heap Ci
  pub ci_detach : ℕ → Ci → Cmd Heap (Unit {0})

-- `assert(c)`
abbrev pub assert : {S : Type 0} → Bool → Bool → Cmd S (Unit {0})
assert ndebug true = pure tt
assert true false = pure tt
assert false false = crash

-- A segment after `n` of its bytes are added at the end, or given back at either end.
abbrev pub grow_tail : ℕ → Seg → Seg
grow_tail n x = record x { size = x.size + n; tail = x.tail - n }

abbrev pub cut_head : ℕ → Seg → Seg
cut_head n x = record x { addr = x.addr + n; size = x.size - n; head = x.head + n }

abbrev pub cut_tail : ℕ → Seg → Seg
cut_tail n x = record x { size = x.size - n; tail = x.tail + n }

module _ (I : Impl) where
  open I use {
    Heap, Ci, new, new_ro, okay, ci_init, ci_next, ci_eoi, ci_data, ci_size, ci_headroom,
    ci_tailroom, ci_reserve_tail, ci_release_head, ci_release_tail, ci_insert, ci_remove, ci_detach,
  }

  pub record Laws : Type 1 where
    -- The variable holds a chain of these segments.
    pub Chain : Heap → Var → List Seg → Type 0
    -- The iterator stands in the chain of the variable, behind the first list, at the second.
    pub At : Heap → Var → Ci → List Seg → List Seg → Type 0
    -- The second heap differs from the first at most in the variable and in these fragments.
    pub Keeps : Var → List Seg → Heap → Heap → Type 0
    -- The allocator of this handle answers the next request for so many bytes with this empty
    -- segment.
    pub Offers : Heap → ℕ → ℕ → Seg → Type 0
    -- A chain of these segments can be inserted into another.
    pub Inserts : List Seg → Type 0
    pub init_lem :
        {h : Heap} {v : Var} {xs : List Seg}
        → Chain h v xs
        → (it : Ci) × (ci_init v h ≡ ok it h) × At h v it [] xs
    pub close :
        {h : Heap} {v : Var} {it : Ci} {pre post : List Seg}
        → At h v it pre post
        → Chain h v (pre ++ post)
    pub okay_nil : {h : Heap} {v : Var} → Chain h v [] → okay v h ≡ ok false h
    pub okay_cons :
        {h : Heap} {v : Var} {x : Seg} {xs : List Seg} → Chain h v (x ∷ xs) → okay v h ≡ ok true h
    pub eoi_nil :
        {h : Heap} {v : Var} {it : Ci} {pre : List Seg} → At h v it pre [] → ci_eoi it ≡ true
    pub eoi_cons :
        {h : Heap} {v : Var} {it : Ci} {pre : List Seg} {x : Seg} {post : List Seg}
        → At h v it pre (x ∷ post)
        → ci_eoi it ≡ false
    pub next_lem :
        {h : Heap} {v : Var} {it : Ci} {pre : List Seg} {x : Seg} {post : List Seg}
        → At h v it pre (x ∷ post)
        → (it' : Ci) × (ci_next it h ≡ ok it' h) × At h v it' (pre ++ x ∷ []) post
    pub data_lem :
        {h : Heap} {v : Var} {it : Ci} {pre : List Seg} {x : Seg} {post : List Seg}
        → At h v it pre (x ∷ post)
        → ci_data it h ≡ ok x.addr h
    pub size_lem :
        {h : Heap} {v : Var} {it : Ci} {pre : List Seg} {x : Seg} {post : List Seg}
        → At h v it pre (x ∷ post)
        → ci_size it h ≡ ok x.size h
    pub headroom_lem :
        {h : Heap} {v : Var} {it : Ci} {pre : List Seg} {x : Seg} {post : List Seg}
        → At h v it pre (x ∷ post)
        → ci_headroom it h ≡ ok x.head h
    pub tailroom_lem :
        {h : Heap} {v : Var} {it : Ci} {pre : List Seg} {x : Seg} {post : List Seg}
        → At h v it pre (x ∷ post)
        → ci_tailroom it h ≡ ok x.tail h
    pub reserve_tail_lem :
        {h : Heap} {v : Var} {it : Ci} {pre : List Seg} {x : Seg} {post : List Seg} (n : ℕ)
        → At h v it pre (x ∷ post)
        → n ≤ x.tail
        → (h' : Heap) × (ci_reserve_tail it n h ≡ ok (x.addr + x.size) h')
          × At h' v it pre (grow_tail n x ∷ post)
          × Keeps v (pre ++ x ∷ post) h h'
    pub release_head_lem :
        {h : Heap} {v : Var} {it : Ci} {pre : List Seg} {x : Seg} {post : List Seg} (n : ℕ)
        → At h v it pre (x ∷ post)
        → n ≤ x.size
        → (h' : Heap) × (ci_release_head it n h ≡ ok x.addr h')
          × At h' v it pre (cut_head n x ∷ post)
          × Keeps v (pre ++ x ∷ post) h h'
    pub release_tail_lem :
        {h : Heap} {v : Var} {it : Ci} {pre : List Seg} {x : Seg} {post : List Seg} (n : ℕ)
        → At h v it pre (x ∷ post)
        → n ≤ x.size
        → (h' : Heap) × (ci_release_tail it n h ≡ ok (x.addr + (x.size - n)) h')
          × At h' v it pre (cut_tail n x ∷ post)
          × Keeps v (pre ++ x ∷ post) h h'
    pub insert_lem :
        {h : Heap} {v w : Var} {it : Ci} {pre post ys : List Seg} (fuel : ℕ)
        → At h v it pre post
        → Chain h w ys
        → v ≢ w
        → Apart (pre ++ post) ys
        → Inserts ys
        → length ys < fuel
        → (it' : Ci) × (h' : Heap) × (ci_insert fuel it w h ≡ ok it' h')
          × At h' v it' pre (ys ++ post)
          × Keeps v ((pre ++ post) ++ ys) h h'
    pub remove_lem :
        {h : Heap} {v : Var} {it : Ci} {pre : List Seg} {x : Seg} {post : List Seg} (fuel : ℕ)
        → At h v it pre (x ∷ post)
        → 1 < fuel
        → (it' : Ci) × (h' : Heap) × (ci_remove fuel it h ≡ ok it' h')
          × At h' v it' pre post
          × Keeps v (pre ++ x ∷ post) h h'
    pub detach_lem :
        {h : Heap} {v : Var} {it : Ci} {pre : List Seg} {x : Seg} {post : List Seg} (fuel : ℕ)
        → At h v it pre (x ∷ post)
        → suc (length post) < fuel
        → (h' : Heap) × (ci_detach fuel it h ≡ ok tt h')
          × Chain h' v pre
          × Keeps v (pre ++ x ∷ post) h h'
    pub new_lem :
        {h : Heap} {n : ℕ} {x : Seg} (v : Var) (alloc : ℕ)
        → Offers h alloc n x
        → (h' : Heap) × (new v alloc n h ≡ ok tt h') × Chain h' v (x ∷ []) × Keeps v (x ∷ []) h h'
    pub new_ro_lem :
        {h : Heap} {x : Seg} (v : Var) (alloc addr n : ℕ)
        → Offers h alloc 0 x
        → n < 2 ^ 16
        → addr + n < 2 ^ 64
        → (h' : Heap) × (new_ro v alloc addr n h ≡ ok tt h')
          × Chain h' v (record x { addr = addr; size = n } ∷ [])
          × Keeps v (x ∷ []) h h'
    pub offers_fresh :
        {h : Heap} {alloc n : ℕ} {x : Seg} {w : Var} {ys : List Seg}
        → Offers h alloc n x
        → Chain h w ys
        → NotIn x.id ys
    pub offers_empty :
        {h : Heap} {alloc n : ℕ} {x : Seg}
        → Offers h alloc n x
        → record { size : x.size ≡ 0; head : x.head ≡ 0; tail : x.tail ≡ n }
    pub keeps_refl : {h : Heap} (v : Var) (xs : List Seg) → Keeps v xs h h
    pub keeps_trans :
        {h h' h'' : Heap} {v : Var} {xs ys : List Seg}
        → Keeps v xs h h'
        → Keeps v ys h' h''
        → ((p : ℕ) → NotIn p xs → NotIn p ys)
        → Keeps v xs h h''
    pub keeps_chain :
        {h h' : Heap} {v w : Var} {xs ys : List Seg}
        → Keeps v xs h h'
        → Chain h w ys
        → v ≢ w
        → Apart xs ys
        → Chain h' w ys
    pub keeps_at :
        {h h' : Heap} {v w : Var} {it : Ci} {xs pre post : List Seg}
        → Keeps v xs h h'
        → At h w it pre post
        → v ≢ w
        → Apart xs (pre ++ post)
        → At h' w it pre post
