-- ===== src/Base/Lists.antt =====
-- Lists measured, cut and indexed by native numbers, under the library's names.
use Prim.Native.Nat.{ℕ, zero, suc, ◌+◌, ◌-◌, ◌≤◌, min}
use mathlib.Core.Path.{◌≡◌, refl, ap}
use mathlib.Core.List.{List, [], ◌∷◌, ◌++◌}
use mathlib.Core.Option.{Option, none, some, none-ne-some, some-injective}
use mathlib.Core.Logic.{◌≢◌, ◌⊎◌, inl, inr}
use native.Mathlib.Omega.{arith}

module _ {ℓ} {A : Type ℓ} where
  abbrev pub length : List A → ℕ
  length [] = 0
  length (x ∷ xs) = suc (length xs)

  abbrev pub take : ℕ → List A → List A
  take zero xs = []
  take (suc n) [] = []
  take (suc n) (x ∷ xs) = x ∷ take n xs

  abbrev pub drop : ℕ → List A → List A
  drop zero xs = xs
  drop (suc n) [] = []
  drop (suc n) (x ∷ xs) = drop n xs

  abbrev pub get_elem? : List A → ℕ → Option A
  get_elem? [] i = none
  get_elem? (x ∷ xs) zero = some x
  get_elem? (x ∷ xs) (suc i) = get_elem? xs i

  abbrev pub set : List A → ℕ → A → List A
  set [] i v = []
  set (x ∷ xs) zero v = v ∷ xs
  set (x ∷ xs) (suc i) v = x ∷ set xs i v

  pub length-append : (xs ys : List A) → length (xs ++ ys) ≡ length xs + length ys
  length-append [] ys = omega arith
  length-append (x ∷ xs) ys = omega (arith, length-append xs ys)

  pub length-take : (n : ℕ) (xs : List A) → length (take n xs) ≡ min n (length xs)
  length-take zero xs = omega arith
  length-take (suc n) [] = omega arith
  length-take (suc n) (x ∷ xs) = omega (arith, length-take n xs)

  pub length-drop : (n : ℕ) (xs : List A) → length (drop n xs) ≡ length xs - n
  length-drop zero xs = omega arith
  length-drop (suc n) [] = omega arith
  length-drop (suc n) (x ∷ xs) = omega (arith, length-drop n xs)

  pub length-set : (xs : List A) (i : ℕ) (v : A) → length (set xs i v) ≡ length xs
  length-set [] i v = refl
  length-set (x ∷ xs) zero v = refl
  length-set (x ∷ xs) (suc i) v = ap suc (length-set xs i v)

  pub drop-append_ge :
      (n : ℕ) (xs ys : List A) → length xs ≤ n → drop n (xs ++ ys) ≡ drop (n - length xs) ys
  drop-append_ge n [] ys h = ap (λ k. drop k ys) (omega arith)
  drop-append_ge zero (x ∷ xs) ys h = absurd (omega arith)
  drop-append_ge (suc n) (x ∷ xs) ys h = ground (arith, drop-append_ge n xs ys)

  pub drop-append_le :
      (n : ℕ) (xs ys : List A) → n ≤ length xs → drop n (xs ++ ys) ≡ drop n xs ++ ys
  drop-append_le zero xs ys h = refl
  drop-append_le (suc n) [] ys h = absurd (omega arith)
  drop-append_le (suc n) (x ∷ xs) ys h = drop-append_le n xs ys (omega arith)

  pub take-append_ge :
      (n : ℕ) (xs ys : List A) → length xs ≤ n → take n (xs ++ ys) ≡ xs ++ take (n - length xs) ys
  take-append_ge n [] ys h = ap (λ k. take k ys) (omega arith)
  take-append_ge zero (x ∷ xs) ys h = absurd (omega arith)
  take-append_ge (suc n) (x ∷ xs) ys h = ground (arith, take-append_ge n xs ys)

  pub take-append_le : (n : ℕ) (xs ys : List A) → n ≤ length xs → take n (xs ++ ys) ≡ take n xs
  take-append_le zero xs ys h = refl
  take-append_le (suc n) [] ys h = absurd (omega arith)
  take-append_le (suc n) (x ∷ xs) ys h = ap (λ t. x ∷ t) (take-append_le n xs ys (omega arith))

  pub take_all : (n : ℕ) (xs : List A) → length xs ≤ n → take n xs ≡ xs
  take_all zero [] h = refl
  take_all zero (x ∷ xs) h = absurd (omega arith)
  take_all (suc n) [] h = refl
  take_all (suc n) (x ∷ xs) h = ap (λ t. x ∷ t) (take_all n xs (omega arith))

  pub drop_all : (n : ℕ) (xs : List A) → length xs ≤ n → drop n xs ≡ []
  drop_all zero [] h = refl
  drop_all zero (x ∷ xs) h = absurd (omega arith)
  drop_all (suc n) [] h = refl
  drop_all (suc n) (x ∷ xs) h = drop_all n xs (omega arith)

  pub take-nil : (n : ℕ) → ◌≡◌ {A = List A} (take n []) []
  take-nil zero = refl
  take-nil (suc n) = refl

  pub take_zero : (n : ℕ) (xs : List A) → n ≡ 0 → take n xs ≡ []
  take_zero zero xs e = refl
  take_zero (suc n) xs e = absurd (omega arith)

  pub get_elem?-left :
      (xs : List A) (y : A) (j : ℕ) {x : A}
      → get_elem? xs j ≡ some x
      → get_elem? (xs ++ y ∷ []) j ≡ some x
  get_elem?-left [] y j e = absurd (none-ne-some _ e)
  get_elem?-left (z ∷ xs) y zero e = e
  get_elem?-left (z ∷ xs) y (suc j) e = get_elem?-left xs y j e

  pub get_elem?-end : (xs : List A) (y : A) → get_elem? (xs ++ y ∷ []) (length xs) ≡ some y
  get_elem?-end [] y = refl
  get_elem?-end (z ∷ xs) y = get_elem?-end xs y

  pub get_elem?-snoc :
      (xs : List A) (y : A) (j : ℕ) {x : A}
      → get_elem? (xs ++ y ∷ []) j ≡ some x
      → (get_elem? xs j ≡ some x) ⊎ (y ≡ x)
  get_elem?-snoc [] y zero e = inr (some-injective _ _ e)
  get_elem?-snoc [] y (suc j) e = absurd (none-ne-some _ e)
  get_elem?-snoc (z ∷ xs) y zero e = inl e
  get_elem?-snoc (z ∷ xs) y (suc j) e = get_elem?-snoc xs y j e

  pub get_elem?-set :
      (xs : List A) (i : ℕ) (v : A) (j : ℕ) {y : A}
      → get_elem? (set xs i v) j ≡ some y
      → ((j ≡ i) × (v ≡ y)) ⊎ ((j ≢ i) × (get_elem? xs j ≡ some y))
  get_elem?-set [] i v j e = absurd (none-ne-some _ e)
  get_elem?-set (x ∷ xs) zero v zero e = inl (refl, some-injective _ _ e)
  get_elem?-set (x ∷ xs) zero v (suc j) e = inr (omega arith, e)
  get_elem?-set (x ∷ xs) (suc i) v zero e = inr (omega arith, e)
  get_elem?-set (x ∷ xs) (suc i) v (suc j) e = elim (get_elem?-set xs i v j e) [
    | inl (same, is) ↦ inl (ap suc same, is)
    | inr (ne, old) ↦ inr (omega arith, old)
  ]

  pub get_elem?-set_same :
      (xs : List A) (i : ℕ) (v : A) {x : A}
      → get_elem? xs i ≡ some x
      → get_elem? (set xs i v) i ≡ some v
  get_elem?-set_same [] i v e = absurd (none-ne-some _ e)
  get_elem?-set_same (x ∷ xs) zero v e = refl
  get_elem?-set_same (x ∷ xs) (suc i) v e = get_elem?-set_same xs i v e

  pub get_elem?-set_ne :
      (xs : List A) (i : ℕ) (v : A) (j : ℕ) → j ≢ i → get_elem? (set xs i v) j ≡ get_elem? xs j
  get_elem?-set_ne [] i v j ne = refl
  get_elem?-set_ne (x ∷ xs) zero v zero ne = absurd (ne refl)
  get_elem?-set_ne (x ∷ xs) zero v (suc j) ne = refl
  get_elem?-set_ne (x ∷ xs) (suc i) v zero ne = refl
  get_elem?-set_ne (x ∷ xs) (suc i) v (suc j) ne = get_elem?-set_ne xs i v j (omega arith)
