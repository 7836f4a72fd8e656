-- ===== src/Pbuf/Basic/Leads.antt =====
-- Fragments linked by `next` (pbuf/basic/basic.c) as a list of segments, and what survives a write.
use gabs.Base.{
  ℕ, ◌+◌, ◌-◌, ◌≤◌, ◌<◌, ◌^◌, ◌≡◌, ◌≢◌, sym, ap, subst, ◌∙◌, Option, some, List, [], ◌∷◌, ◌++◌,
  ==-false_of_ne,
}
use gabs.Pbuf.Seg.{Seg, NotIn, Apart, NotIn-right}
use gabs.Pbuf.Basic.{Ptr, null, Frag, update}

abbrev pub Frags : Type 0
Frags = Ptr → Option Frag

-- What a fragment at an address stands for.
abbrev pub seg : Ptr → Frag → Seg
seg p f = record {
  id = p;
  addr = f.payload;
  size = f.size;
  head = f.payload - f.base;
  tail = f.base + f.cap - (f.payload + f.size);
}

-- The used bytes lie inside the capacity, which lies inside the address space.
pub record Fits (f : Frag) : Type 0 where
  pub low : f.base ≤ f.payload
  pub high : f.payload + f.size ≤ f.base + f.cap
  pub small : f.base + f.cap < 2 ^ 64

-- The fragment `f` lives at `p` and stands for `x`.
pub record Node (F : Frags) (p : Ptr) (x : Seg) (f : Frag) : Type 0 where
  pub ne_null : p ≢ null
  pub holds : F p ≡ some f
  pub is : x ≡ seg p f
  pub fits : Fits f

-- From `p` the fragments lead through these segments to `stop`.
abbrev pub Leads : Frags → Ptr → List Seg → Ptr → Type 0
Leads F p [] stop = p ≡ stop
Leads F p (x ∷ xs) stop = (f : Frag) × Node F p x f × Leads F f.next xs stop

abbrev pub Distinct : List Seg → Type 0
Distinct [] = Unit
Distinct (x ∷ xs) = NotIn x.id xs × Distinct xs

-- `F'` differs from `F` at most at the fragments of `xs`.
abbrev pub SameOff : List Seg → Frags → Frags → Type 0
SameOff xs F F' = (p : Ptr) → NotIn p xs → F' p ≡ F p

pub NotIn-append : (p : ℕ) (xs ys : List Seg) → NotIn p xs → NotIn p ys → NotIn p (xs ++ ys)
NotIn-append p [] ys a b = b
NotIn-append p (x ∷ xs) ys (ne, a) b = (ne, NotIn-append p xs ys a b)

pub NotIn-left : (p : ℕ) (xs ys : List Seg) → NotIn p (xs ++ ys) → NotIn p xs
NotIn-left p [] ys a = tt
NotIn-left p (x ∷ xs) ys (ne, a) = (ne, NotIn-left p xs ys a)

pub Apart-nil : (xs : List Seg) → Apart xs []
Apart-nil [] = tt
Apart-nil (x ∷ xs) = (tt, Apart-nil xs)

Apart-cons : (x : Seg) (xs ys : List Seg) → NotIn x.id xs → Apart xs ys → Apart xs (x ∷ ys)
Apart-cons x [] ys out a = tt
Apart-cons x (y ∷ xs) ys (ne, out) (a, b) = ((λ e. ne (sym e), a), Apart-cons x xs ys out b)

pub Apart-sym : (xs ys : List Seg) → Apart xs ys → Apart ys xs
Apart-sym [] ys a = Apart-nil ys
Apart-sym (x ∷ xs) ys (a, b) = Apart-cons x ys xs a (Apart-sym xs ys b)

pub Apart-left : (xs ys zs : List Seg) → Apart (xs ++ ys) zs → Apart xs zs
Apart-left [] ys zs a = tt
Apart-left (x ∷ xs) ys zs (a, b) = (a, Apart-left xs ys zs b)

pub Apart-right : (xs ys zs : List Seg) → Apart (xs ++ ys) zs → Apart ys zs
Apart-right [] ys zs a = a
Apart-right (x ∷ xs) ys zs (a, b) = Apart-right xs ys zs b

pub Apart-append : (xs ys zs : List Seg) → Apart xs zs → Apart ys zs → Apart (xs ++ ys) zs
Apart-append [] ys zs a b = b
Apart-append (x ∷ xs) ys zs (a, c) b = (a, Apart-append xs ys zs c b)

pub Distinct-split :
    (xs ys : List Seg) → Distinct (xs ++ ys) → Distinct xs × Distinct ys × Apart xs ys
Distinct-split [] ys d = (tt, d, tt)
Distinct-split (x ∷ xs) ys (out, d) =
    let (a, b, c) = Distinct-split xs ys d in
    ((NotIn-left x.id xs ys out, a), b, (NotIn-right x.id xs ys out, c))

pub Distinct-append :
    (xs ys : List Seg) → Distinct xs → Distinct ys → Apart xs ys → Distinct (xs ++ ys)
Distinct-append [] ys a b c = b
Distinct-append (x ∷ xs) ys (out, a) b (off, c) =
    (NotIn-append x.id xs ys out off, Distinct-append xs ys a b c)

pub Leads-append :
    (F : Frags) (p q r : Ptr) (xs ys : List Seg)
    → Leads F p xs q
    → Leads F q ys r
    → Leads F p (xs ++ ys) r
Leads-append F p q r [] ys e path = subst (λ a. Leads F a ys r) (sym e) path
Leads-append F p q r (x ∷ xs) ys (f, node, front) path =
    (f, node, Leads-append F f.next q r xs ys front path)

pub Node-id : {F : Frags} {p : Ptr} {x : Seg} {f : Frag} → Node F p x f → x.id ≡ p
Node-id node = ap (λ (y : Seg). y.id) node.is

-- A fragment, and a chain, survives a change that spares it.
pub Node-frame :
    {F F' : Frags} {p : Ptr} {x : Seg} {f : Frag} (xs : List Seg)
    → SameOff xs F F'
    → NotIn x.id xs
    → Node F p x f
    → Node F' p x f
Node-frame {p} xs same out node = record {
  ne_null = node.ne_null;
  holds = same p (subst (λ a. NotIn a xs) (Node-id node) out) ∙ node.holds;
  is = node.is;
  fits = node.fits;
}

pub Leads-frame :
    {F F' : Frags} (xs : List Seg) (p q : Ptr) (ys : List Seg)
    → SameOff xs F F'
    → Apart ys xs
    → Leads F p ys q
    → Leads F' p ys q
Leads-frame xs p q [] same apart path = path
Leads-frame xs p q (y ∷ ys) same (out, apart) (f, node, path) =
    (f, Node-frame xs same out node, Leads-frame xs f.next q ys same apart path)

-- A write at the fragment of `x` is off all others.
pub SameOff-update : (F : Frags) (x : Seg) (c : Option Frag) → SameOff (x ∷ []) F (update F x.id c)
SameOff-update F x c p (ne, _) = rw (==-false_of_ne p x.id ne)

abbrev pub last_id : Seg → List Seg → Ptr
last_id x [] = x.id
last_id x (y ∷ ys) = last_id y ys

pub NotIn-Apart : (x : Seg) (ys : List Seg) → NotIn x.id ys → Apart ys (x ∷ [])
NotIn-Apart x ys out = Apart-sym (x ∷ []) ys (out, tt)

-- A segment that heads the second part is no fragment of the first.
pub Apart-one : (xs : List Seg) (x : Seg) (ys : List Seg) → Apart xs (x ∷ ys) → Apart xs (x ∷ [])
Apart-one [] x ys a = tt
Apart-one (z ∷ xs) x ys ((ne, _), a) = ((ne, tt), Apart-one xs x ys a)

pub Apart-rest : (xs : List Seg) (x : Seg) (ys : List Seg) → Apart xs (x ∷ ys) → Apart xs ys
Apart-rest [] x ys a = tt
Apart-rest (z ∷ xs) x ys ((_, out), a) = (out, Apart-rest xs x ys a)

pub Apart-id :
    (xs : List Seg) (x y : Seg) (ys : List Seg)
    → x.id ≡ y.id
    → Apart xs (x ∷ ys)
    → Apart xs (y ∷ ys)
Apart-id [] x y ys e a = tt
Apart-id (z ∷ xs) x y ys e ((ne, out), a) = ((λ q. ne (q ∙ sym e), out), Apart-id xs x y ys e a)
