-- ===== src/Base/Lists.antt =====
-- Lists measured and indexed by native numbers, under the library's names.
use Prim.Native.Nat.{ℕ, zero, suc, ◌+◌}
use mathlib.Core.Path.{◌≡◌, refl}
use mathlib.Core.List.{List, [], ◌∷◌, ◌++◌}
use mathlib.Core.Option.{Option, none, some}
use mathlib.Core.Logic.{◌⊎◌, inl, inr}
use native.Mathlib.Omega.{arith}

module _ {ℓ} {A : Type ℓ} where
  abbrev pub length : List A → ℕ
  length [] = 0
  length (x ∷ xs) = suc (length xs)

  abbrev pub get_elem? : List A → ℕ → Option A
  get_elem? [] i = none
  get_elem? (x ∷ xs) zero = some x
  get_elem? (x ∷ xs) (suc i) = get_elem? xs i

  abbrev pub take : ℕ → List A → List A
  take zero xs = []
  take (suc n) [] = []
  take (suc n) (x ∷ xs) = x ∷ take n xs

  abbrev pub drop : ℕ → List A → List A
  drop zero xs = xs
  drop (suc n) [] = []
  drop (suc n) (x ∷ xs) = drop n xs

  pub length-append : (xs ys : List A) → length (xs ++ ys) ≡ length xs + length ys
  length-append [] ys = omega arith
  length-append (x ∷ xs) ys = omega (arith, length-append xs ys)

module _ {ℓ κ} {A : Type ℓ} where
  -- A predicate by recursion computes to tuples, which the tactics read and build.
  abbrev pub All : (Good : A → Type κ) → List A → Type κ
  All Good (a ∷ later) = Good a × All Good later
  All Good [] = Unit

  pub All-append :
      (Good : A → Type κ) (front back : List A)
      → All Good front
      → All Good back
      → All Good (front ++ back)
  All-append Good (a ∷ front) back (first, rest) more =
      (first, All-append Good front back rest more)
  All-append Good [] back nothing more = more

-- Membership, by recursion on the list.
abbrev pub Mem : {A : Type 0} → A → List A → Type 0
Mem a [] = ⊥
Mem a (b ∷ bs) = (a ≡ b) ⊎ Mem a bs

pub All-Mem :
    {A : Type 0} (Good : A → Type 0) (xs : List A) (a : A) → All Good xs → Mem a xs → Good a
All-Mem Good [] a all h = absurd h
All-Mem Good (b ∷ bs) a (first, rest) (inl e) = rw e first
All-Mem Good (b ∷ bs) a (first, rest) (inr h) = All-Mem Good bs a rest h

pub Mem-All :
    {A : Type 0} (Good : A → Type 0) (xs : List A) → ((a : A) → Mem a xs → Good a) → All Good xs
Mem-All Good [] k = tt
Mem-All Good (b ∷ bs) k = (k b (inl refl), Mem-All Good bs λ a h. k a (inr h))

pub Mem-append-back : {A : Type 0} (xs ys : List A) (a : A) → Mem a ys → Mem a (xs ++ ys)
Mem-append-back [] ys a h = h
Mem-append-back (x ∷ xs) ys a h = inr (Mem-append-back xs ys a h)
