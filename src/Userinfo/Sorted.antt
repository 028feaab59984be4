-- ===== src/Userinfo/Sorted.antt =====
-- What src/userinfo.c needs of sorted arrays: the C library's promises for `qsort` and `bsearch`, and
-- that the comparisons of ids below 2 ^ 31 keep to their terms.
use bindfs.Base.{
  ℕ, ◌^◌, ◌<◌, ◌≡◌, ◌≢◌, ◌⊎◌, List, [], ◌∷◌, none, Bool, true, false, not, ◌||◌, ◌==◌, leb, ltb,
  All, Mem, All-Mem, Mem-All, arith,
}
use bindfs.Base.Int.{ℤ, pos, negsuc, sub_ℕ}
use bindfs.Base.Text.{Bytes}
use bindfs.Userinfo.Cache.{Databases, to_int}

-- `z <= 0` and `z < 0`
abbrev pub not_above : ℤ → Bool
not_above (pos n) = n == 0
not_above (negsuc n) = true

abbrev pub below : ℤ → Bool
below (pos n) = false
below (negsuc n) = true

module _ {A : Type 0} where
  -- A comparison that is total and transitive on the elements of an array, as `qsort` asks for.
  pub record IsOrder (compar : A → A → ℤ) (xs : List A) : Type 0 where
    pub total :
        (a b : A)
        → Mem a xs
        → Mem b xs
        → (not_above (compar a b) ≡ true) ⊎ (not_above (compar b a) ≡ true)
    pub transitive :
        (a b c : A)
        → Mem a xs
        → Mem b xs
        → Mem c xs
        → not_above (compar a b) ≡ true
        → not_above (compar b c) ≡ true
        → not_above (compar a c) ≡ true

  -- No element compares greater than a later one.
  abbrev pub IsSorted : (compar : A → A → ℤ) → List A → Type 0
  IsSorted compar [] = Unit
  IsSorted compar (a ∷ as') = All (λ b. not_above (compar a b) ≡ true) as' × IsSorted compar as'

  -- The elements that the key is above come first, then those that it matches, then the others, as
  -- `bsearch` asks for.
  abbrev pub IsPartitioned : (above : A → ℤ) → List A → Type 0
  IsPartitioned f [] = Unit
  IsPartitioned f (a ∷ as') =
      All (λ b. (not (not_above (f a)) || not_above (f b)) ≡ true) as'
      × All (λ b. (not (below (f a)) || below (f b)) ≡ true) as'
      × IsPartitioned f as'

-- The promises of the C library.
pub record IsFinding (sys : Databases) : Type 1 where
  pub qsort_moves :
      {A : Type 0} (compar : A → A → ℤ) (xs : List A) (a : A)
      → Mem a xs
      → Mem a (sys.qsort compar xs)
  pub qsort_sorts :
      {A : Type 0} (compar : A → A → ℤ) (xs : List A)
      → IsOrder compar xs
      → IsSorted compar (sys.qsort compar xs)
  pub bsearch_misses :
      {K A : Type 0} (compar : K → A → ℤ) (key : K) (xs : List A)
      → IsPartitioned (compar key) xs
      → sys.bsearch compar key xs ≡ none
      → All (λ a. compar key a ≢ pos 0) xs
  pub strcmp_self : (a : Bytes) → sys.strcmp a a ≡ pos 0
  pub strcmp_total :
      (a b : Bytes) → (not_above (sys.strcmp a b) ≡ true) ⊎ (not_above (sys.strcmp b a) ≡ true)
  pub strcmp_not_above :
      (a b c : Bytes)
      → not_above (sys.strcmp a b) ≡ true
      → not_above (sys.strcmp b c) ≡ true
      → not_above (sys.strcmp a c) ≡ true
  pub strcmp_below :
      (a b c : Bytes)
      → below (sys.strcmp a b) ≡ true
      → not_above (sys.strcmp b c) ≡ true
      → below (sys.strcmp a c) ≡ true

-- The difference of two ids below 2 ^ 31 is an `int`.
pub to_int_small : (a b : ℕ) → a < 2 ^ 31 → b < 2 ^ 31 → to_int (sub_ℕ a b) ≡ sub_ℕ a b
unfolding to_int
to_int_small a b ha hb = ground arith

not_above_small : (a b : ℕ) → a < 2 ^ 31 → b < 2 ^ 31 → not_above (to_int (sub_ℕ a b)) ≡ leb a b
not_above_small a b ha hb = rw (to_int_small a b ha hb) (ground arith)

below_small : (a b : ℕ) → a < 2 ^ 31 → b < 2 ^ 31 → below (to_int (sub_ℕ a b)) ≡ ltb a b
below_small a b ha hb = rw (to_int_small a b ha hb) (ground arith)

leb_total : (a b : ℕ) → (leb a b ≡ true) ⊎ (leb b a ≡ true)
leb_total a b = ground arith

leb_trans : (a b c : ℕ) → leb a b ≡ true → leb b c ≡ true → leb a c ≡ true
leb_trans a b c h k = ground arith

leb_step : (k a b : ℕ) → leb a b ≡ true → (not (leb k a) || leb k b) ≡ true
leb_step k a b h = ground arith

ltb_step : (k a b : ℕ) → leb a b ≡ true → (not (ltb k a) || ltb k b) ≡ true
ltb_step k a b h = ground arith

module _ {A : Type 0} (id : A → ℕ) where
  -- The comparisons of src/userinfo.c on entries with an id.
  abbrev pub id_sortcmp : A → A → ℤ
  id_sortcmp a b = to_int (sub_ℕ (id a) (id b))

  abbrev pub id_searchcmp : ℕ → A → ℤ
  id_searchcmp key a = to_int (sub_ℕ key (id a))

  pub id_sortcmp-IsOrder : (xs : List A) → All (λ a. id a < 2 ^ 31) xs → IsOrder id_sortcmp xs
  id_sortcmp-IsOrder xs small = record {
    total = λ a b m n.
        rw
          (
            not_above_small (id a) (id b) (All-Mem _ xs a small m) (All-Mem _ xs b small n),
            not_above_small (id b) (id a) (All-Mem _ xs b small n) (All-Mem _ xs a small m),
          )
          (leb_total (id a) (id b));
    transitive = λ a b c m n o h k.
        let ha = All-Mem _ xs a small m in
        let hb = All-Mem _ xs b small n in
        let hc = All-Mem _ xs c small o in
        rw (not_above_small (id a) (id c) ha hc) (
          leb_trans (id a) (id b) (id c) (rw (not_above_small (id a) (id b) ha hb) at h)
            (rw (not_above_small (id b) (id c) hb hc) at k));
  }

  pub IsSorted-IsPartitioned :
      (key : ℕ) (xs : List A)
      → key < 2 ^ 31
      → All (λ a. id a < 2 ^ 31) xs
      → IsSorted id_sortcmp xs
      → IsPartitioned (id_searchcmp key) xs
  IsSorted-IsPartitioned key [] k small sorted = tt
  IsSorted-IsPartitioned key (a ∷ xs) k (first, rest) (least, sorted) = (
    Mem-All _ xs λ b m.
        let hb = All-Mem _ xs b rest m in
        rw (not_above_small key (id a) k first, not_above_small key (id b) k hb)
          (leb_step key (id a) (id b)
            (rw (not_above_small (id a) (id b) first hb) at (All-Mem _ xs b least m))),
    Mem-All _ xs λ b m.
        let hb = All-Mem _ xs b rest m in
        rw (below_small key (id a) k first, below_small key (id b) k hb)
          (ltb_step key (id a) (id b)
            (rw (not_above_small (id a) (id b) first hb) at (All-Mem _ xs b least m))),
    IsSorted-IsPartitioned key xs k rest sorted,
  )
