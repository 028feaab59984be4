-- ===== src/Tests/Sorting.antt =====
-- A sort, a search and a comparison of texts that keep what the C library documents of `qsort`,
-- `bsearch` and `strcmp`.
use bindfs.Base.{
  ◌≡◌, ◌≢◌, refl, sym, ◌⊎◌, inl, inr, List, [], ◌∷◌, Option, none, some, Bool, true, false,
  Bool-cases, ◌==◌, ltb, if◌then◌else◌, All, Mem, All-Mem, Mem-All, arith,
}
use bindfs.Base.Int.{ℤ, pos, negsuc}
use bindfs.Base.Text.{Bytes}
use bindfs.Userinfo.Sorted.{not_above, below, IsOrder, IsSorted}

abbrev pub is_zero : ℤ → Bool
is_zero (pos n) = n == 0
is_zero (negsuc n) = false

is_zero→eq : (z : ℤ) → is_zero z ≡ true → z ≡ pos 0
is_zero→eq (pos n) h = ground arith
is_zero→eq (negsuc n) h = cc

not_zero : (z : ℤ) → is_zero z ≡ false → z ≢ pos 0
not_zero (pos n) h e = ground arith
not_zero (negsuc n) h e = cc

no_value : {A B : Type 0} (x : A) → some x ≡ none → B
no_value x h = cc

-- A search from the front.
abbrev pub search : {K A : Type 0} → (K → A → ℤ) → K → List A → Option A
search compar key [] = none
search compar key (x ∷ xs) =
    let rest = search compar key xs in if is_zero (compar key x) then some x else rest

module _ {K A : Type 0} (compar : K → A → ℤ) (key : K) where
  first_finds :
      (x : A) (xs : List A) (a : A)
      → compar key x ≡ pos 0
      → some x ≡ some a
      → Mem a (x ∷ xs) × (compar key a ≡ pos 0)
  first_finds x xs a z h = let same : x ≡ a = cc in (inl (sym same), rw (← same) z)

  pub search_finds :
      (xs : List A) (a : A) → search compar key xs ≡ some a → Mem a xs × (compar key a ≡ pos 0)
  search_finds [] a h = cc
  search_finds (x ∷ xs) a h = elim (Bool-cases (is_zero (compar key x))) [
    | inl e ↦ first_finds x xs a (is_zero→eq (compar key x) e) (rw e at h)
    | inr e ↦ let (m, z) = search_finds xs a (rw e at h) in (inr m, z)
  ]

  pub search_misses :
      (xs : List A) → search compar key xs ≡ none → All (λ a. compar key a ≢ pos 0) xs
  search_misses [] h = tt
  search_misses (x ∷ xs) h = elim (Bool-cases (is_zero (compar key x))) [
    | inl e ↦ no_value x (rw e at h)
    | inr e ↦ (not_zero (compar key x) e, search_misses xs (rw e at h))
  ]

-- An insertion sort.
abbrev pub insert : {A : Type 0} → (A → A → ℤ) → A → List A → List A
insert compar x [] = x ∷ []
insert compar x (y ∷ ys) =
    let rest = insert compar x ys in if not_above (compar x y) then x ∷ y ∷ ys else y ∷ rest

abbrev pub sort : {A : Type 0} → (A → A → ℤ) → List A → List A
sort compar [] = []
sort compar (x ∷ xs) = insert compar x (sort compar xs)

module _ {A : Type 0} (compar : A → A → ℤ) where
  insert-Mem : (x : A) (ys : List A) (a : A) → Mem a (insert compar x ys) → (a ≡ x) ⊎ Mem a ys
  insert-Mem x [] a h = h
  insert-Mem x (y ∷ ys) a h = elim (Bool-cases (not_above (compar x y))) [
    | inl e ↦ rw e at h
    | inr e ↦
        let seen : (a ≡ y) ⊎ Mem a (insert compar x ys) = rw e at h in
        elim seen [
          | inl q ↦ inr (inl q)
          | inr m ↦ elim (insert-Mem x ys a m) [ inl q ↦ inl q | inr n ↦ inr (inr n) ]
        ]
  ]

  Mem-insert : (x : A) (ys : List A) (a : A) → (a ≡ x) ⊎ Mem a ys → Mem a (insert compar x ys)
  Mem-insert x [] a h = h
  Mem-insert x (y ∷ ys) a h = elim (Bool-cases (not_above (compar x y))) [
    | inl e ↦ rw e h
    | inr e ↦ rw e (elim h [
      | inl q ↦ inr (Mem-insert x ys a (inl q))
      | inr (inl q) ↦ inl q
      | inr (inr m) ↦ inr (Mem-insert x ys a (inr m))
    ])
  ]

  pub sort-Mem : (xs : List A) (a : A) → Mem a (sort compar xs) → Mem a xs
  sort-Mem [] a h = h
  sort-Mem (x ∷ xs) a h = elim (insert-Mem x (sort compar xs) a h) [
    | inl q ↦ inl q
    | inr m ↦ inr (sort-Mem xs a m)
  ]

  pub Mem-sort : (xs : List A) (a : A) → Mem a xs → Mem a (sort compar xs)
  Mem-sort [] a h = h
  Mem-sort (x ∷ xs) a (inl q) = Mem-insert x (sort compar xs) a (inl q)
  Mem-sort (x ∷ xs) a (inr m) = Mem-insert x (sort compar xs) a (inr (Mem-sort xs a m))

  -- The elements come from an array on which the comparison is an order.
  module _ (zs : List A) (order : IsOrder compar zs) where
    turned :
        (x y : A)
        → Mem x zs
        → Mem y zs
        → not_above (compar x y) ≡ false
        → not_above (compar y x) ≡ true
    turned x y m n h = elim (order.total x y m n) [ inl e ↦ cc | inr e ↦ e ]

    insert-IsSorted :
        (x : A) (ys : List A)
        → Mem x zs
        → All (λ y. Mem y zs) ys
        → IsSorted compar ys
        → IsSorted compar (insert compar x ys)
    insert-IsSorted x [] m ms sorted = (tt, tt)
    insert-IsSorted x (y ∷ ys) m (n, ns) (least, sorted) =
        elim (Bool-cases (not_above (compar x y))) [
          | inl e ↦ rw e (
            (
              e,
              Mem-All _ ys λ b k.
                  order.transitive x y b m n (All-Mem _ ys b ns k) e (All-Mem _ ys b least k),
            ),
            (least, sorted),
          )
          | inr e ↦ rw e (
            Mem-All _ _ λ b k. elim (insert-Mem x ys b k) [
              | inl q ↦ rw q (turned x y m n e)
              | inr j ↦ All-Mem _ ys b least j
            ],
            insert-IsSorted x ys m ns sorted,
          )
        ]

    sort_within : (xs : List A) → All (λ y. Mem y zs) xs → IsSorted compar (sort compar xs)
    sort_within [] ms = tt
    sort_within (x ∷ xs) (m, ms) =
        insert-IsSorted x (sort compar xs) m
          (Mem-All _ _ λ b k. All-Mem _ xs b ms (sort-Mem xs b k)) (sort_within xs ms)

  pub sort-IsSorted : (xs : List A) → IsOrder compar xs → IsSorted compar (sort compar xs)
  sort-IsSorted xs order = sort_within xs order xs (Mem-All _ xs λ b m. m)

-- The order of the first bytes that differ.
abbrev pub compare_texts : Bytes → Bytes → ℤ
compare_texts [] [] = pos 0
compare_texts [] (b ∷ bs) = negsuc 0
compare_texts (a ∷ as') [] = pos 1
compare_texts (a ∷ as') (b ∷ bs) =
    let rest = compare_texts as' bs in if a == b then rest else if ltb a b then negsuc 0 else pos 1

pub compare_texts_self : (a : Bytes) → compare_texts a a ≡ pos 0
compare_texts_self [] = refl
compare_texts_self (a ∷ as') = ground (arith, compare_texts_self as')

pub compare_texts_equal : (a b : Bytes) → compare_texts a b ≡ pos 0 → a ≡ b
compare_texts_equal [] [] h = refl
compare_texts_equal [] (b ∷ bs) h = cc
compare_texts_equal (a ∷ as') [] h = ground arith
compare_texts_equal (a ∷ as') (b ∷ bs) h = ground (arith, compare_texts_equal as' bs)

pub compare_texts_total :
    (a b : Bytes) → (not_above (compare_texts a b) ≡ true) ⊎ (not_above (compare_texts b a) ≡ true)
compare_texts_total [] [] = inl refl
compare_texts_total [] (b ∷ bs) = inl refl
compare_texts_total (a ∷ as') [] = inr refl
compare_texts_total (a ∷ as') (b ∷ bs) = ground (arith, compare_texts_total as' bs)

pub compare_texts-not_above :
    (a b c : Bytes)
    → not_above (compare_texts a b) ≡ true
    → not_above (compare_texts b c) ≡ true
    → not_above (compare_texts a c) ≡ true
compare_texts-not_above [] [] c h k = k
compare_texts-not_above [] (b ∷ bs) [] h k = refl
compare_texts-not_above [] (b ∷ bs) (c ∷ cs) h k = refl
compare_texts-not_above (a ∷ as') [] c h k = ground arith
compare_texts-not_above (a ∷ as') (b ∷ bs) [] h k = ground arith
compare_texts-not_above (a ∷ as') (b ∷ bs) (c ∷ cs) h k =
    ground (arith, compare_texts-not_above as' bs cs)

pub compare_texts-below :
    (a b c : Bytes)
    → below (compare_texts a b) ≡ true
    → not_above (compare_texts b c) ≡ true
    → below (compare_texts a c) ≡ true
compare_texts-below [] [] c h k = cc
compare_texts-below [] (b ∷ bs) [] h k = ground arith
compare_texts-below [] (b ∷ bs) (c ∷ cs) h k = refl
compare_texts-below (a ∷ as') [] c h k = cc
compare_texts-below (a ∷ as') (b ∷ bs) [] h k = ground arith
compare_texts-below (a ∷ as') (b ∷ bs) (c ∷ cs) h k = ground (arith, compare_texts-below as' bs cs)
