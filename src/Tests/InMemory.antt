-- ===== src/Tests/InMemory.antt =====
-- The cache of src/userinfo.c in memory, on the users and the group of another test.
use mathlib.Core.List.{map}
use mathlib.Core.Option
use bindfs.Base.{ℕ, ◌≡◌, ◌∙◌, refl, ap, inl, inr, List, [], ◌∷◌, true, Bool-cases, arith}
use bindfs.Base.Int.{ℤ}
use bindfs.Base.Maybe.{Returns}
use bindfs.Base.Text.{bytes_eq}
use bindfs.Userinfo.Cache.{rebuilt, cached_answer}
use bindfs.Userinfo.Sorted.{not_above}
use bindfs.Userinfo.InMemory.{fill_tables, tables_answer}
use bindfs.Userinfo.InMemory.Groups.{IsUniform}
use bindfs.Userinfo.InMemory.Refines.{fill_tables-answers}
use bindfs.Tests.Sorting.{is_zero, search, insert, sort}
use bindfs.Tests.Groups.{files, files-IsSorting}

module _ {A B : Type 0} (f : A → B) where
  map-insert :
      (compar : B → B → ℤ) (x : A) (ys : List A)
      → map f (insert (λ a b. compar (f a) (f b)) x ys) ≡ insert compar (f x) (map f ys)
  map-insert compar x [] = refl
  map-insert compar x (y ∷ ys) = elim (Bool-cases (not_above (compar (f x) (f y)))) [
    | inl e ↦ rw e refl
    | inr e ↦ rw e (ap (λ zs. f y ∷ zs) (map-insert compar x ys))
  ]

  map-sort :
      (compar : B → B → ℤ) (xs : List A)
      → map f (sort (λ a b. compar (f a) (f b)) xs) ≡ sort compar (map f xs)
  map-sort compar [] = refl
  map-sort compar (x ∷ xs) =
      map-insert compar x (sort (λ a b. compar (f a) (f b)) xs)
      ∙ ap (insert compar (f x)) (map-sort compar xs)

  map-search :
      {K : Type 0} (compar : K → B → ℤ) (key : K) (xs : List A)
      → Option.map f (search (λ k a. compar k (f a)) key xs) ≡ search compar key (map f xs)
  map-search compar key [] = refl
  map-search compar key (x ∷ xs) = elim (Bool-cases (is_zero (compar key (f x)))) [
    | inl e ↦ rw e refl
    | inr e ↦ rw e (map-search compar key xs)
  ]

files-IsUniform : IsUniform files
files-IsUniform = record {
  qsort_map = λ f compar xs. map-sort f compar xs;
  bsearch_map = λ f compar key xs. map-search f compar key xs;
}

joe_found : Returns (λ t. tables_answer files t 1001 50 ≡ true) (fill_tables files)
unfolding fill_tables tables_answer bytes_eq
joe_found = refl

fill_tables-answers_example :
    Returns
      (λ t.
        (uid gid : ℕ) → tables_answer files t uid gid ≡ cached_answer files (rebuilt files) uid gid)
      (fill_tables files)
fill_tables-answers_example =
    fill_tables-answers files files-IsSorting files-IsUniform
      (
        (omega arith, (omega arith, (omega arith, (omega arith, tt)))),
        ((omega arith, (omega arith, (omega arith, (omega arith, tt)))), tt),
      )
      (omega arith)
