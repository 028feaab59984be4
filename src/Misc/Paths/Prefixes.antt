-- ===== src/Misc/Paths/Prefixes.antt =====
-- `path_starts_with` of src/misc.c compares whole components.
use bindfs.Base.{
  ℕ, zero, suc, ◌+◌, ◌-◌, ◌≤◌, ◌<◌, ◌≡◌, refl, ap, ◌∙◌, [], ◌∷◌, ◌++◌, Option, none, some, Bool,
  true, false,
}
use bindfs.Base.{arith, Bool-cases, inl, inr, ◌⊎◌, ◌==◌, ◌&&◌, length, take, drop, length-append}
use bindfs.Base.Text.{Bytes, starts_with}
use bindfs.Misc.Paths.{
  index_of, last_index_of, without_slashes, part_offset, part_length, path_starts_with,
}

-- The end of a text, or a slash.
abbrev pub at_boundary : Bytes → Bool
at_boundary [] = true
at_boundary (c ∷ cs) = c == b'/'

starts_with-append : (p path : Bytes) → starts_with path p ≡ true → path ≡ p ++ drop (length p) path
unfolding starts_with
starts_with-append [] path h = refl
starts_with-append (y ∷ ys) [] h = cc
starts_with-append (y ∷ ys) (x ∷ xs) h = ground (arith, starts_with-append ys xs)

Option-view : {A : Type 0} (o : Option A) → (o ≡ none) ⊎ ((a : A) × (o ≡ some a))
Option-view none = inl refl
Option-view (some a) = inr (a, refl)

-- A slash is looked for behind a text that has none.
index_of-append :
    (part rest : Bytes)
    → index_of b'/' part ≡ none
    → index_of b'/' (part ++ rest)
      ≡ (elim (index_of b'/' rest) [ none ↦ none | some i ↦ some (length part + i) ])
unfolding index_of
index_of-append [] rest h = elim (Option-view (index_of b'/' rest)) [
  | inl e ↦ ground arith
  | inr (i, e) ↦ ground arith
]
index_of-append (c ∷ cs) rest h = ground (
  arith,
  index_of-append cs rest,
  Option-view (index_of b'/' cs),
  Option-view (index_of b'/' rest),
)

-- Behind the last slash there is none.
no_last : (p : Bytes) → last_index_of b'/' p ≡ none → index_of b'/' p ≡ none
unfolding last_index_of index_of
no_last [] h = refl
no_last (c ∷ cs) h = ground (arith, no_last cs, Option-view (last_index_of b'/' cs))

behind_last :
    (p : Bytes) (i : ℕ) → last_index_of b'/' p ≡ some i → index_of b'/' (drop (suc i) p) ≡ none
unfolding last_index_of
behind_last [] i h = cc
behind_last (c ∷ cs) i h = elim (Option-view (last_index_of b'/' cs)) [
  | inl e ↦ elim (Bool-cases (c == b'/')) [
    | inl slash ↦ let z : i ≡ 0 = ground arith in rw z (no_last cs e)
    | inr other ↦ ground arith
  ]
  | inr (j, e) ↦ let z : i ≡ suc j = ground arith in rw z (behind_last cs j e)
]

part_has_no_slash : (p : Bytes) → index_of b'/' (drop (part_offset p) p) ≡ none
unfolding part_offset
part_has_no_slash p = elim (Option-view (last_index_of b'/' p)) [
  | inl e ↦ let z : part_offset p ≡ 0 = ground arith in rw z (no_last p e)
  | inr (i, e) ↦ let z : part_offset p ≡ suc i = ground arith in rw z (behind_last p i e)
]

last_index_of-lt : (p : Bytes) (i : ℕ) → last_index_of b'/' p ≡ some i → i < length p
unfolding last_index_of
last_index_of-lt [] i h = cc
last_index_of-lt (c ∷ cs) i h = elim (Option-view (last_index_of b'/' cs)) [
  | inl e ↦ ground arith
  | inr (j, e) ↦ ground (arith, last_index_of-lt cs j e)
]

part_offset-le : (p : Bytes) → part_offset p ≤ length p
unfolding part_offset
part_offset-le p = elim (Option-view (last_index_of b'/' p)) [
  | inl e ↦ ground arith
  | inr (i, e) ↦ ground (arith, last_index_of-lt p i e)
]

drop-append : (n : ℕ) (xs ys : Bytes) → n ≤ length xs → drop n (xs ++ ys) ≡ drop n xs ++ ys
drop-append zero xs ys h = refl
drop-append (suc n) [] ys h = absurd (omega arith)
drop-append (suc n) (x ∷ xs) ys h = drop-append n xs ys (omega arith)

length-drop : (n : ℕ) (xs : Bytes) → length (drop n xs) ≡ length xs - n
length-drop zero xs = omega arith
length-drop (suc n) [] = omega arith
length-drop (suc n) (x ∷ xs) = omega (arith, length-drop n xs)

index_of-boundary :
    (rest : Bytes) (i : ℕ) → index_of b'/' rest ≡ some i → (i == 0) ≡ at_boundary rest
unfolding index_of
index_of-boundary [] i h = cc
index_of-boundary (c ∷ cs) i h = ground (arith, Option-view (index_of b'/' cs))

no_slash :
    (c : ℕ) (cs : Bytes)
    → index_of b'/' (c ∷ cs) ≡ none
    → ((c == b'/') ≡ false) × (index_of b'/' cs ≡ none)
unfolding index_of
no_slash c cs h = ground (arith, Option-view (index_of b'/' cs))

without_slashes-no_slash : (xs : Bytes) → index_of b'/' xs ≡ none → without_slashes xs ≡ xs
unfolding without_slashes
without_slashes-no_slash [] h = refl
without_slashes-no_slash (c ∷ cs) h = ground (arith, no_slash c cs h, without_slashes-no_slash cs)

without_slashes-append :
    (xs : Bytes) (y : ℕ) (ys : Bytes)
    → without_slashes (y ∷ ys) ≡ y ∷ ys
    → without_slashes (xs ++ (y ∷ ys)) ≡ xs ++ (y ∷ ys)
unfolding without_slashes
without_slashes-append [] y ys h = h
without_slashes-append (x ∷ []) y ys h = rw h refl
without_slashes-append (x ∷ x' ∷ xs) y ys h = rw (without_slashes-append (x' ∷ xs) y ys h) refl

without_slashes_twice : (q : Bytes) → without_slashes (without_slashes q) ≡ without_slashes q
unfolding without_slashes
without_slashes_twice [] = refl
without_slashes_twice (c ∷ cs) = ground (arith, without_slashes_twice cs)

part_length_found :
    (path : Bytes) (o i : ℕ) → index_of b'/' (drop o path) ≡ some i → part_length path o ≡ i
unfolding part_length
part_length_found path o i h = ground arith

part_length_missing :
    (path : Bytes) (o : ℕ)
    → index_of b'/' (drop o path) ≡ none
    → part_length path o ≡ length (without_slashes path) - o
unfolding part_length
part_length_missing path o h = ground arith

append_nil : (xs : Bytes) → xs ++ [] ≡ xs
append_nil [] = refl
append_nil (x ∷ xs) = ground (arith, append_nil xs)

without_slashes-behind :
    (p rest : Bytes)
    → without_slashes p ≡ p
    → index_of b'/' rest ≡ none
    → without_slashes (p ++ rest) ≡ p ++ rest
without_slashes-behind p [] h k = rw append_nil h
without_slashes-behind p (c ∷ cs) h k =
    without_slashes-append p c cs (without_slashes-no_slash (c ∷ cs) k)

slashless_boundary :
    (rest : Bytes) → index_of b'/' rest ≡ none → (length rest == 0) ≡ at_boundary rest
slashless_boundary [] h = refl
slashless_boundary (c ∷ cs) h = ground (arith, no_slash c cs h)

-- The comparison of the last components, behind a prefix without a slash at its end.
same_part :
    (p rest : Bytes)
    → without_slashes p ≡ p
    → (length p - part_offset p == part_length (p ++ rest) (part_offset p)) ≡ at_boundary rest
same_part p rest h =
    let o = part_offset p in
    let seek : index_of b'/' (drop o (p ++ rest))
        ≡ (elim (index_of b'/' rest) [ none ↦ none | some i ↦ some (length (drop o p) + i) ]) =
      ap (λ (x : Bytes). index_of b'/' x) (drop-append o p rest (part_offset-le p))
      ∙ index_of-append (drop o p) rest (part_has_no_slash p) in
    elim (Option-view (index_of b'/' rest)) [
      | inl e ↦
          let missing : index_of b'/' (drop o (p ++ rest)) ≡ none = ground arith in
          ground (
            arith,
            part_length_missing (p ++ rest) o missing,
            without_slashes-behind p rest h e,
            length-append p rest,
            slashless_boundary rest e,
            part_offset-le p,
          )
      | inr (i, e) ↦
          let found : index_of b'/' (drop o (p ++ rest)) ≡ some (length (drop o p) + i) =
            ground arith in
          ground (
            arith,
            part_length_found (p ++ rest) o (length (drop o p) + i) found,
            length-drop o p,
            index_of-boundary rest i e,
          )
    ]

-- `path_starts_with` holds exactly if the path begins with the prefix, less the slashes at its end,
-- and what follows is nothing or begins with a slash: a name that only begins like the last name of
-- the prefix does not count.
pub path_starts_with_lem :
    (path prefix : Bytes) (n : ℕ)
    → let p = without_slashes (take n prefix) in
      path_starts_with path prefix n ≡ (starts_with path p && at_boundary (drop (length p) path))
unfolding path_starts_with
path_starts_with_lem path prefix n =
    let p = without_slashes (take n prefix) in
    elim (Bool-cases (starts_with path p)) [
      | inr other ↦ rw other refl
      | inl begins ↦
          let whole =
            ap (λ (x : Bytes). part_length x (part_offset p)) (starts_with-append p path begins) in
          ground (
            arith,
            same_part p (drop (length p) path) (without_slashes_twice (take n prefix)),
            whole,
          )
    ]
