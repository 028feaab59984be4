-- ===== src/Misc/OptionLists/Given.antt =====
-- `filter_o_opts` of src/misc.c, by the options as they are given: joined to `-o`, or behind it.
use bindfs.Base.{
  ◌≡◌, ◌≢◌, refl, ap, ◌∙◌, inl, inr, List, [], ◌∷◌, ◌++◌, Bool, true, false, Bool-cases,
  if◌then◌else◌, All, drop,
}
use bindfs.Base.Text.{Bytes, codes, bytes_eq}
use bindfs.Misc.OptionLists.{tokens, kept_tokens, filtered, merge_o_args, filter_o_opts}
use bindfs.Misc.OptionLists.Kept.{
  is_o, is_o_again, options_of, others_of, Keeps, filter_loop-options_of,
}

-- The options that pass a test.
unfoldable pub select : (Bytes → Bool) → List Bytes → List Bytes
select keep [] = []
select keep (opt ∷ opts) = let rest = select keep opts in if keep opt then opt ∷ rest else rest

-- The options of each `-o`: those joined to it, or those of the next argument. Nothing is given by a
-- `-o` at the end.
unfoldable pub option_groups : List Bytes → List (List Bytes)
option_groups [] = []
option_groups (arg ∷ []) =
    if bytes_eq arg (codes "-o") then [] else if is_o arg then tokens b',' (drop 2 arg) ∷ [] else []
option_groups (arg ∷ next ∷ args) =
    let behind = option_groups args in
    let rest = option_groups (next ∷ args) in
    if bytes_eq arg (codes "-o")
    then tokens b',' next ∷ behind
    else if is_o arg
    then tokens b',' (drop 2 arg) ∷ rest
    else rest

-- The arguments that are neither a `-o` nor the options of one.
unfoldable pub plain_args : List Bytes → List Bytes
plain_args [] = []
plain_args (arg ∷ []) = if bytes_eq arg (codes "-o") then [] else if is_o arg then [] else arg ∷ []
plain_args (arg ∷ next ∷ args) =
    let behind = plain_args args in
    let rest = plain_args (next ∷ args) in
    if bytes_eq arg (codes "-o") then behind else if is_o arg then rest else arg ∷ rest

unfoldable pub joined : List (List Bytes) → List Bytes
joined [] = []
joined (g ∷ gs) = g ++ joined gs

kept_tokens-select :
    (keep : Bytes → Bool) (toks : List Bytes) → kept_tokens keep toks ≡ select keep toks
unfolding kept_tokens select
kept_tokens-select keep [] = refl
kept_tokens-select keep (tok ∷ toks) = rw (kept_tokens-select keep toks) refl

merge_separate :
    (arg next : Bytes) (args : List Bytes)
    → bytes_eq arg (codes "-o") ≡ true
    → merge_o_args (arg ∷ next ∷ args) ≡ (codes "-o" ++ next) ∷ merge_o_args args
unfolding merge_o_args
merge_separate arg next args e = rw (e, merge_o_args) refl

merge_other :
    (arg next : Bytes) (args : List Bytes)
    → bytes_eq arg (codes "-o") ≡ false
    → merge_o_args (arg ∷ next ∷ args) ≡ arg ∷ merge_o_args (next ∷ args)
unfolding merge_o_args
merge_other arg next args e = rw (e, merge_o_args) refl

merge_o_args-option_groups :
    (argv : List Bytes)
    → (options_of (merge_o_args argv) ≡ joined (option_groups argv))
      × (others_of (merge_o_args argv) ≡ plain_args argv)
unfolding merge_o_args option_groups plain_args joined
merge_o_args-option_groups [] = (refl, refl)
merge_o_args-option_groups (arg ∷ []) = elim (Bool-cases (bytes_eq arg (codes "-o"))) [
  | inl e ↦ rw e (refl, refl)
  | inr e ↦ elim (Bool-cases (is_o arg)) [
    | inl k ↦ rw (e, k) (refl, refl)
    | inr k ↦ rw (e, k) (refl, refl)
  ]
]
merge_o_args-option_groups (arg ∷ next ∷ args) = elim (Bool-cases (bytes_eq arg (codes "-o"))) [
  | inl e ↦
      let (options, others) = merge_o_args-option_groups args in
      rw (merge_separate arg next args e, e, is_o_again next)
        (ap (λ xs. tokens b',' next ++ xs) options, others)
  | inr e ↦
      let (options, others) = merge_o_args-option_groups (next ∷ args) in
      elim (Bool-cases (is_o arg)) [
        | inl k ↦
            rw (merge_other arg next args e, e, k)
              (ap (λ xs. tokens b',' (drop 2 arg) ++ xs) options, others)
        | inr k ↦ rw (merge_other arg next args e, e, k) (options, ap (λ xs. arg ∷ xs) others)
      ]
]

module _ (keep : Bytes → Bool) where
  -- Some option of a group is kept.
  abbrev pub KeepsSome : List Bytes → Type 0
  KeepsSome g = select keep g ≢ []

  filtered-KeepsSome : (arg : Bytes) → KeepsSome (tokens b',' (drop 2 arg)) → Keeps keep arg
  unfolding filtered
  filtered-KeepsSome arg h e = rw (kept_tokens-select keep (tokens b',' (drop 2 arg))) h

  merge_o_args-Keeps :
      (argv : List Bytes)
      → All KeepsSome (option_groups argv)
      → All (Keeps keep) (merge_o_args argv)
  unfolding merge_o_args option_groups
  merge_o_args-Keeps [] h = tt
  merge_o_args-Keeps (arg ∷ []) h = elim (Bool-cases (bytes_eq arg (codes "-o"))) [
    | inl e ↦ rw e tt
    | inr e ↦ elim (Bool-cases (is_o arg)) [
      | inl k ↦ rw e (filtered-KeepsSome arg (rw (e, k) at h).0, tt)
      | inr k ↦ rw e (λ yes. cc, tt)
    ]
  ]
  merge_o_args-Keeps (arg ∷ next ∷ args) h = elim (Bool-cases (bytes_eq arg (codes "-o"))) [
    | inl e ↦
        let (first, rest) = (rw e at h) in
        rw (merge_separate arg next args e)
          (filtered-KeepsSome (codes "-o" ++ next) first, merge_o_args-Keeps args rest)
    | inr e ↦ elim (Bool-cases (is_o arg)) [
      | inl k ↦
          let (first, rest) = (rw (e, k) at h) in
          rw (merge_other arg next args e)
            (filtered-KeepsSome arg first, merge_o_args-Keeps (next ∷ args) rest)
      | inr k ↦
          rw (merge_other arg next args e)
            (λ yes. cc, merge_o_args-Keeps (next ∷ args) (rw (e, k) at h))
    ]
  ]

  -- `filter_o_opts` leaves exactly the options that `keep` lets pass, in their order, of all that are
  -- given behind a `-o`, joined to it or as the next argument, and exactly the arguments that are
  -- neither. In what is left options are joined to their `-o`. For arguments of which each `-o` that
  -- is not the last argument has an option that is kept.
  pub filter_o_opts-options_of :
      (argv : List Bytes)
      → All KeepsSome (option_groups argv)
      → let argv' = filter_o_opts keep argv in
        (options_of argv' ≡ select keep (joined (option_groups argv)))
        × (others_of argv' ≡ plain_args argv)
  unfolding filter_o_opts
  filter_o_opts-options_of argv h =
      let (options, others) = merge_o_args-option_groups argv in
      let (options', others') =
        filter_loop-options_of keep (merge_o_args argv) (merge_o_args-Keeps argv h) in
      (
        options'
            ∙ ap (kept_tokens keep) options
            ∙ kept_tokens-select keep (joined (option_groups argv)),
        others' ∙ others,
      )
