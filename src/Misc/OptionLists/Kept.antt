-- ===== src/Misc/OptionLists/Kept.antt =====
-- Which options the loop of `filter_o_opts` of src/misc.c leaves in the arguments.
use mathlib.Core.Path.{ap₂}
use bindfs.Base.{
  ℕ, ◌≡◌, ◌≢◌, refl, sym, ap, ◌∙◌, inl, inr, List, [], ◌∷◌, ◌++◌, Bool, true, Bool-cases, ==_ne,
  ◌==◌, if◌then◌else◌, All, drop, arith,
}
use bindfs.Base.Text.{Bytes, codes, starts_with}
use bindfs.Misc.OptionLists.{onto_token, tokens, kept_tokens, comma_list, filtered, filter_loop}

-- The texts between commas are not empty.
abbrev pub IsToken : Bytes → Type 0
IsToken [] = ⊥
IsToken (c ∷ cs) = (c ≢ b',') × All (λ d. d ≢ b',') cs

onto_token-IsToken :
    (c : ℕ) (toks : List Bytes) → c ≢ b',' → All IsToken toks → All IsToken (onto_token c toks)
onto_token-IsToken c [] ne h = ((ne, tt), tt)
onto_token-IsToken c ([] ∷ toks) ne (h, hs) = absurd h
onto_token-IsToken c ((d ∷ tok) ∷ toks) ne (h, hs) = ((ne, h), hs)

tokens-IsToken : (s : Bytes) → All IsToken (tokens b',' s)
unfolding tokens
tokens-IsToken [] = tt
tokens-IsToken (c ∷ []) = elim (Bool-cases (c == b',')) [
  | inl e ↦ rw e tt
  | inr e ↦ rw e ((ground (arith, e), tt), tt)
]
tokens-IsToken (c ∷ d ∷ cs) = elim (Bool-cases (c == b',')) [
  | inl e ↦ rw e (tokens-IsToken (d ∷ cs))
  | inr e ↦ elim (Bool-cases (d == b',')) [
    | inl k ↦ rw (e, k) ((ground (arith, e), tt), tokens-IsToken (d ∷ cs))
    | inr k ↦ rw (e, k) (onto_token-IsToken c _ (ground (arith, e)) (tokens-IsToken (d ∷ cs)))
  ]
]

kept_tokens-IsToken :
    (keep : Bytes → Bool) (toks : List Bytes)
    → All IsToken toks
    → All IsToken (kept_tokens keep toks)
unfolding kept_tokens
kept_tokens-IsToken keep [] h = tt
kept_tokens-IsToken keep (tok ∷ toks) (h, hs) = elim (Bool-cases (keep tok)) [
  | inl e ↦ rw e (h, kept_tokens-IsToken keep toks hs)
  | inr e ↦ rw e (kept_tokens-IsToken keep toks hs)
]

tokens_comma : (s : Bytes) → tokens b',' (b',' ∷ s) ≡ tokens b',' s
unfolding tokens
tokens_comma [] = refl
tokens_comma (c ∷ cs) = refl

tokens_one : (c : ℕ) (cs : Bytes) → IsToken (c ∷ cs) → tokens b',' (c ∷ cs) ≡ (c ∷ cs) ∷ []
unfolding tokens
tokens_one c [] (ne, h) = rw (==_ne c b',' ne) refl
tokens_one c (d ∷ cs) (ne, (ne', h)) =
    rw (==_ne c b',' ne, ==_ne d b',' ne', tokens_one d cs (ne', h)) refl

tokens_first :
    (c : ℕ) (cs more : Bytes)
    → IsToken (c ∷ cs)
    → tokens b',' (c ∷ (cs ++ (b',' ∷ more))) ≡ (c ∷ cs) ∷ tokens b',' more
unfolding tokens
tokens_first c [] more (ne, h) = rw (==_ne c b',' ne) (ap (λ ts. (c ∷ []) ∷ ts) (tokens_comma more))
tokens_first c (d ∷ cs) more (ne, (ne', h)) =
    rw (==_ne c b',' ne, ==_ne d b',' ne', tokens_first d cs more (ne', h)) refl

-- A list of options is read as it was written.
tokens-comma_list : (toks : List Bytes) → All IsToken toks → tokens b',' (comma_list toks) ≡ toks
unfolding comma_list tokens
tokens-comma_list [] h = refl
tokens-comma_list ([] ∷ toks) (h, hs) = absurd h
tokens-comma_list ((c ∷ cs) ∷ []) (h, hs) = tokens_one c cs h
tokens-comma_list ((c ∷ cs) ∷ next ∷ toks) (h, hs) =
    tokens_first c cs (comma_list (next ∷ toks)) h
    ∙ ap (λ ts. (c ∷ cs) ∷ ts) (tokens-comma_list (next ∷ toks) hs)

-- The options of all arguments that begin with `-o`, and the other arguments.
abbrev pub is_o : Bytes → Bool
is_o arg = starts_with arg (codes "-o")

abbrev pub options_of : List Bytes → List Bytes
options_of [] = []
options_of (arg ∷ args) =
    if is_o arg then tokens b',' (drop 2 arg) ++ options_of args else options_of args

abbrev pub others_of : List Bytes → List Bytes
others_of [] = []
others_of (arg ∷ args) = if is_o arg then others_of args else arg ∷ others_of args

-- Some option of the argument is kept, if it has options.
abbrev pub Keeps : (Bytes → Bool) → Bytes → Type 0
Keeps keep arg = is_o arg ≡ true → filtered keep arg ≢ []

kept_tokens-append :
    (keep : Bytes → Bool) (xs ys : List Bytes)
    → kept_tokens keep (xs ++ ys) ≡ kept_tokens keep xs ++ kept_tokens keep ys
unfolding kept_tokens
kept_tokens-append keep [] ys = refl
kept_tokens-append keep (x ∷ xs) ys = elim (Bool-cases (keep x)) [
  | inl e ↦ rw e (ap (λ zs. x ∷ zs) (kept_tokens-append keep xs ys))
  | inr e ↦ rw e (kept_tokens-append keep xs ys)
]

-- What the loop makes of one argument that stays.
abbrev filter_arg : (Bytes → Bool) → Bytes → Bytes
filter_arg keep arg = if is_o arg then codes "-o" ++ comma_list (filtered keep arg) else arg

abbrev filter_args : (Bytes → Bool) → List Bytes → List Bytes
filter_args keep [] = []
filter_args keep (arg ∷ args) = filter_arg keep arg ∷ filter_args keep args

first_kept :
    (toks : List Bytes) → toks ≢ [] → (tok : Bytes) × (rest : List Bytes) × (toks ≡ tok ∷ rest)
first_kept [] h = absurd (h refl)
first_kept (tok ∷ rest) h = (tok, rest, refl)

filter_loop-filter_args :
    (keep : Bytes → Bool) (args : List Bytes)
    → All (Keeps keep) args
    → filter_loop keep args ≡ filter_args keep args
unfolding filter_loop
filter_loop-filter_args keep [] h = refl
filter_loop-filter_args keep (arg ∷ []) (k, h) = elim (Bool-cases (is_o arg)) [
  | inl e ↦ let (tok, toks, q) = first_kept (filtered keep arg) (k e) in rw (e, q) refl
  | inr e ↦ rw e refl
]
filter_loop-filter_args keep (arg ∷ next ∷ args) (k, h) =
    let rest = filter_loop-filter_args keep (next ∷ args) h in
    elim (Bool-cases (is_o arg)) [
      | inl e ↦
          let (tok, toks, q) = first_kept (filtered keep arg) (k e) in
          rw (e, q) (ap (λ xs. (codes "-o" ++ comma_list (tok ∷ toks)) ∷ xs) rest)
      | inr e ↦ rw e (ap (λ xs. arg ∷ xs) rest)
    ]

pub is_o_again : (s : Bytes) → is_o (codes "-o" ++ s) ≡ true
unfolding starts_with
is_o_again s = refl

kept_nothing : (keep : Bytes → Bool) → [] ≡ kept_tokens keep []
unfolding kept_tokens
kept_nothing keep = refl

-- The options of one argument that stays.
filtered_options :
    (keep : Bytes → Bool) (arg : Bytes)
    → tokens b',' (comma_list (filtered keep arg)) ≡ kept_tokens keep (tokens b',' (drop 2 arg))
unfolding filtered
filtered_options keep arg =
    tokens-comma_list (filtered keep arg)
      (kept_tokens-IsToken keep (tokens b',' (drop 2 arg)) (tokens-IsToken (drop 2 arg)))

options_of-filter_args :
    (keep : Bytes → Bool) (args : List Bytes)
    → (options_of (filter_args keep args) ≡ kept_tokens keep (options_of args))
      × (others_of (filter_args keep args) ≡ others_of args)
options_of-filter_args keep [] = (kept_nothing keep, refl)
options_of-filter_args keep (arg ∷ args) =
    let (options, others) = options_of-filter_args keep args in
    elim (Bool-cases (is_o arg)) [
      | inl e ↦
          let o = is_o_again (comma_list (filtered keep arg)) in
          rw (e, o)
            (
              ap₂ ◌++◌ (filtered_options keep arg) options
                  ∙ sym (kept_tokens-append keep (tokens b',' (drop 2 arg)) (options_of args)),
              others,
            )
      | inr e ↦ rw (e, e) (options, ap (λ xs. arg ∷ xs) others)
    ]

-- What the loop leaves of arguments of which each that begins with `-o` has an option that is kept.
pub filter_loop-options_of :
    (keep : Bytes → Bool) (args : List Bytes)
    → All (Keeps keep) args
    → (options_of (filter_loop keep args) ≡ kept_tokens keep (options_of args))
      × (others_of (filter_loop keep args) ≡ others_of args)
filter_loop-options_of keep args h =
    rw (filter_loop-filter_args keep args h) (options_of-filter_args keep args)
