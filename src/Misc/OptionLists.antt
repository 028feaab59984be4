-- ===== src/Misc/OptionLists.antt =====
-- The functions of src/misc.c that rewrite the arguments with comma-separated options behind `-o`.
pub mod Given
pub mod Kept
use bindfs.Base.{ℕ, List, [], ◌∷◌, ◌++◌, Bool, true, false, ◌==◌, if◌then◌else◌, drop}
use bindfs.Base.Text.{Bytes, codes, bytes_eq, starts_with}

-- `("-o", "...")` becomes `("-o...")`; a `-o` at the end is dropped.
unfoldable pub merge_o_args : List Bytes → List Bytes
unfolding bytes_eq
merge_o_args [] = []
merge_o_args (arg ∷ []) = if bytes_eq arg (codes "-o") then [] else arg ∷ []
merge_o_args (arg ∷ next ∷ args) = elim (bytes_eq arg (codes "-o")) [
  | true ↦ (codes "-o" ++ next) ∷ merge_o_args args
  | false ↦ arg ∷ merge_o_args (next ∷ args)
]

-- The tokens that calls of `strtok` give in turn.
abbrev pub onto_token : ℕ → List Bytes → List Bytes
onto_token c [] = (c ∷ []) ∷ []
onto_token c (tok ∷ toks) = (c ∷ tok) ∷ toks

unfoldable pub tokens : ℕ → Bytes → List Bytes
tokens delim [] = []
tokens delim (c ∷ []) = if c == delim then [] else (c ∷ []) ∷ []
tokens delim (c ∷ d ∷ cs) =
    let rest = tokens delim (d ∷ cs) in
    if c == delim then rest else if d == delim then (c ∷ []) ∷ rest else onto_token c rest

-- The options that `keep` lets pass, with commas between them.
unfoldable pub kept_tokens : (Bytes → Bool) → List Bytes → List Bytes
kept_tokens keep [] = []
kept_tokens keep (tok ∷ toks) =
    let rest = kept_tokens keep toks in if keep tok then tok ∷ rest else rest

unfoldable pub comma_list : List Bytes → Bytes
comma_list [] = []
comma_list (tok ∷ []) = tok
comma_list (tok ∷ next ∷ toks) = tok ++ (b',' ∷ comma_list (next ∷ toks))

-- `filtered`, of which nothing is left when no option is kept.
unfoldable pub filtered : (Bytes → Bool) → Bytes → List Bytes
unfolding tokens kept_tokens
filtered keep arg = kept_tokens keep (tokens b',' (drop 2 arg))

-- Where an argument is removed the others move up, and the loop goes on behind the one that has
-- taken its place.
unfoldable pub filter_loop : (Bytes → Bool) → List Bytes → List Bytes
unfolding starts_with filtered comma_list
filter_loop keep [] = []
filter_loop keep (arg ∷ []) = elim (starts_with arg (codes "-o")) [
  | false ↦ arg ∷ []
  | true ↦ elim (filtered keep arg) [
    | [] ↦ []
    | tok ∷ toks ↦ (codes "-o" ++ comma_list (tok ∷ toks)) ∷ []
  ]
]
filter_loop keep (arg ∷ next ∷ args) = elim (starts_with arg (codes "-o")) [
  | false ↦ arg ∷ filter_loop keep (next ∷ args)
  | true ↦ elim (filtered keep arg) [
    | [] ↦ next ∷ filter_loop keep args
    | tok ∷ toks ↦ (codes "-o" ++ comma_list (tok ∷ toks)) ∷ filter_loop keep (next ∷ args)
  ]
]

unfoldable pub filter_o_opts : (Bytes → Bool) → List Bytes → List Bytes
unfolding merge_o_args filter_loop
filter_o_opts keep argv = filter_loop keep (merge_o_args argv)
