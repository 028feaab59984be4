-- ===== src/Options/Maps/Columns.antt =====
-- How `parse_map_file` of src/bindfs.c reads the columns of a line by `strtok`.
use bindfs.Base.{
  ℕ, ◌≡◌, ◌≢◌, refl, ap, ◌∙◌, inl, inr, List, [], ◌∷◌, Option, none, some, true, Bool-cases,
  Option-cases, ==_ne, ◌==◌, arith,
}
use bindfs.Base.Maybe.{◌>>=◌}
use bindfs.Base.Text.{Bytes}
use bindfs.Misc.OptionLists.{tokens}
use bindfs.Options.Maps.{
  token, strtok, without_newline, Line, unexpected_end, ignored, from_column, third_column,
  later_columns, read_line,
}

tokens_behind :
    (delim c : ℕ) (s : Bytes) → (c == delim) ≡ true → tokens delim (c ∷ s) ≡ tokens delim s
unfolding tokens
tokens_behind delim c [] e = rw e refl
tokens_behind delim c (d ∷ s) e = rw e refl

tokens-token :
    (delim c : ℕ) (cs : Bytes)
    → c ≢ delim
    → tokens delim (c ∷ cs) ≡ (c ∷ (token delim cs).0) ∷ tokens delim (token delim cs).1
unfolding tokens token
tokens-token delim c [] ne = rw (==_ne c delim ne) refl
tokens-token delim c (d ∷ cs) ne = elim (Bool-cases (d == delim)) [
  | inl e ↦ rw (==_ne c delim ne, e) (ap (λ ts. (c ∷ []) ∷ ts) (tokens_behind delim d cs e))
  | inr e ↦ rw (==_ne c delim ne, e, tokens-token delim d cs (ground (arith, e))) refl
]

-- The first call of `strtok` and those that follow.
abbrev onwards : ℕ → Option (Bytes × Bytes) → List Bytes
onwards delim none = []
onwards delim (some (tok, rest)) = tok ∷ tokens delim rest

tokens-strtok : (delim : ℕ) (s : Bytes) → tokens delim s ≡ onwards delim (strtok delim s)
unfolding strtok tokens
tokens-strtok delim [] = refl
tokens-strtok delim (c ∷ cs) = elim (Bool-cases (c == delim)) [
  | inl e ↦ rw e (tokens_behind delim c cs e ∙ tokens-strtok delim cs)
  | inr e ↦ rw e (tokens-token delim c cs (ground (arith, e)))
]

-- What the columns of a line that are not empty say: the first is a name, the third an id.
abbrev pub third_of : (Bytes → Option ℕ) → ℕ → List Bytes → Line
third_of value_to_id uid_to [] = unexpected_end
third_of value_to_id uid_to (skipped ∷ []) = unexpected_end
third_of value_to_id uid_to (skipped ∷ id ∷ columns) = from_column uid_to (value_to_id id)

abbrev pub named_line : (Bytes → Option ℕ) → List Bytes → Option ℕ → Line
named_line value_to_id columns none = ignored
named_line value_to_id columns (some uid_to) = third_of value_to_id uid_to columns

abbrev pub line_of : (Bytes → Option ℕ) → List Bytes → Line
line_of value_to_id [] = unexpected_end
line_of value_to_id (name ∷ columns) = named_line value_to_id columns (value_to_id name)

third_column_lem :
    (value_to_id : Bytes → Option ℕ) (uid_to : ℕ) (rest : Bytes)
    → third_column value_to_id uid_to (strtok b':' rest >>= λ (skipped, rest'). strtok b':' rest')
      ≡ third_of value_to_id uid_to (tokens b':' rest)
third_column_lem value_to_id uid_to rest = elim (Option-cases (strtok b':' rest)) [
  | inl n ↦ rw (tokens-strtok b':' rest, n) refl
  | inr ((skipped, rest'), n) ↦ elim (Option-cases (strtok b':' rest')) [
    | inl k ↦ rw (tokens-strtok b':' rest, n) (rw (tokens-strtok b':' rest', k) refl)
    | inr ((id, more), k) ↦ rw (tokens-strtok b':' rest, n) (rw (tokens-strtok b':' rest', k) refl)
  ]
]

later_columns_lem :
    (value_to_id : Bytes → Option ℕ) (rest : Bytes) (o : Option ℕ)
    → later_columns value_to_id rest o ≡ named_line value_to_id (tokens b':' rest) o
later_columns_lem value_to_id rest none = refl
later_columns_lem value_to_id rest (some uid_to) = third_column_lem value_to_id uid_to rest

pub read_line_lem :
    (value_to_id : Bytes → Option ℕ) (line : Bytes)
    → read_line value_to_id line ≡ line_of value_to_id (tokens b':' (without_newline line))
unfolding read_line
read_line_lem value_to_id line = elim (Option-cases (strtok b':' (without_newline line))) [
  | inl n ↦ rw (tokens-strtok b':' (without_newline line), n, read_line) refl
  | inr ((column, rest), n) ↦
      rw (tokens-strtok b':' (without_newline line), n, read_line)
        (later_columns_lem value_to_id rest (value_to_id column))
]
