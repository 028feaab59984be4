-- ===== src/Misc/Texts.antt =====
-- The functions of src/misc.c that count in texts and cut them.
use bindfs.Base.{ℕ, ◌+◌, [], ◌∷◌, Bool, false, ◌||◌, ◌==◌, ltb, if◌then◌else◌, length}
use bindfs.Base.Text.{Bytes, starts_with}

unfoldable pub count_chars : Bytes → ℕ → ℕ
count_chars [] ch = 0
count_chars (c ∷ cs) ch = (if c == ch then 1 else 0) + count_chars cs ch

-- The loop runs while more than `strlen(sub)` characters are left, so that a match at the very end
-- is not counted.
unfoldable pub count_substrs : Bytes → Bytes → ℕ
unfolding starts_with
count_substrs [] sub = 0
count_substrs (c ∷ cs) sub =
    let rest = count_substrs cs sub in
    if ltb (length sub) (length (c ∷ cs))
    then (if starts_with (c ∷ cs) sub then 1 else 0) + rest
    else 0

-- Whether `strpbrk` stops at a character.
unfoldable pub contains_char : Bytes → ℕ → Bool
contains_char [] c = false
contains_char (e ∷ endchars) c = (e == c) || contains_char endchars c

unfoldable pub strdup_until : Bytes → Bytes → Bytes
unfolding contains_char
strdup_until [] endchars = []
strdup_until (c ∷ cs) endchars =
    let rest = strdup_until cs endchars in if contains_char endchars c then [] else c ∷ rest
