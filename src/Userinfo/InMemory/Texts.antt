-- ===== src/Userinfo/InMemory/Texts.antt =====
-- Texts and ids that are read back from the bytes of src/userinfo.c's memory block.
use bindfs.Base.{
  ℕ, zero, suc, ◌+◌, ◌*◌, ◌^◌, ◌/◌, ◌%◌, ◌≤◌, ◌<◌, ◌≡◌, ◌≢◌, refl, ap, List, [], ◌∷◌, ◌++◌, ==_ne,
  All, length, take, drop, arith,
}
use mathlib.Core.List.{append-nil}
use bindfs.Base.Text.{Bytes}
use bindfs.Userinfo.InMemory.{c_string, word_bytes, read_words, write_at}

pub drop-append : (front back : Bytes) → drop (length front) (front ++ back) ≡ back
drop-append [] back = refl
drop-append (c ∷ front) back = drop-append front back

take_all : (bytes : Bytes) → take (length bytes) bytes ≡ bytes
take_all [] = refl
take_all (c ∷ bytes) = ap (λ cs. c ∷ cs) (take_all bytes)

drop_all : (n : ℕ) (bytes : Bytes) → length bytes ≤ n → drop n bytes ≡ []
drop_all zero [] h = refl
drop_all zero (c ∷ bytes) h = absurd (omega arith)
drop_all (suc n) [] h = refl
drop_all (suc n) (c ∷ bytes) h = drop_all n bytes (omega arith)

-- A text without a 0 in it, as `strcpy` and `memcpy` leave it.
abbrev pub IsText : Bytes → Type 0
IsText name = All (λ c. c ≢ 0) name

pub c_string-append : (name rest : Bytes) → IsText name → c_string (name ++ (0 ∷ rest)) ≡ name
unfolding c_string
c_string-append [] rest h = refl
c_string-append (c ∷ name) rest (ne, h) =
    rw (==_ne c 0 ne) (ap (λ cs. c ∷ cs) (c_string-append name rest h))

abbrev pub words : List ℕ → Bytes
words [] = []
words (n ∷ ns) = word_bytes n ++ words ns

pub read_words-words :
    (ns : List ℕ) (rest : Bytes)
    → All (λ n. n < 2 ^ 32) ns
    → read_words (length ns) (words ns ++ rest) ≡ ns
unfolding read_words
read_words-words [] rest h = refl
read_words-words (n ∷ ns) rest (small, h) =
    let whole : n % 256
          + 256 * (n / 256 % 256)
          + 65536 * (n / 65536 % 256)
          + 16777216 * (n / 16777216 % 256)
        ≡ n =
      omega (arith, small) in
    rw (whole, read_words-words ns rest h) refl

pub words-append : (ms ns : List ℕ) → words (ms ++ ns) ≡ words ms ++ words ns
words-append [] ns = refl
words-append (m ∷ ms) ns = rw (words-append ms ns) refl

pub length-words : (ns : List ℕ) → length (words ns) ≡ 4 * length ns
length-words [] = refl
length-words (n ∷ ns) = omega (arith, length-words ns)

-- A write behind all that has been written.
pub write_at-length : (bytes src : Bytes) → write_at bytes (length bytes) src ≡ bytes ++ src
write_at-length bytes src =
    rw (take_all bytes, drop_all (length bytes + length src) bytes (omega arith), append-nil src)
      refl
