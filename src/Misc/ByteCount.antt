-- ===== src/Misc/ByteCount.antt =====
-- `parse_byte_count` of src/misc.c, over the C library's floating-point numbers.
use bindfs.Base.{ℕ, ◌*◌, [], ◌∷◌, Option, none, some, Bool, if◌then◌else◌}
use bindfs.Base.Text.{Bytes, codes, bytes_eq}

-- `strtod` gives the value and what stands behind it.
pub record Doubles : Type 1 where
  pub Double : Type 0
  pub strtod : Bytes → Double × Bytes
  pub times : Double → ℕ → Double
  pub is_positive : Double → Bool

unfoldable pub unit_factor : Bytes → Option ℕ
unfolding bytes_eq
unit_factor [] = some 1
unit_factor (c ∷ cs) =
    let end = c ∷ cs in
    if bytes_eq end (codes "k")
    then some 1024
    else if bytes_eq end (codes "M")
    then some (1024 * 1024)
    else if bytes_eq end (codes "G")
    then some (1024 * 1024 * 1024)
    else if bytes_eq end (codes "T")
    then some (1024 * 1024 * 1024 * 1024)
    else none

abbrev pub with_factor : (doubles : Doubles) → doubles.Double → Option ℕ → Option doubles.Double
with_factor doubles base none = none
with_factor doubles base (some mul) = some (doubles.times base mul)

unfoldable pub parse_byte_count : (doubles : Doubles) → Bytes → Option doubles.Double
unfolding unit_factor
parse_byte_count doubles str =
    let (base, end) = doubles.strtod str in with_factor doubles base (unit_factor end)
