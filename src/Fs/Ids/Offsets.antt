-- ===== src/Fs/Ids/Offsets.antt =====
-- The offsets on ids stay within the bound and undo one another.
use bindfs.Base.{ℕ, ◌≤◌, ◌≡◌, some, arith}
use bindfs.Base.Int.{ℤ, pos, negsuc, neg}
use bindfs.Fs.Ids.{id_max, shift_id}

-- An id that an offset gives is at most the largest `int32_t`.
pub shift_id-le : (offset : ℤ) (id : ℕ) {v : ℕ} → shift_id offset id ≡ some v → v ≤ id_max
unfolding shift_id
shift_id-le (pos n) id h = ground arith
shift_id-le (negsuc n) id h = ground arith

-- Taking an offset off gives back the id that it was added to, if that id is within the bound.
pub shift_id-neg :
    (offset : ℤ) (id : ℕ) {v : ℕ}
    → id ≤ id_max
    → shift_id offset id ≡ some v
    → shift_id (neg offset) v ≡ some id
unfolding shift_id neg
shift_id-neg (pos n) id b h = ground arith
shift_id-neg (negsuc n) id b h = ground arith

pub shift_id_zero : (o : ℤ) (id : ℕ) {v : ℕ} → o ≡ pos 0 → shift_id o id ≡ some v → v ≡ id
unfolding shift_id
shift_id_zero (pos n) id z h = ground arith
shift_id_zero (negsuc n) id z h = ground arith

pub shift_id-neg_zero : (o : ℤ) (id : ℕ) → o ≡ pos 0 → id ≤ id_max → shift_id (neg o) id ≡ some id
unfolding shift_id neg
shift_id-neg_zero (pos n) id z h = ground arith
shift_id-neg_zero (negsuc n) id z h = ground arith
