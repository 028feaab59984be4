-- ===== src/Userinfo/Rounds.antt =====
-- The loops of `user_uid` and `group_gid` in src/userinfo.c end with the answer of the database.
use bindfs.Base.{ℕ, zero, suc, ◌*◌, ◌≤◌, ◌≡◌, refl, ◌≢◌, ◌⊎◌, inl, inr, ◌∷◌, arith}
use bindfs.Base.Text.{Bytes}
use bindfs.Userinfo.Names.{
  Lookup, found, missing, too_small, NameDb, retry, to_option, user_uid, group_gid,
}

-- The size of the buffer after so many rounds.
abbrev pub buffer_after : ℕ → ℕ → ℕ
buffer_after zero buflen = buflen
buffer_after (suc n) buflen = buffer_after n (buflen * 2)

-- What `getpwnam_r` documents: it fails with ERANGE only where the buffer is too small, which one of
-- `need` bytes is not, and otherwise answers the same for every buffer.
pub record IsLookup (look : ℕ → Lookup) (need : ℕ) (answer : Lookup) : Type 0 where
  pub proper : answer ≢ too_small
  pub enough : (n : ℕ) → need ≤ n → look n ≡ answer
  pub steady : (n : ℕ) → (look n ≡ answer) ⊎ (look n ≡ too_small)

retry_answered :
    (fuel : ℕ) (look : ℕ → Lookup) (buflen : ℕ) (answer : Lookup)
    → answer ≢ too_small
    → look buflen ≡ answer
    → retry (suc fuel) look buflen ≡ answer
unfolding retry
retry_answered fuel look buflen (found id) proper h = ground arith
retry_answered fuel look buflen missing proper h = ground arith
retry_answered fuel look buflen too_small proper h = absurd (proper refl)

retry_again :
    (fuel : ℕ) (look : ℕ → Lookup) (buflen : ℕ)
    → look buflen ≡ too_small
    → retry (suc fuel) look buflen ≡ retry fuel look (buflen * 2)
unfolding retry
retry_again fuel look buflen h = ground arith

retry_lem :
    (fuel : ℕ) (look : ℕ → Lookup) (need : ℕ) (answer : Lookup) (buflen : ℕ)
    → IsLookup look need answer
    → need ≤ buffer_after fuel buflen
    → retry fuel look buflen ≡ answer
unfolding retry
retry_lem zero look need answer buflen v h = v.enough buflen h
retry_lem (suc fuel) look need answer buflen v h = elim (v.steady buflen) [
  | inl e ↦ retry_answered fuel look buflen answer v.proper e
  | inr e ↦ rw (retry_again fuel look buflen e) (retry_lem fuel look need answer (buflen * 2) v h)
]

-- `user_uid` gives the id that the database has for a name that is no number, or fails where it has
-- none: the loop doubles the buffer until it is large enough, which it is within the rounds. For a
-- database that documents `IsLookup`.
pub user_uid_lem :
    (db : NameDb) (username : Bytes) (need : ℕ) (answer : Lookup) {c : ℕ} {cs : Bytes}
    → (db.strtol username).1 ≡ c ∷ cs
    → IsLookup (db.getpwnam_r username) need answer
    → need ≤ buffer_after db.rounds 1024
    → user_uid db username ≡ to_option answer
unfolding user_uid
user_uid_lem db username need answer textual v h =
    rw (textual, retry_lem db.rounds (db.getpwnam_r username) need answer 1024 v h) refl

-- The same for `group_gid`.
pub group_gid_lem :
    (db : NameDb) (groupname : Bytes) (need : ℕ) (answer : Lookup) {c : ℕ} {cs : Bytes}
    → (db.strtol groupname).1 ≡ c ∷ cs
    → IsLookup (db.getgrnam_r groupname) need answer
    → need ≤ buffer_after db.rounds 1024
    → group_gid db groupname ≡ to_option answer
unfolding group_gid
group_gid_lem db groupname need answer textual v h =
    rw (textual, retry_lem db.rounds (db.getgrnam_r groupname) need answer 1024 v h) refl
