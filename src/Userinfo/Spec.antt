-- ===== src/Userinfo/Spec.antt =====
-- What src/userinfo.c promises: the databases that it reads, and what is taken to hold of the C
-- library.
use bindfs.Base.{ℕ, ◌≡◌, ◌⊎◌, List, some, All, Mem}
use bindfs.Base.Int.{ℤ, pos}
use bindfs.Base.Text.{Bytes}
use bindfs.Userinfo.Cache.{UidCacheEntry, GidCacheEntry, Cache, Passwd, Group, Databases}

-- What the C library documents of its functions: `qsort` moves the elements of an array and makes no
-- others, `bsearch` gives an element that compares equal, `strcmp` gives 0 for equal texts only.
pub record IsSorting (sys : Databases) : Type 1 where
  pub qsort_keeps :
      {A : Type 0} (compar : A → A → ℤ) (xs : List A) (a : A)
      → Mem a (sys.qsort compar xs)
      → Mem a xs
  pub bsearch_finds :
      {K A : Type 0} (compar : K → A → ℤ) (key : K) (xs : List A) (a : A)
      → sys.bsearch compar key xs ≡ some a
      → Mem a xs × (compar key a ≡ pos 0)
  pub strcmp_equal : (a b : Bytes) → sys.strcmp a b ≡ pos 0 → a ≡ b

-- The databases say that the user is in the group: by the user's own entry, or by the name of an
-- entry of the user among the members of the group.
pub record IsMainGroup (sys : Databases) (uid gid : ℕ) : Type 0 where
  pub entry : Passwd
  pub listed : Mem entry sys.users
  pub has_uid : entry.pw_uid ≡ uid
  pub has_gid : entry.pw_gid ≡ gid

pub record IsNamed (sys : Databases) (uid gid : ℕ) : Type 0 where
  pub group : Group
  pub user : Passwd
  pub group_listed : Mem group sys.groups
  pub user_listed : Mem user sys.users
  pub named : Mem user.pw_name group.gr_mem
  pub has_uid : user.pw_uid ≡ uid
  pub has_gid : group.gr_gid ≡ gid

abbrev pub Belongs : Databases → ℕ → ℕ → Type 0
Belongs sys uid gid = IsMainGroup sys uid gid ⊎ IsNamed sys uid gid

module _ (sys : Databases) where
  -- The entry of a user, and the names of a group, as the databases have them.
  abbrev pub FromUser : UidCacheEntry → Type 0
  FromUser e =
      (pw : Passwd) × Mem pw sys.users
      × (e ≡ record { uid = pw.pw_uid; main_gid = pw.pw_gid; username = pw.pw_name })

  abbrev pub FromGroup : GidCacheEntry → Type 0
  FromGroup e =
      (gr : Group) × Mem gr sys.groups
      × (e.gid ≡ gr.gr_gid)
      × All (λ uid. (pw : Passwd) × Mem pw sys.users × Mem pw.pw_name gr.gr_mem × (pw.pw_uid ≡ uid))
          e.uids

  -- The cache holds what the databases say.
  pub record IsCached (c : Cache) : Type 0 where
    pub from_users : All FromUser c.uid_cache
    pub from_groups : All FromGroup c.gid_cache
