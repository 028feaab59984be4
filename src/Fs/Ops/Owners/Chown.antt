-- ===== src/Fs/Ops/Owners/Chown.antt =====
-- `bindfs_chown`: what the policies keep from the source directory, and how the owner that is shown
-- leads back to the owner below.
use bindfs.Base.{ℕ, ◌≤◌, ◌≡◌, ◌≢◌, ◌⊎◌, inl, inr, Option, some, arith, ap, sym, ◌∙◌}
use bindfs.Base.{true, ◌&&◌, ◌==◌}
use bindfs.Base.Errors.{ok, eperm, eio}
use bindfs.Base.Int.{pos}
use bindfs.Base.Text.{Bytes}
use bindfs.Usermap.{usermap_get_uid_or_default, usermap_get_gid_or_default}
use bindfs.Usermap.Arrays.{no_id, table_get}
use bindfs.Usermap.Laws.{table_get_missing}
use bindfs.Usermap.Inverse.{IsInverse, table_get-table_get}
use bindfs.Fs.Settings.{Settings, ChownPolicy, ChgrpPolicy, chown_normal, chown_ignore, chown_deny}
use bindfs.Fs.Settings.{chgrp_normal, chgrp_ignore, chgrp_deny}
use bindfs.Fs.Os.{Os, Peers, pure, fail}
use bindfs.Fs.Ids.{id_max, apply_uid_offset, unapply_uid_offset, unapply_gid_offset}
use bindfs.Fs.Ids.Offsets.{shift_id-le, shift_id-neg, shift_id_zero, shift_id-neg_zero}
use bindfs.Fs.Common.{or_fail}
use bindfs.Fs.Common.Paths.{process_path-Keeps}
use bindfs.Fs.Keeps.{
  Keeps, pure-Keeps, fail-Keeps, bind-Keeps, returns-Keeps, if-Keeps, or_fail-Keeps,
}
use bindfs.Fs.Attr.{shown_uid}
use bindfs.Fs.Ops.Owners.{asked_uid, asked_gid, chown_ids, bindfs_chown}

module _ (os : Os) (peers : Peers os.State) (settings : Settings) where
  -- Where both policies ignore, a request succeeds and no call is made.
  pub chown_ignored :
      (path : Option Bytes) (uid gid : ℕ) (s : os.State)
      → settings.chown_policy ≡ chown_ignore
      → settings.chgrp_policy ≡ chgrp_ignore
      → bindfs_chown os peers settings path uid gid s ≡ (ok tt, s)
  unfolding bindfs_chown
  chown_ignored path uid gid s p q = ground arith

  pub asked_uid-Keeps :
      (I : os.State → Type 0) (uid : ℕ) → Keeps I (asked_uid os peers settings uid)
  unfolding asked_uid
  asked_uid-Keeps I uid = if-Keeps (uid == no_id) (pure-Keeps uid) (by_policy settings.chown_policy)
    where
      by_policy :
          (p : ChownPolicy)
          → Keeps I (elim p [
            | chown_normal ↦ or_fail eio (
                unapply_uid_offset settings
                  (usermap_get_uid_or_default settings.usermap_reverse uid uid))
            | chown_ignore ↦ pure no_id
            | chown_deny ↦ fail eperm
          ])
      by_policy chown_normal = or_fail-Keeps eio _
      by_policy chown_ignore = pure-Keeps no_id
      by_policy chown_deny = fail-Keeps eperm

  pub asked_gid-Keeps :
      (I : os.State → Type 0) (gid : ℕ) → Keeps I (asked_gid os peers settings gid)
  unfolding asked_gid
  asked_gid-Keeps I gid = if-Keeps (gid == no_id) (pure-Keeps gid) (by_policy settings.chgrp_policy)
    where
      by_policy :
          (p : ChgrpPolicy)
          → Keeps I (elim p [
            | chgrp_normal ↦ or_fail eio (
                unapply_gid_offset settings
                  (usermap_get_gid_or_default settings.usermap_reverse gid gid))
            | chgrp_ignore ↦ pure no_id
            | chgrp_deny ↦ fail eperm
          ])
      by_policy chgrp_normal = or_fail-Keeps eio _
      by_policy chgrp_ignore = pure-Keeps no_id
      by_policy chgrp_deny = fail-Keeps eperm

  asked_uid-unset :
      settings.chown_policy ≢ chown_normal
      → (uid : ℕ) (s : os.State) (u : ℕ) → (asked_uid os peers settings uid s).0 ≡ ok u
      → u ≡ no_id
  unfolding asked_uid
  asked_uid-unset h uid s u e = ground arith

  chown_ids-Keeps :
      (I : os.State → Type 0) (path : Option Bytes) (u g : ℕ)
      → u ≡ no_id
      → ((p : Bytes) → Keeps I (os.realpath p))
      → ((p : Bytes) (g : ℕ) → Keeps I (os.lchown p no_id g))
      → Keeps I (chown_ids os peers settings path u g)
  unfolding chown_ids
  chown_ids-Keeps I path u g e kr kc =
      if-Keeps ((u == no_id) && (g == no_id)) (pure-Keeps tt)
        (bind-Keeps (process_path-Keeps os peers settings I kr path true) λ real. rw e (kc real g))

  -- Under --chown-ignore or --chown-deny `bindfs_chown` changes no owner: what `realpath`, and `lchown`
  -- with `(uid_t)-1` for the owner, leave alone is left alone, whatever group is asked for.
  pub chown-Keeps :
      (I : os.State → Type 0)
      → settings.chown_policy ≢ chown_normal
      → ((p : Bytes) → Keeps I (os.realpath p))
      → ((p : Bytes) (g : ℕ) → Keeps I (os.lchown p no_id g))
      → (path : Option Bytes) (uid gid : ℕ) → Keeps I (bindfs_chown os peers settings path uid gid)
  unfolding bindfs_chown
  chown-Keeps I not_normal kr kc path uid gid =
      returns-Keeps (asked_uid os peers settings uid) _ (asked_uid-Keeps I uid) λ s u e.
        bind-Keeps (asked_gid-Keeps I gid)
          λ g. chown_ids-Keeps I path u g (asked_uid-unset not_normal uid s u e) kr kc

  -- The owner that the mount shows, handed back to `bindfs_chown`, asks for the owner below. For a
  -- chown policy that passes owners on, no forced owner, tables that are inverse to one another and
  -- an id of at most 2 ^ 31 - 1, where no offset is set and the first table holds the id or neither
  -- table does.
  pub asked_uid-shown_uid :
      (uid : ℕ) {v : ℕ} (s : os.State)
      → settings.chown_policy ≡ chown_normal
      → settings.new_uid ≡ no_id
      → settings.uid_offset ≡ pos 0
      → IsInverse settings.usermap.users settings.usermap_reverse.users
      → uid ≤ id_max
      → (table_get settings.usermap.users uid no_id ≢ no_id)
        ⊎ ((table_get settings.usermap.users uid no_id ≡ no_id)
            × (table_get settings.usermap_reverse.users uid no_id ≡ no_id))
      → shown_uid settings uid ≡ some v
      → asked_uid os peers settings v s ≡ (ok uid, s)
  unfolding asked_uid shown_uid usermap_get_uid_or_default apply_uid_offset unapply_uid_offset
  asked_uid-shown_uid uid {v} s normal own zero_offset inverse small (inl held) h = ground (
    arith,
    shift_id_zero settings.uid_offset (table_get settings.usermap.users uid uid) {v = v}
        zero_offset,
    shift_id-neg_zero settings.uid_offset uid zero_offset small,
    table_get-table_get uid uid v inverse (omega arith) held,
    shift_id-le settings.uid_offset (table_get settings.usermap.users uid uid) {v = v},
  )
  asked_uid-shown_uid uid {v} s normal own zero_offset inverse small (inr free) h = ground (
    arith,
    shift_id_zero settings.uid_offset uid {v = v} zero_offset,
    shift_id-neg_zero settings.uid_offset uid zero_offset small,
    table_get_missing settings.usermap.users uid uid inverse.valid free.0,
    table_get_missing settings.usermap_reverse.users uid uid inverse.valid_reverse free.1,
  )

  -- The same with any offset. For a chown policy that passes owners on, no forced owner, tables
  -- that are inverse to one another and an id of at most 2 ^ 31 - 1, where the first table does not
  -- hold the id below, and the reverse table not the id that is shown.
  asked_uid-offset :
      (uid : ℕ) {v : ℕ} (s : os.State)
      → settings.chown_policy ≡ chown_normal
      → settings.new_uid ≡ no_id
      → IsInverse settings.usermap.users settings.usermap_reverse.users
      → uid ≤ id_max
      → table_get settings.usermap.users uid no_id ≡ no_id
      → shown_uid settings uid ≡ some v
      → table_get settings.usermap_reverse.users v no_id ≡ no_id
      → asked_uid os peers settings v s ≡ (ok uid, s)
  unfolding asked_uid shown_uid usermap_get_uid_or_default apply_uid_offset unapply_uid_offset
  asked_uid-offset uid {v} s normal own inverse small free h free' = ground (
    arith,
    shift_id-neg settings.uid_offset uid {v = v} small,
    shift_id-le settings.uid_offset uid {v = v},
    table_get_missing settings.usermap.users uid uid inverse.valid free,
    table_get_missing settings.usermap_reverse.users v v inverse.valid_reverse free',
  )

  ok-injective : {a b : ℕ} → ok a ≡ ok b → a ≡ b
  ok-injective h = cc

  -- With a table and an offset together the two are not undone in the order that they were applied
  -- in: where the reverse table does not hold the id that is shown, `bindfs_chown` asks for the id
  -- that the table gave, and that is not the owner below. For a table that maps the owner to another
  -- id, a chown policy that passes owners on, no forced owner, tables that are inverse to one another, and a table that gives an id of at
  -- most 2 ^ 31 - 1.
  pub asked_uid-map_and_offset :
      (uid : ℕ) {v : ℕ} (s : os.State)
      → settings.chown_policy ≡ chown_normal
      → settings.new_uid ≡ no_id
      → IsInverse settings.usermap.users settings.usermap_reverse.users
      → table_get settings.usermap.users uid uid ≢ uid
      → table_get settings.usermap.users uid uid ≤ id_max
      → shown_uid settings uid ≡ some v
      → table_get settings.usermap_reverse.users v no_id ≡ no_id
      → (asked_uid os peers settings v s ≡ (ok (table_get settings.usermap.users uid uid), s))
        × (asked_uid os peers settings v s ≢ (ok uid, s))
  unfolding asked_uid shown_uid usermap_get_uid_or_default apply_uid_offset unapply_uid_offset
  asked_uid-map_and_offset uid {v} s normal own inverse other small h free' =
      let asked : asked_uid os peers settings v s
          ≡ (ok (table_get settings.usermap.users uid uid), s) =
        ground (
          arith,
          shift_id-neg settings.uid_offset (table_get settings.usermap.users uid uid) {v = v} small,
          shift_id-le settings.uid_offset (table_get settings.usermap.users uid uid) {v = v},
          table_get_missing settings.usermap_reverse.users v v inverse.valid_reverse free',
        ) in
      (asked, λ same. other (ok-injective (ap (λ r. r.0) (sym asked ∙ same))))
