-- ===== src/Fs/Attr/Shown.antt =====
-- `getattr_common`: which type, permissions and owner a file is shown with.
use bindfs.Base.{ℕ, ◌≡◌, ap, ◌∙◌, ◌≢◌, ◌⊎◌, inl, inr, none, some, Bool-cases}
use bindfs.Base.{◌^◌, leb}
use bindfs.Base.{Bool, true, false, arith, not, ◌==◌, ◌&&◌, bit_and, if◌then◌else◌}
use bindfs.Base.Bits.{bit, complement, bit-bit_and, bit-complement}
use bindfs.Base.Bits.{all_below-true}
use bindfs.Base.Errors.{ok, err, eio}
use bindfs.Base.Text.{Bytes}
use bindfs.Mode.{Class, Kind, perms, index, file_type, is_blk, s_ifreg, s_iflnk}
use bindfs.Permchain.Apply.{permchain_apply}
use bindfs.Permchain.Apply.Meaning.{IsValidChain, index_small, file_type-permchain_apply}
use bindfs.Fs.Settings.{Settings, Context, Stat}
use bindfs.Fs.Os.{Os, Peers, r_ok, w_ok, x_ok, pure, ◌>>=◌}
use bindfs.Fs.Inversion.{>>=-eq-ok}
use bindfs.Fs.Common.{or_fail}
use bindfs.Fs.Attr.{
  copy_ctime, shown_uid, shown_gid, hide_links, drop_unless, device_size, with_size, block_as_file,
}
use bindfs.Fs.Attr.Types.{file_type-clear, file_type-drop_unless, low_table, file_type-block_flip}
use bindfs.Fs.Attr.{
  realistic_mode, shown_mode, with_shown_mode, by_mirroring, with_owner, finish_attr,
  asks_mirroring, getattr_common,
}

-- The type that a file of some mode is shown with.
unfoldable pub shown_type : Settings → ℕ → ℕ
shown_type settings mode =
    if settings.block_devices_as_files && is_blk mode then s_ifreg else file_type mode

hide_links-mode : (settings : Settings) (st : Stat) → (hide_links settings st).st_mode ≡ st.st_mode
unfolding hide_links
hide_links-mode settings st = elim (Bool-cases settings.hide_hard_links) [
  | inl h ↦ rw h
  | inr h ↦ rw h
]

copy_ctime-mode : (settings : Settings) (st : Stat) → (copy_ctime settings st).st_mode ≡ st.st_mode
unfolding copy_ctime
copy_ctime-mode settings st = elim (Bool-cases settings.ctime_from_mtime) [
  | inl h ↦ rw h
  | inr h ↦ rw h
]

module _ (os : Os) (peers : Peers os.State) (settings : Settings) (fc : Context) where
  realistic_mode-type :
      (p : Bytes) (m : ℕ) (s : os.State) {m' : ℕ} {s' : os.State}
      → realistic_mode os peers settings fc p m s ≡ (ok m', s')
      → file_type m' ≡ file_type m
  unfolding realistic_mode
  realistic_mode-type p m s h =
      let (r, s1) = os.access p r_ok s in
      let (w, s2) = os.access p w_ok s1 in
      let (x, s3) = os.access p x_ok s2 in
      ground (
        arith,
        file_type-drop_unless r 0o444 m (omega arith),
        file_type-drop_unless w 0o222 (drop_unless r 0o444 m) (omega arith),
        file_type-drop_unless x 0o111 (drop_unless w 0o222 (drop_unless r 0o444 m)) (omega arith),
      )

  shown_mode-type :
      (p : Bytes) (m : ℕ) (s : os.State) {m' : ℕ} {s' : os.State}
      → IsValidChain settings.permchain
      → shown_mode os peers settings fc p m s ≡ (ok m', s')
      → file_type m' ≡ file_type m
  unfolding shown_mode
  shown_mode-type p m s {m'} {s'} v h = elim (Bool-cases (bit_and m s_iflnk == s_iflnk)) [
    | inl link ↦ ground arith
    | inr other ↦ elim (Bool-cases settings.realistic_permissions) [
      | inl real ↦
          realistic_mode-type p (permchain_apply settings.permchain m) s {m' = m'} {s' = s'}
            (ground arith)
          ∙ file_type-permchain_apply settings.permchain m v
      | inr plain ↦ ground (arith, file_type-permchain_apply settings.permchain m v)
    ]
  ]

  with_size-type :
      (st : Stat) (size : ℕ) (s : os.State) {st' : Stat} {s' : os.State}
      → is_blk st.st_mode ≡ true
      → with_size os peers settings fc st size s ≡ (ok st', s')
      → file_type st'.st_mode ≡ s_ifreg
  unfolding with_size
  with_size-type st size s {st'} blk h = elim (Bool-cases (leb (2 ^ 63) size)) [
    | inl big ↦ ground arith
    | inr fits ↦ ground (arith, file_type-block_flip st.st_mode blk)
  ]

  device_as_file-type :
      (p : Bytes) (st : Stat) (s : os.State) {st' : Stat} {s' : os.State}
      → is_blk st.st_mode ≡ true
      → (device_size os peers settings fc p >>= with_size os peers settings fc st) s ≡ (ok st', s')
      → file_type st'.st_mode ≡ s_ifreg
  device_as_file-type p st s blk h =
      let (size, _, h') =
        >>=-eq-ok (device_size os peers settings fc p) (with_size os peers settings fc st) s h in
      with_size-type st size (device_size os peers settings fc p s).1 blk h'

  block_as_file-type :
      (p : Bytes) (st : Stat) (s : os.State) {st' : Stat} {s' : os.State}
      → block_as_file os peers settings fc p st s ≡ (ok st', s')
      → file_type st'.st_mode ≡ shown_type settings st.st_mode
  unfolding block_as_file shown_type
  block_as_file-type p st s {st'} {s'} h =
      elim (Bool-cases (settings.block_devices_as_files && is_blk st.st_mode)) [
        | inl on ↦
            (ground
              (arith, device_as_file-type p st s {st' = st'} {s' = s'} (ground arith) (rw on at h)))
        | inr off ↦ ground arith
      ]

  with_shown_mode-type :
      (p : Bytes) (st : Stat) (s : os.State) {st' : Stat} {s' : os.State}
      → IsValidChain settings.permchain
      → with_shown_mode os peers settings fc p st s ≡ (ok st', s')
      → file_type st'.st_mode ≡ file_type st.st_mode
  unfolding with_shown_mode
  with_shown_mode-type p st s {st'} {s'} v h =
      let (mode, e, h') =
        >>=-eq-ok (shown_mode os peers settings fc p st.st_mode)
          (λ mode. pure (record st { st_mode = mode })) s h in
      let typed : file_type mode ≡ file_type st.st_mode =
        shown_mode-type p st.st_mode s {m' = mode}
          {s' = (shown_mode os peers settings fc p st.st_mode s).1} v (ground arith) in
      ground arith

  finish_attr-type :
      (p : Bytes) (st : Stat) (s : os.State) {st' : Stat} {s' : os.State}
      → IsValidChain settings.permchain
      → finish_attr os peers settings fc p st s ≡ (ok st', s')
      → file_type st'.st_mode ≡ shown_type settings st.st_mode
  unfolding finish_attr
  finish_attr-type p st s {st'} {s'} v h =
      let (mid, e, h') =
        >>=-eq-ok (block_as_file os peers settings fc p (hide_links settings st))
          (with_shown_mode os peers settings fc p) s h in
      let typed =
        with_shown_mode-type p mid
          (block_as_file os peers settings fc p (hide_links settings st) s).1 v h' in
      let blocked =
        block_as_file-type p (hide_links settings st) s {st' = mid}
          {s' = (block_as_file os peers settings fc p (hide_links settings st) s).1}
          (ground arith) in
      typed ∙ blocked ∙ ap (shown_type settings) (hide_links-mode settings st)

  by_mirroring-type :
      (p : Bytes) (st : Stat) (mirrored : Bool) (s : os.State) {st' : Stat} {s' : os.State}
      → IsValidChain settings.permchain
      → (settings.mirrored_users_only ≡ false) ⊎ (fc.uid ≡ 0)
      → by_mirroring os peers settings fc p st mirrored s ≡ (ok st', s')
      → file_type st'.st_mode ≡ shown_type settings st.st_mode
  unfolding by_mirroring
  by_mirroring-type p st true s v seen h = finish_attr-type p (record st { st_uid = fc.uid }) s v h
  by_mirroring-type p st false s v seen h =
      let let_in : (settings.mirrored_users_only && not (fc.uid == 0)) ≡ false = ground arith in
      finish_attr-type p st s v (rw let_in at h)

  -- A file that `getattr_common` succeeds on is shown with its own type, but for a block device
  -- that --block-devices-as-files makes a regular file: for every chain of valid rules, and for all
  -- users unless --mirror-only is set, and else for root.
  pub getattr-type :
      (p : Bytes) (st : Stat) (s : os.State) {st' : Stat} {s' : os.State}
      → IsValidChain settings.permchain
      → (settings.mirrored_users_only ≡ false) ⊎ (fc.uid ≡ 0)
      → getattr_common os peers settings fc p st s ≡ (ok st', s')
      → file_type st'.st_mode ≡ shown_type settings st.st_mode
  unfolding getattr_common
  getattr-type p st s v seen h =
      let (uid, e1, h1) = >>=-eq-ok (or_fail eio (shown_uid settings st.st_uid)) _ s h in
      let (gid, e2, h2) = >>=-eq-ok (or_fail eio (shown_gid settings st.st_gid)) _ _ h1 in
      let (mirrored, e3, h3) = >>=-eq-ok (asks_mirroring os peers settings fc) _ _ h2 in
      by_mirroring-type p (with_owner os peers settings fc st uid gid) mirrored _ v seen h3
      ∙ ap (shown_type settings) (copy_ctime-mode settings st)

  -- Under --mirror-only a user who is neither mirrored nor root sees every file, whose ids are in
  -- range, with its own type and without any of the nine permission bits, and nothing is asked
  -- beyond who is mirrored.
  pub getattr-mirror_only :
      (p : Bytes) (st : Stat) (s s1 : os.State) {u g : ℕ}
      → shown_uid settings st.st_uid ≡ some u
      → shown_gid settings st.st_gid ≡ some g
      → settings.mirrored_users_only ≡ true
      → fc.uid ≢ 0
      → asks_mirroring os peers settings fc s ≡ (ok false, s1)
      → (st' : Stat) × (getattr_common os peers settings fc p st s ≡ (ok st', s1))
        × (file_type st'.st_mode ≡ file_type st.st_mode)
        × ((c : Class) (k : Kind) → perms st'.st_mode c k ≡ false)
  unfolding getattr_common by_mirroring with_owner
  getattr-mirror_only p st s s1 {u} {g} hu hg only user asked = (
    record (with_owner os peers settings fc st u g) { st_mode = denied },
    rw (hu, hg, asked, shut),
    file_type-clear mode 0o777 (omega arith) ∙ ap file_type (copy_ctime-mode settings st),
    λ c k.
        let i = index c k in
        let h = index_small c k in
        ground (
          arith,
          bit-bit_and mode (complement 0o777) i,
          bit-complement 0o777 i (omega arith),
          all_below-true 9 (λ i. bit 0o777 i) i low_table h,
        ),
  )
    where
      mode : ℕ
      mode = (copy_ctime settings st).st_mode

      denied : ℕ
      denied = bit_and mode (complement 0o777)

      shut : (settings.mirrored_users_only && not (fc.uid == 0)) ≡ true
      shut = ground arith

  -- An id out of range fails with EIO before any call.
  pub getattr_overflow :
      (p : Bytes) (st : Stat) (s : os.State)
      → (shown_uid settings st.st_uid ≡ none) ⊎ (shown_gid settings st.st_gid ≡ none)
      → getattr_common os peers settings fc p st s ≡ (err eio, s)
  unfolding getattr_common
  getattr_overflow p st s (inl h) = ground arith
  getattr_overflow p st s (inr h) = ground arith
