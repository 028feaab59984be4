-- ===== src/Fs/Ops/Owners/Chmod.antt =====
-- `bindfs_chmod` under the policies that keep a request from the source directory.
use bindfs.Base.{ℕ, ◌<◌, ◌≡◌, refl, inl, inr, Option, arith, Bool-cases}
use bindfs.Base.{Bool, true, false, not, ◌&&◌, ◌||◌, ◌==◌, bit_and, if◌then◌else◌}
use bindfs.Base.{sym, ◌∙◌}
use mathlib.Core.Bool.{xor}
use bindfs.Base.Bits.{bit, bit-bit_and, bit-bit_xor, bit_and-eq_zero, all_below-intro, all_below}
use bindfs.Base.Bits.{all_below-true, bit-zero}
use bindfs.Base.Errors.{ok, err, eperm}
use bindfs.Base.Text.{Bytes}
use bindfs.Mode.{is_reg}
use bindfs.Fs.Settings.{Settings, Stat, chmod_normal, chmod_ignore, chmod_deny}
use bindfs.Fs.Os.{M, Os, Peers}
use bindfs.Fs.Common.{process_path}
use bindfs.Permchain.Apply.{permchain_apply}
use bindfs.Fs.Ops.Owners.{mode_diff, exec_changed, bindfs_chmod}

-- The execute bits.
abbrev pub is_x : ℕ → Bool
is_x i = bit 0o111 i

-- Whether two modes differ in execute bits at most, among the twelve low bits.
abbrev pub same_but_exec : ℕ → ℕ → Bool
same_but_exec a b = all_below 12 (λ i. is_x i || not (xor (bit a i) (bit b i)))

mask_table :
    all_below 12 (λ i. bit 0o7777 i && (if is_x i then not (bit 0o7666 i) else bit 0o7666 i)) ≡ true
unfolding all_below
mask_table = refl

masks :
    (i : ℕ)
    → i < 12
    → (bit 0o7777 i && (if is_x i then not (bit 0o7666 i) else bit 0o7666 i)) ≡ true
masks i h =
    all_below-true 12 (λ i. bit 0o7777 i && (if is_x i then not (bit 0o7666 i) else bit 0o7666 i)) i
      mask_table h

bit-mode_diff : (a b i : ℕ) → i < 12 → bit (mode_diff a b) i ≡ xor (bit a i) (bit b i)
unfolding xor mode_diff
bit-mode_diff a b i h = ground (
  arith,
  bit-bit_xor (bit_and a 0o7777) (bit_and b 0o7777) i,
  bit-bit_and a 0o7777 i,
  bit-bit_and b 0o7777 i,
  masks i h,
)

exec_within : (i : ℕ) → bit 0o111 i ≡ (bit 0o111 i && bit 0o7777 i)
exec_within i = bit-bit_and 0o111 0o7777 i

true_iff : (a b : Bool) → (a ≡ true → b ≡ true) → (b ≡ true → a ≡ true) → a ≡ b
true_iff a b f g = elim (Bool-cases a) [
  | inl h ↦ h ∙ sym (f h)
  | inr h ↦ elim (Bool-cases b) [ inl k ↦ g k ∙ sym k | inr k ↦ h ∙ sym k ]
]

one_bit :
    (a b i : ℕ)
    → i < 12
    → (bit (mode_diff a b) i && bit 0o7666 i) ≡ not (is_x i || not (xor (bit a i) (bit b i)))
unfolding xor
one_bit a b i h = ground (arith, masks i h, bit-mode_diff a b i h)

-- The test of the code is the comparison of the modes.
mode_diff-exec : (a b : ℕ) → (bit_and (mode_diff a b) 0o7666 == 0) ≡ same_but_exec a b
mode_diff-exec a b = true_iff (bit_and (mode_diff a b) 0o7666 == 0) (same_but_exec a b) to back
  where
    test : ℕ → Bool
    test i = is_x i || not (xor (bit a i) (bit b i))

    eq_zero : (n i : ℕ) → (n == 0) ≡ true → bit n i ≡ false
    eq_zero n i p = let q : n ≡ 0 = ground arith in rw q (bit-zero i)

    to : (bit_and (mode_diff a b) 0o7666 == 0) ≡ true → same_but_exec a b ≡ true
    to e = all_below-intro 12 test λ i h. ground (
      arith,
      one_bit a b i h,
      bit-bit_and (mode_diff a b) 0o7666 i,
      eq_zero (bit_and (mode_diff a b) 0o7666) i e,
    )

    back : same_but_exec a b ≡ true → (bit_and (mode_diff a b) 0o7666 == 0) ≡ true
    back e = ground (
      arith,
      bit_and-eq_zero 12 (mode_diff a b) 0o7666 (omega arith)
          λ i h. ground (arith, one_bit a b i h, all_below-true 12 test i e h),
    )

module _ (os : Os) (peers : Peers os.State) (settings : Settings) (path : Option Bytes)
    (mode : ℕ) where
  abbrev chmod_of : M os.State (Unit {0})
  chmod_of = bindfs_chmod os peers settings path mode

  -- Without --chmod-allow-x the policy alone decides: --chmod-ignore reports success and --chmod-deny
  -- EPERM, neither with a call beyond that of the path, and otherwise the rules for chmod are applied
  -- to the request.
  pub chmod_off :
      (s s1 : os.State) {real : Bytes}
      → process_path os peers settings path true s ≡ (ok real, s1)
      → settings.chmod_allow_x ≡ false
      → chmod_of s ≡ (elim settings.chmod_policy [
        | chmod_normal ↦ os.chmod real (permchain_apply settings.chmod_permchain mode) s1
        | chmod_ignore ↦ (ok tt, s1)
        | chmod_deny ↦ (err eperm, s1)
      ])
  unfolding bindfs_chmod
  chmod_off s s1 found off = ground arith

  -- Under --chmod-ignore with --chmod-allow-x, a regular file gets a mode whose execute bits are the
  -- request's and whose other bits, here any bit i, are its own.
  pub chmod_ignore_lem :
      (s s1 s2 : os.State) {real : Bytes} {st : Stat} (i : ℕ)
      → process_path os peers settings path true s ≡ (ok real, s1)
      → settings.chmod_allow_x ≡ true
      → settings.chmod_policy ≡ chmod_ignore
      → os.lstat real s1 ≡ (ok st, s2)
      → is_reg st.st_mode ≡ true
      → let m = exec_changed st.st_mode (mode_diff st.st_mode mode) in
        (chmod_of s ≡ os.chmod real m s2)
        × (bit m i ≡ (if is_x i then bit mode i else bit st.st_mode i))
  unfolding bindfs_chmod xor exec_changed mode_diff
  chmod_ignore_lem s s1 s2 {st = st} i found on policy old reg = (
    ground arith,
    ground (
      arith,
      bit-bit_xor st.st_mode (bit_and (mode_diff st.st_mode mode) 0o111) i,
      bit-bit_and (mode_diff st.st_mode mode) 0o111 i,
      bit-bit_xor (bit_and st.st_mode 0o7777) (bit_and mode 0o7777) i,
      bit-bit_and st.st_mode 0o7777 i,
      bit-bit_and mode 0o7777 i,
      exec_within i,
    ),
  )

  -- Under --chmod-deny with --chmod-allow-x, a request for a regular file goes through exactly if it
  -- changes execute bits alone, and is otherwise answered with EPERM and no further call.
  pub chmod_deny_lem :
      (s s1 s2 : os.State) {real : Bytes} {st : Stat}
      → process_path os peers settings path true s ≡ (ok real, s1)
      → settings.chmod_allow_x ≡ true
      → settings.chmod_policy ≡ chmod_deny
      → os.lstat real s1 ≡ (ok st, s2)
      → is_reg st.st_mode ≡ true
      → chmod_of s
        ≡ (if same_but_exec st.st_mode mode then os.chmod real mode s2 else (err eperm, s2))
  unfolding bindfs_chmod
  chmod_deny_lem s s1 s2 {st = st} found on policy old reg =
      ground (arith, mode_diff-exec st.st_mode mode)
