-- ===== src/Fs/Common/Paths.antt =====
-- What `process_path` can return, and what it can change.
use bindfs.Base.{◌≡◌, refl, ◌≢◌, ◌⊎◌, inl, inr, [], ◌∷◌, Option, none, some, arith}
use bindfs.Base.{Bool, ◌==◌, ◌&&◌, Bool-cases}
use bindfs.Base.Errors.{Result, ok, err, enoent, einval, eperm}
use bindfs.Base.Text.{Bytes, codes}
use bindfs.Fs.Settings.{Settings}
use bindfs.Fs.Os.{Os, Peers}
use bindfs.Fs.Common.{skip_slashes, relative_path, accept_real, process_path}
use bindfs.Fs.Keeps.{Keeps, pure-Keeps, fail-Keeps, attempt-Keeps, if-Keeps}

abbrev pub IsRelative : Bytes → Type 0
IsRelative [] = ⊥
IsRelative (c ∷ cs) = c ≢ b'/'

skip_slashes-IsRelative : (path : Bytes) → (skip_slashes path ≡ []) ⊎ IsRelative (skip_slashes path)
unfolding skip_slashes
skip_slashes-IsRelative [] = inl refl
skip_slashes-IsRelative (c ∷ cs) = elim (Bool-cases (c == b'/')) [
  | inl e ↦ rw e (skip_slashes-IsRelative cs)
  | inr e ↦ rw e (inr (ground arith))
]

-- The path that a callback works on below the source directory is never empty and never absolute.
relative_path-IsRelative : (path : Bytes) → IsRelative (relative_path path)
unfolding relative_path
relative_path-IsRelative path = go (skip_slashes path) (skip_slashes-IsRelative path)
  where
    go :
        (p : Bytes)
        → (p ≡ []) ⊎ IsRelative p
        → IsRelative (elim p [ [] ↦ codes "." | c ∷ cs ↦ c ∷ cs ])
    go [] h = λ (e : b'.' ≡ b'/'). absurd (omega arith)
    go (c ∷ cs) (inl e) = cc
    go (c ∷ cs) (inr h) = h

module _ (os : Os) (peers : Peers os.State) (settings : Settings) where
  accept_real-Keeps :
      (I : os.State → Type 0) (p : Bytes) (r : Result Bytes)
      → Keeps I (accept_real os peers settings p r)
  unfolding accept_real
  accept_real-Keeps I p (err e) = if-Keeps (e == enoent) (pure-Keeps p) (fail-Keeps e)
  accept_real-Keeps I p (ok real) = if-Keeps _ (fail-Keeps eperm) (pure-Keeps real)

  -- `process_path` changes nothing that `realpath` leaves alone.
  pub process_path-Keeps :
      (I : os.State → Type 0)
      → ((p : Bytes) → Keeps I (os.realpath p))
      → (path : Option Bytes) (resolve_symlinks : Bool)
      → Keeps I (process_path os peers settings path resolve_symlinks)
  unfolding process_path
  process_path-Keeps I k none r = fail-Keeps einval
  process_path-Keeps I k (some path) r =
      if-Keeps (r && settings.resolve_symlinks)
        (attempt-Keeps (os.realpath (relative_path path))
          (accept_real os peers settings (relative_path path)) (k (relative_path path))
          (accept_real-Keeps I (relative_path path)))
        (pure-Keeps (relative_path path))
