-- ===== src/Fs/Keeps.antt =====
-- What an action cannot change: a property of the state that holds before it holds behind it,
-- whatever the action returns.
use bindfs.Base.{◌≡◌, refl, Bool, true, false, if◌then◌else◌, Option, none, some}
use bindfs.Base.Errors.{Errno, Result, ok, err}
use bindfs.Fs.Os.{M, pure, fail, after, ◌>>=◌, attempt}
use bindfs.Fs.Common.{or_fail}

pub record Keeps {S : Type 0} (I : S → Type 0) {A : Type 0} (m : M S A) : Type 0 where
  pub keeps : (s : S) → I s → I (m s).1

module _ {S : Type 0} {I : S → Type 0} where
  pub pure-Keeps : {A : Type 0} (a : A) → Keeps I (pure a)
  pure-Keeps a = record { keeps = λ s i. i }

  pub fail-Keeps : {A : Type 0} (e : Errno) → Keeps I {A = A} (fail e)
  fail-Keeps e = record { keeps = λ s i. i }

  after-keeps :
      {A B : Type 0} (r : Result A) (s : S) (f : A → M S B)
      → I s
      → ((a : A) → Keeps I (f a))
      → I (after (r, s) f).1
  after-keeps (ok a) s f i k = (k a).keeps s i
  after-keeps (err e) s f i k = i

  pub bind-Keeps :
      {A B : Type 0} {m : M S A} {f : A → M S B}
      → Keeps I m
      → ((a : A) → Keeps I (f a))
      → Keeps I (m >>= f)
  bind-Keeps {m = m} {f = f} km kf = record {
    keeps = λ s i. after-keeps (m s).0 (m s).1 f (km.keeps s i) kf;
  }

  after-returns :
      {A B : Type 0} (r : Result A) (s : S) (f : A → M S B)
      → I s
      → ((a : A) → r ≡ ok a → Keeps I (f a))
      → I (after (r, s) f).1
  after-returns (ok a) s f i k = (k a refl).keeps s i
  after-returns (err e) s f i k = i

  -- What follows may use what the action can return.
  pub returns-Keeps :
      {A B : Type 0} (m : M S A) (f : A → M S B)
      → Keeps I m
      → ((s : S) (a : A) → (m s).0 ≡ ok a → Keeps I (f a))
      → Keeps I (m >>= f)
  returns-Keeps m f km kf = record {
    keeps = λ s i. after-returns (m s).0 (m s).1 f (km.keeps s i) (kf s);
  }

  -- A call whose failure is looked at by what follows.
  pub attempt-Keeps :
      {A B : Type 0} (m : M S A) (f : Result A → M S B)
      → Keeps I m
      → ((r : Result A) → Keeps I (f r))
      → Keeps I (attempt m >>= f)
  attempt-Keeps m f km kf = record { keeps = λ s i. (kf (m s).0).keeps (m s).1 (km.keeps s i) }

  pub if-Keeps :
      {A : Type 0} (b : Bool) {m n : M S A} → Keeps I m → Keeps I n → Keeps I (if b then m else n)
  if-Keeps true km kn = km
  if-Keeps false km kn = kn

  pub or_fail-Keeps : {A : Type 0} (e : Errno) (o : Option A) → Keeps I (or_fail e o)
  or_fail-Keeps e none = fail-Keeps e
  or_fail-Keeps e (some a) = pure-Keeps a
