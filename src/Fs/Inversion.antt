-- ===== src/Fs/Inversion.antt =====
-- What a sequence of actions that succeeds went through.
use bindfs.Base.{◌≡◌, refl}
use bindfs.Base.Errors.{Result, ok, err}
use bindfs.Fs.Os.{M, after, ◌>>=◌}

module _ {S A B : Type 0} where
  after-eq-ok :
      (r : Result A) (s : S) (f : A → M S B) {b : B} {s' : S}
      → after (r, s) f ≡ (ok b, s')
      → (a : A) × (r ≡ ok a) × (f a s ≡ (ok b, s'))
  after-eq-ok (ok a) s f h = (a, refl, h)
  after-eq-ok (err e) s f h = cc

  pub >>=-eq-ok :
      (m : M S A) (f : A → M S B) (s : S) {b : B} {s' : S}
      → (m >>= f) s ≡ (ok b, s')
      → (a : A) × ((m s).0 ≡ ok a) × (f a (m s).1 ≡ (ok b, s'))
  >>=-eq-ok m f s h = after-eq-ok (m s).0 (m s).1 f h
