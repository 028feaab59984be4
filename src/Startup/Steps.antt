-- ===== src/Startup/Steps.antt =====
-- What the steps of `main` (src/bindfs.c) keep: a property of the process that holds before a step
-- holds behind it, if `main` goes on.
use bindfs.Base.{◌≡◌, refl, List, [], ◌∷◌, Option, none, some, Bool, true, false, All}
use bindfs.Base.Text.{Bytes}
use bindfs.Startup.{Process, Main, going, returned, crashed}
use bindfs.Startup.Ids.{Stage, if_given, if_root, or_return, root_option, unless_map}
use bindfs.Startup.Mount.{run_stages, after_step}

-- What `main` goes on with has the property.
abbrev pub GoesOnWith : {A : Type 0} (I : A → Type 0) → Main A → Type 0
GoesOnWith I (going a) = I a
GoesOnWith I (returned status) = Unit
GoesOnWith I crashed = Unit

pub record Carries (I : Process → Type 0) (stage : Stage) : Type 0 where
  pub carries : (p : Process) → I p → GoesOnWith I (stage p)

pub GoesOnWith-going :
    {A : Type 0} (I : A → Type 0) (m : Main A) (a : A) → GoesOnWith I m → m ≡ going a → I a
GoesOnWith-going I m a i h = rw h at i

pub or_return_lem :
    (I : Process → Type 0) {A : Type 0} (o : Option A) (store : A → Process)
    → ((a : A) → o ≡ some a → I (store a))
    → GoesOnWith I (or_return o store)
unfolding or_return
or_return_lem I none store k = tt
or_return_lem I (some a) store k = k a refl

pub if_given-Carries :
    (I : Process → Type 0) (option : Option Bytes) (step : Bytes → Stage)
    → ((value : Bytes) → Carries I (step value))
    → Carries I (if_given option step)
unfolding if_given
if_given-Carries I none step k = record { carries = λ p i. i }
if_given-Carries I (some value) step k = record { carries = λ p i. (k value).carries p i }

if_root-Carries :
    (I : Process → Type 0) (is_root : Bool) (step : Stage)
    → (is_root ≡ true → Carries I step)
    → Carries I (λ p. if_root is_root step p)
unfolding if_root
if_root-Carries I true step k = record { carries = λ p i. (k refl).carries p i }
if_root-Carries I false step k = record { carries = λ p i. tt }

pub root_option-Carries :
    (I : Process → Type 0) (is_root : Bool) (option : Option Bytes) (step : Bytes → Stage)
    → ((value : Bytes) → is_root ≡ true → Carries I (step value))
    → Carries I (root_option is_root option step)
unfolding root_option
root_option-Carries I is_root none step k = record { carries = λ p i. i }
root_option-Carries I is_root (some value) step k = if_root-Carries I is_root (step value) (k value)

pub unless_map-Carries :
    (I : Process → Type 0) (map : Option Bytes) (step : Bytes → Stage) (value : Bytes)
    → (map ≡ none → Carries I (step value))
    → Carries I (unless_map map step value)
unfolding unless_map
unless_map-Carries I none step value k = k refl
unless_map-Carries I (some spec) step value k = record { carries = λ p i. tt }

after_step_lem :
    (I : Process → Type 0) (m : Main Process) (f : Stage)
    → GoesOnWith I m
    → Carries I f
    → GoesOnWith I (after_step m f)
after_step_lem I (going p) f i k = k.carries p i
after_step_lem I (returned status) f i k = tt
after_step_lem I crashed f i k = tt

pub run_stages-Carries :
    (I : Process → Type 0) (stages : List Stage)
    → All (Carries I) stages
    → Carries I (λ p. run_stages stages p)
unfolding run_stages
run_stages-Carries I [] ks = record { carries = λ p i. i }
run_stages-Carries I (stage ∷ stages) (k, ks) = record {
  carries = λ p i. after_step_lem I (stage p) _ (k.carries p i) (run_stages-Carries I stages ks);
}
