-- ===== src/Fs/Requests/Directories.antt =====
-- `bindfs_readdir` closes the directory that it opens.
use bindfs.Base.{Option, Bool, true}
use bindfs.Base.Errors.{Result, ok, err}
use bindfs.Base.Text.{Bytes}
use bindfs.Fs.Settings.{Settings, Context}
use bindfs.Fs.Os.{M, Os, Peers, Listing, after, pure, fail, ◌>>◌}
use bindfs.Fs.Keeps.{Keeps, bind-Keeps}
use bindfs.Fs.Common.Paths.{process_path-Keeps}
use bindfs.Fs.Ops.Dirs.{fill_entries, ending, list_directory, bindfs_readdir}
use bindfs.Fs.Requests.Spared.{SparesFiles, Spares}
use bindfs.Fs.Requests.Served.{listed-Keeps}

-- What holds behind `opendir`: one thing if it succeeds, another if it fails.
abbrev pub Opened : {S : Type 0} → (I J : S → Type 0) → Result Listing × S → Type 0
Opened I J (ok _, s) = J s
Opened I J (err _, s) = I s

either : {S : Type 0} (I : S → Type 0) (x : Result Listing × S) → I x.1 → Opened I I x
either I (ok l, s) i = i
either I (err e, s) i = i

module _ (os : Os) (peers : Peers os.State) (settings : Settings) (I J : os.State → Type 0)
    (fc : Context) where
  reported :
      (r : Result (Unit {0})) (s : os.State)
      → I s
      → I ((elim r as (λ x. M os.State (Unit {0})) [ ok _ ↦ pure tt | err e ↦ fail e ]) s).1
  reported (ok u) s i = i
  reported (err e) s i = i

  list_directory-closes :
      SparesFiles os peers J
      → ((s : os.State) → J s → I (os.closedir s).1)
      → (real : Bytes) (plus : Bool) (listing : Listing) (s : os.State) → J s
      → I (list_directory os peers settings fc real plus listing s).1
  unfolding list_directory
  list_directory-closes k close real plus listing s j =
      let (r, t) =
        (fill_entries os peers settings fc plus real listing.entries
            >> ending os peers settings fc listing.failure)
          s in
      reported r (os.closedir t).1
        (close t ((listed-Keeps os peers settings k fc real plus listing).keeps s j))

  after_opening :
      SparesFiles os peers J
      → ((s : os.State) → J s → I (os.closedir s).1)
      → (real : Bytes) (plus : Bool) (r : Result Listing) (s : os.State) → Opened I J (r, s)
      → I (after (r, s) (list_directory os peers settings fc real plus)).1
  after_opening k close real plus (ok listing) s j =
      list_directory-closes k close real plus listing s j
  after_opening k close real plus (err e) s i = i

  -- `bindfs_readdir` closes the directory that it opens, whether it succeeds or fails: for a property
  -- I that `realpath` keeps, that a failed `opendir` keeps and a successful one turns into J, where
  -- all calls that the listing makes keep J and `closedir` turns J into I, it keeps I.
  pub readdir-closes :
      ((p : Bytes) → Keeps I (os.realpath p))
      → ((p : Bytes) (s : os.State) → I s → Opened I J (os.opendir p s))
      → SparesFiles os peers J
      → ((s : os.State) → J s → I (os.closedir s).1)
      → (path : Option Bytes) (plus : Bool)
      → Keeps I (bindfs_readdir os peers settings fc path plus)
  unfolding bindfs_readdir
  readdir-closes kr begin k close path plus =
      bind-Keeps (process_path-Keeps os peers settings I kr path true) λ real. record {
        keeps = λ s i.
            after_opening k close real plus (os.opendir real s).0 (os.opendir real s).1
              (begin real s i);
      }

pub readdir-Keeps :
    (os : Os) (peers : Peers os.State) (settings : Settings) {I : os.State → Type 0}
    → Spares os peers I
    → (fc : Context) (path : Option Bytes) (plus : Bool)
    → Keeps I (bindfs_readdir os peers settings fc path plus)
readdir-Keeps os peers settings {I} k fc path plus =
    readdir-closes os peers settings I I fc k.files.realpath
      (λ p s i. either I (os.opendir p s) ((k.opendir p).keeps s i)) k.files
      (λ s i. k.closedir.keeps s i) path plus
