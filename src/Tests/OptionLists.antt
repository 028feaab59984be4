-- ===== src/Tests/OptionLists.antt =====
-- Options behind `-o` that src/misc.c filters.
use bindfs.Base.{◌≡◌, ◌≢◌, refl, List, [], ◌∷◌}
use bindfs.Base.Text.{Bytes, codes, bytes_eq, starts_with}
use bindfs.Misc.OptionLists.{tokens, filter_o_opts}
use bindfs.Misc.OptionLists.Kept.{options_of, others_of}
use bindfs.Misc.OptionLists.Given.{
  select, option_groups, plain_args, joined, filter_o_opts-options_of,
}
use bindfs.Startup.Mount.{keep_option}

abbrev fstab_args : List Bytes
fstab_args =
    codes "bindfs"
    ∷ codes "-o"
    ∷ codes "ro,nofail,dev"
    ∷ codes "-ouser,allow_other"
    ∷ codes "/mnt"
    ∷ []

filtered_args :
    filter_o_opts (λ opt. keep_option opt) fstab_args
    ≡ codes "bindfs" ∷ codes "-oro,dev" ∷ codes "-oallow_other" ∷ codes "/mnt" ∷ []
unfolding filter_o_opts keep_option bytes_eq
filtered_args = refl

keeps_some : (tok : Bytes) (toks : List Bytes) → (tok ∷ toks) ≢ []
keeps_some tok toks h = cc

filter_o_opts-options_of_example :
    let argv' = filter_o_opts (λ opt. keep_option opt) fstab_args in
    (options_of argv' ≡ select (λ opt. keep_option opt) (joined (option_groups fstab_args)))
    × (others_of argv' ≡ plain_args fstab_args)
unfolding select option_groups tokens starts_with keep_option bytes_eq
filter_o_opts-options_of_example =
    filter_o_opts-options_of (λ opt. keep_option opt) fstab_args
      (keeps_some (codes "ro") (codes "dev" ∷ []), (keeps_some (codes "allow_other") [], tt))
