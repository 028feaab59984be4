-- ===== src/Startup/Sound/Modes.antt =====
-- The steps of `main` (src/bindfs.c) on the alignment, the mirrored ids, the permission rules and
-- the policy for links keep the settings sound.
use bindfs.Base.{ℕ, zero, suc, inr, Option, none, some, arith}
use bindfs.Base.Text.{Bytes}
use bindfs.Permchain.Parse.{add_chmod_rules_to_permchain}
use bindfs.Permchain.Parse.Chains.{add_chmod_rules-good}
use bindfs.Options.Mirror.{
  Mirrored, mirrored, invalid, out_of_bounds, aborted, parse_mirrored_users,
}
use bindfs.Startup.{Process, System, OptionData}
use bindfs.Startup.Ids.{whole}
use bindfs.Startup.Modes.{
  set_alignment, set_mirrored, mirror_only_set, mirror_option, deletion_policy, store_alignment,
  store_perms, store_create_with_perms, store_chmod_filter, store_deletion_policy,
  set_forward_odirect, set_mirror, set_perms, set_create_with_perms, set_chmod_filter,
  set_deletion_policy,
}
use bindfs.Startup.Steps.{Carries, GoesOnWith, or_return_lem, if_given-Carries}
use bindfs.Startup.Sound.{IsSound}

module _ (sys : System) (od : OptionData) where
  abbrev Sound : Process → Type 0
  Sound p = IsSound sys od p.settings

  set_alignment-Sound :
      (p : Process) (n : Option ℕ) → Sound p → GoesOnWith Sound (set_alignment p n)
  unfolding set_alignment
  set_alignment-Sound p none i = tt
  set_alignment-Sound p (some zero) i = tt
  set_alignment-Sound p (some (suc n)) (chains, alignment, pairs, offsets, ids) =
      (chains, inr (omega arith), pairs, offsets, ids)

  pub set_forward_odirect-Sound : Carries Sound (set_forward_odirect sys od)
  unfolding set_forward_odirect store_alignment
  set_forward_odirect-Sound =
      if_given-Carries Sound od.forward_odirect (store_alignment sys)
        λ value. record { carries = λ p i. set_alignment-Sound p (whole (sys.strtoul value)) i }

  set_mirrored-Sound : (p : Process) (m : Mirrored) → Sound p → GoesOnWith Sound (set_mirrored p m)
  unfolding set_mirrored
  set_mirrored-Sound p (mirrored users members) i = i
  set_mirrored-Sound p invalid i = tt
  set_mirrored-Sound p out_of_bounds i = tt
  set_mirrored-Sound p aborted i = tt

  mirror_option-Sound :
      (mirror mirror_only : Option Bytes) → Carries Sound (mirror_option sys mirror mirror_only)
  unfolding mirror_option
  mirror_option-Sound none none = record { carries = λ p i. i }
  mirror_option-Sound (some mirror) none = record {
    carries = λ p i. set_mirrored-Sound p (parse_mirrored_users sys.db mirror) i;
  }
  mirror_option-Sound none (some mirror) = record {
    carries = λ p i. set_mirrored-Sound (mirror_only_set p) (parse_mirrored_users sys.db mirror) i;
  }
  mirror_option-Sound (some mirror) (some mirror_only) = record { carries = λ p i. tt }

  pub set_mirror-Sound : Carries Sound (set_mirror sys od)
  unfolding set_mirror
  set_mirror-Sound = mirror_option-Sound od.mirror od.mirror_only

  pub set_perms-Sound : Carries Sound (set_perms od)
  unfolding set_perms store_perms
  set_perms-Sound =
      if_given-Carries Sound od.perms (λ spec. store_perms spec)
        λ spec. record {
          carries = λ p ((perms, create, filter), alignment, pairs, offsets, ids).
              or_return_lem Sound (add_chmod_rules_to_permchain spec p.settings.permchain) _ λ pc e.
                (
                  (add_chmod_rules-good spec p.settings.permchain perms e, create, filter),
                  alignment,
                  pairs,
                  offsets,
                  ids,
                );
        }

  pub set_create_with_perms-Sound : Carries Sound (set_create_with_perms od)
  unfolding set_create_with_perms store_create_with_perms
  set_create_with_perms-Sound =
      if_given-Carries Sound od.create_with_perms (λ spec. store_create_with_perms spec)
        λ spec. record {
          carries = λ p ((perms, create, filter), alignment, pairs, offsets, ids).
              or_return_lem Sound (add_chmod_rules_to_permchain spec p.settings.create_permchain) _
                λ pc e. (
                  (perms, add_chmod_rules-good spec p.settings.create_permchain create e, filter),
                  alignment,
                  pairs,
                  offsets,
                  ids,
                );
        }

  pub set_chmod_filter-Sound : Carries Sound (set_chmod_filter od)
  unfolding set_chmod_filter store_chmod_filter
  set_chmod_filter-Sound =
      if_given-Carries Sound od.chmod_filter (λ spec. store_chmod_filter spec)
        λ spec. record {
          carries = λ p ((perms, create, filter), alignment, pairs, offsets, ids).
              or_return_lem Sound (add_chmod_rules_to_permchain spec p.settings.chmod_permchain) _
                λ pc e. (
                  (perms, create, add_chmod_rules-good spec p.settings.chmod_permchain filter e),
                  alignment,
                  pairs,
                  offsets,
                  ids,
                );
        }

  pub set_deletion_policy-Sound : Carries Sound (set_deletion_policy od)
  unfolding set_deletion_policy store_deletion_policy
  set_deletion_policy-Sound =
      if_given-Carries Sound od.resolved_symlink_deletion (λ value. store_deletion_policy value)
        λ value. record {
          carries = λ p i. or_return_lem Sound (deletion_policy value) _ λ policy e. i;
        }
