-- ===== src/Frame/Tags.antt =====
-- create-der-program and create-der-control, which tag what they make on the procedure.
use cactus_runner.Prelude.{List, [], ◌∷◌}
use cactus_runner.Prelude.Int.{ℤ}
use cactus_runner.Prelude.Dict.{Dict}
use cactus_runner.Exec.Preserves.{Preserves, Preserves-bind, preserving_rules}
use cactus_runner.Definitions.{Resolved, scalar, items}
use cactus_runner.Models.{RunnerState}
use cactus_runner.Services.{Services}
use cactus_runner.Actions.Programs
use cactus_runner.Actions.Controls
use cactus_runner.Frame.{OnRunner, Closed, Preserves-update_procedure, world_rules}
use cactus_runner.Frame.Server.{Preserves-int_of, Preserves-display_id, Preserves-control_targets}

module _ (S : Services) (Q : RunnerState → Type 0) where
  tagged_group : (tag : Resolved) → Preserves (OnRunner S Q) (Controls.tagged_group S tag)
  unfolding Controls.tagged_group
  tagged_group tag = search (preserving_rules, world_rules)

  matching_group :
      (primacy fsa_id : Resolved)
      → Preserves (OnRunner S Q) (Controls.matching_group S primacy fsa_id)
  unfolding Controls.matching_group
  matching_group primacy fsa_id = search (preserving_rules, world_rules)

  group : (params : Dict Resolved) → Preserves (OnRunner S Q) (Controls.control_group S params)
  unfolding Controls.control_group
  group params = search (preserving_rules, tagged_group, matching_group)

  to_float : (v : Resolved) → Preserves (OnRunner S Q) (Controls.to_float S v)
  unfolding Controls.to_float
  to_float (scalar v) = search preserving_rules
  to_float (items vs) = search preserving_rules

  multiplier :
      (reached : ℤ) (vs : List Resolved)
      → Preserves (OnRunner S Q) (Controls.effective_pow10_multiplier S reached vs)
  unfolding Controls.effective_pow10_multiplier
  multiplier reached [] = search preserving_rules
  multiplier reached (v ∷ vs) =
      Preserves-bind _ _ (search (preserving_rules, to_float)) (λ next. multiplier next vs)

  configure :
      (params : Dict Resolved) → Preserves (OnRunner S Q) (Controls.configure_multiplier S params)
  unfolding Controls.configure_multiplier
  configure params = search (preserving_rules, world_rules, multiplier) depth 7

module _ (S : Services) (Q : RunnerState → Type 0) (closed : Closed S Q) where
  pub Preserves-create_der_program :
      (params : Dict Resolved)
      → Preserves (OnRunner S Q) (Programs.action_create_der_program S params)
  unfolding Programs.action_create_der_program
  Preserves-create_der_program params =
      search
        (
          preserving_rules,
          world_rules,
          Preserves-int_of S Q,
          Preserves-display_id S Q,
          Preserves-update_procedure S Q,
          closed.program_tag,
        )
        depth 12

  annotate : (tag : Resolved) (g : ℤ) → Preserves (OnRunner S Q) (Controls.annotate_control S tag g)
  unfolding Controls.annotate_control
  annotate tag g =
      search (preserving_rules, world_rules, Preserves-update_procedure S Q, closed.control_tag)
        depth 9

  pub Preserves-create_der_control :
      (params : Dict Resolved)
      → Preserves (OnRunner S Q) (Controls.action_create_der_control S params)
  unfolding Controls.action_create_der_control
  Preserves-create_der_control params =
      search
        (
          preserving_rules,
          world_rules,
          Preserves-control_targets S Q,
          group S Q,
          configure S Q,
          annotate,
        )
        depth 12
