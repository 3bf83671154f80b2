-- ===== src/Proposals/Proposal.antt =====
-- packages/creator-service/creator_service/command_proposal.py (`CommandProposal`) and
-- validate_ai_proposal.py.
use short_form_studio.Prelude.{ℕ, Bool, true, false, ◌&&◌, List, [], ◌∷◌}
use short_form_studio.Prelude.Checked.{Result, ok, ◌>>◌, require}
use short_form_studio.Errors.{Error, model_error}
use short_form_studio.Timeline.Segment.{Timeline}
use short_form_studio.Editor.Command.{EditorCommand, check_command}
use short_form_studio.Editor.History.Defs.{EditorHistory, apply_batch_if_generation}

pub record CommandProposal : Type 0 where
  pub base_revision : ℕ
  pub commands : List EditorCommand

abbrev pub has_commands : List EditorCommand → Bool
has_commands [] = false
has_commands (c ∷ rest) = true

-- the constructor of the model: at least one command
unfoldable pub command_proposal : ℕ → List EditorCommand → Result Error CommandProposal
command_proposal base_revision commands =
    require (has_commands commands) model_error
    >> ok (record { base_revision = base_revision; commands = commands })

unfoldable pub check_commands : List EditorCommand → Bool
unfolding check_command
check_commands [] = true
check_commands (c ∷ rest) = check_command c && check_commands rest

-- commands that are constructed one after the other
unfoldable pub made : List EditorCommand → Result Error (List EditorCommand)
unfolding check_commands
made commands = require (check_commands commands) model_error >> ok commands

unfoldable pub apply_ai_proposal :
    EditorHistory → CommandProposal → Result Error Timeline × EditorHistory
unfolding apply_batch_if_generation
apply_ai_proposal h p = apply_batch_if_generation p.commands p.base_revision h
