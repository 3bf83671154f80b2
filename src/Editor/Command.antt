-- ===== src/Editor/Command.antt =====
-- packages/creator-domain/creator_domain/models/editor_commands.py: the typed commands.
use Prim.Native.String.{count}
use short_form_studio.Prelude.{ℕ, String, Bool, true, ◌&&◌, Option, none, some, leb}
use short_form_studio.Prelude.Int.{ℤ, pos, leb_ℤ, ltb_ℤ}

pub data DeletePolicy : Type 0 where
  gap ripple : DeletePolicy

pub data SupportedTransition : Type 0 where
  cut fade ken_burns ken_burns_lite : SupportedTransition

pub data OutputPreset : Type 0 where
  short_vertical short_square short_landscape : OutputPreset

-- the value of the literal
unfoldable pub transition_name : SupportedTransition → String
transition_name cut = "cut"
transition_name fade = "fade"
transition_name ken_burns = "ken_burns"
transition_name ken_burns_lite = "ken_burns_lite"

-- the union discriminated by `type`; a volume is counted in units of 1e-9
pub data EditorCommand : Type 0 where
  trim_segment : String → ℤ → ℤ → EditorCommand
  split_segment : String → ℤ → EditorCommand
  delete_segment : String → DeletePolicy → EditorCommand
  replace_asset : String → ℕ → EditorCommand
  move_segment : String → ℕ → EditorCommand
  resize_segment : String → ℤ → EditorCommand
  set_transition : String → SupportedTransition → Option ℤ → EditorCommand
  switch_output : OutputPreset → EditorCommand
  set_style : String → EditorCommand
  set_audio : ℤ → EditorCommand

-- Field(min_length=1, max_length=100)
abbrev pub is_label : String → Bool
is_label s = leb 1 (count s) && leb (count s) 100

-- Field(default=None, gt=0)
abbrev pub positive? : Option ℤ → Bool
positive? none = true
positive? (some d) = ltb_ℤ (pos 0) d

-- the field constraints of each command
unfoldable pub check_command : EditorCommand → Bool
check_command (trim_segment id from to) = is_label id && leb_ℤ (pos 0) from && ltb_ℤ (pos 0) to
check_command (split_segment id at) = is_label id && leb_ℤ (pos 0) at
check_command (delete_segment id policy) = is_label id
check_command (replace_asset id asset_id) = is_label id && leb 1 asset_id
check_command (move_segment id target_index) = is_label id
check_command (resize_segment id duration) = is_label id && ltb_ℤ (pos 0) duration
check_command (set_transition id transition duration) = is_label id && positive? duration
check_command (switch_output preset) = true
check_command (set_style style) = is_label style
check_command (set_audio volume) = leb_ℤ (pos 0) volume && leb_ℤ volume (pos 1000000000)
