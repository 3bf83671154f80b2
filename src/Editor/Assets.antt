-- ===== src/Editor/Assets.antt =====
-- The asset facts of packages/creator-service/creator_service/editor_command_applier.py.
use Prim.Native.Char.{code}
use short_form_studio.Prelude.{
  ℕ, ◌+◌, ◌==◌, String, Bool, true, false, ◌&&◌, ◌||◌, Option, none, some, List, [], ◌∷◌, leb,
  str_eq, if◌then◌else◌,
}
use short_form_studio.Prelude.Int.{ℤ}
use short_form_studio.Prelude.Checked.{Result, ok, err}
use short_form_studio.Errors.{Error, validation, of_id}
use short_form_studio.Timeline.Segment.{MediaSegment}

pub record EditorAssetRef : Type 0 where
  pub id : ℕ
  pub project_id : ℕ
  pub media_type : String
  pub duration_seconds : ℤ

-- `get_asset_for_editor(asset_id, workspace_id)`: a read of the workspace's assets
abbrev pub EditorAssetLookup : Type 0
EditorAssetLookup = ℕ → ℕ → Option EditorAssetRef

-- str.lower() on the letters of ASCII; any other character is kept
abbrev pub lower : ℕ → ℕ
lower c = if leb b'A' c && leb c b'Z' then c + 32 else c

abbrev pub lower_codes : String → List ℕ
lower_codes String.[] = []
lower_codes (String.◌∷◌ c s) = lower (code c) ∷ lower_codes s

abbrev pub eqb_codes : List ℕ → List ℕ → Bool
eqb_codes [] [] = true
eqb_codes (a ∷ as') (b ∷ bs) = a == b && eqb_codes as' bs
eqb_codes _ _ = false

-- media_type in _IMAGE_KINDS
unfoldable pub is_image_kind : String → Bool
is_image_kind m = str_eq m "IMAGE" || str_eq m "LOGO" || str_eq m "GRAPHIC"

-- the result of `_broad_kind`, as its code points
unfoldable pub broad_kind : String → List ℕ
unfolding is_image_kind
broad_kind m = if is_image_kind m then lower_codes "image" else lower_codes m

-- `_broad_kind(m) == "image"`
unfoldable pub is_image : String → Bool
unfolding broad_kind
is_image m = eqb_codes (broad_kind m) (lower_codes "image")

source_of : String → Option EditorAssetRef → Result Error (Option ℤ)
unfolding is_image
source_of segment_id none =
    err (validation (of_id "segment references an unavailable asset" segment_id))
source_of segment_id (some asset) =
    ok (if is_image asset.media_type then none else some asset.duration_seconds)

-- `_effective_source_duration`
unfoldable pub effective_source_duration :
    MediaSegment → ℕ → EditorAssetLookup → Result Error (Option ℤ)
unfolding source_of
effective_source_duration s workspace_id lookup = source_of s.id (lookup s.asset_id workspace_id)
