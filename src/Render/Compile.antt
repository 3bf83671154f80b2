-- ===== src/Render/Compile.antt =====
-- packages/creator-service/creator_service/timeline_compiler.py, with models/render_segment.py and
-- models/render_plan.py of creator_domain. The geometry and the encoding settings are passed on as
-- they are; the resolver of assets is a function, as it reads the workspace's assets only.
use Prim.Native.String.{count}
use short_form_studio.Prelude.{
  ℕ, String, ◌==◌, Bool, true, false, ◌&&◌, Option, none, some, List, [], ◌∷◌, leb, str_eq,
}
use short_form_studio.Prelude.Int.{ℤ, pos, ◌+ℤ◌, leb_ℤ, ltb_ℤ}
use short_form_studio.Prelude.Checked.{Result, ok, err, ◌>>=◌, ◌>>◌, require, reject}
use short_form_studio.Errors.{Error, validation, model_error, text, of_id, of_number}
use short_form_studio.Timeline.Intervals.{sort_by, overlap_free}
use short_form_studio.Timeline.Segment.{
  MediaSegment, Timeline, start_of, length_within, nonneg?, short?, trims_ordered,
}
use short_form_studio.Editor.Segments.{microsecond, or_zero}
use short_form_studio.Run.Storage.{mem_text}

pub data MediaType : Type 0 where
  image_type video_type audio_type logo_type graphic_type : MediaType

pub data RenderSegmentKind : Type 0 where
  image_kind video_kind : RenderSegmentKind

-- the fields of a MediaAsset that the compiler reads
pub record MediaAsset : Type 0 where
  pub id : ℕ
  pub workspace_id : ℕ
  pub project_id : Option ℕ
  pub media_type : MediaType
  pub storage_key : Option String
  pub duration_seconds : Option ℤ

-- `get_asset(asset_id, workspace_id)`
abbrev pub AssetResolver : Type 0
AssetResolver = ℕ → ℕ → Option MediaAsset

pub record RenderSegment : Type 0 where
  pub kind : RenderSegmentKind
  pub source : String
  pub timeline_start_seconds : ℤ
  pub duration_seconds : ℤ
  pub trim_start_seconds : Option ℤ
  pub trim_end_seconds : Option ℤ
  pub fit_mode : String
  pub transition : Option String

abbrev pub render_start : RenderSegment → ℤ
render_start s = s.timeline_start_seconds

abbrev pub render_duration : RenderSegment → ℤ
render_duration s = s.duration_seconds

-- the field constraints and the validator of RenderSegment
unfoldable pub check_render_segment : RenderSegment → Bool
unfolding trims_ordered
check_render_segment s =
    length_within 1 1024 s.source
    && leb_ℤ (pos 0) s.timeline_start_seconds
    && ltb_ℤ (pos 0) s.duration_seconds
    && nonneg? s.trim_start_seconds
    && nonneg? s.trim_end_seconds
    && leb (count s.fit_mode) 50
    && short? 50 s.transition
    && trims_ordered s.trim_start_seconds s.trim_end_seconds

-- a RenderPlan, less the layers, which a compiled plan has not
pub record RenderPlan (Spec Profile : Type 0) : Type 0 where
  pub segments : List RenderSegment
  pub output_spec : Spec
  pub encoding_profile : Profile

-- `_MEDIA_KIND.get`
unfoldable pub media_kind : MediaType → Option RenderSegmentKind
media_kind image_type = some image_kind
media_kind logo_type = some image_kind
media_kind graphic_type = some image_kind
media_kind video_type = some video_kind
media_kind audio_type = none

-- `_SUPPORTED_TRANSITIONS`
unfoldable pub is_supported : Option String → Bool
unfolding mem_text
is_supported none = true
is_supported (some t) = mem_text t ("cut" ∷ "fade" ∷ "ken_burns" ∷ "ken_burns_lite" ∷ [])

abbrev pub effective_end : MediaSegment → ℤ
effective_end s = elim s.trim_end_seconds [
  | some end ↦ end
  | none ↦ or_zero s.trim_start_seconds +ℤ s.duration_seconds
]

abbrev pub overruns : RenderSegmentKind → Option ℤ → ℤ → Bool
overruns video_kind (some source) end = ltb_ℤ (source +ℤ microsecond) end
overruns _ _ end = false

-- `_validate_source_bounds`
unfoldable pub validate_source_bounds :
    MediaSegment → MediaAsset → RenderSegmentKind → Result Error (Unit {0})
validate_source_bounds s asset kind =
    reject (overruns kind asset.duration_seconds (effective_end s))
      (validation (of_number "Asset source range end exceeds source duration" asset.id))

abbrev pub owned_by : ℕ → Option ℕ → Bool
owned_by project_id none = false
owned_by project_id (some p) = p == project_id

abbrev pub available : Timeline → ℕ → MediaSegment → Option MediaAsset → Result Error MediaAsset
available t w s none = err (validation (of_id "references an unavailable asset" s.id))
available t w s (some asset) =
    require (asset.workspace_id == w && owned_by t.project_id asset.project_id)
      (validation (of_id "references an unavailable asset" s.id))
    >> ok asset

abbrev pub no_source : MediaAsset → Error
no_source asset = validation (of_number "Asset has no storage source to render" asset.id)

abbrev pub source_key : MediaAsset → Option String → Result Error String
source_key asset none = err (no_source asset)
source_key asset (some key) = reject (str_eq key "") (no_source asset) >> ok key

abbrev pub kind_or_error : MediaAsset → Option RenderSegmentKind → Result Error RenderSegmentKind
kind_or_error asset none =
    err (validation (of_number "Asset media type is not renderable" asset.id))
kind_or_error asset (some kind) = ok kind

abbrev pub render_segment : MediaSegment → String → RenderSegmentKind → RenderSegment
render_segment s source kind = record {
  kind = kind;
  source = source;
  timeline_start_seconds = s.timeline_start_seconds;
  duration_seconds = s.duration_seconds;
  trim_start_seconds = s.trim_start_seconds;
  trim_end_seconds = s.trim_end_seconds;
  fit_mode = s.fit_mode;
  transition = s.transition;
}

-- one turn of the loop
unfoldable pub compile_segment :
    Timeline → ℕ → AssetResolver → MediaSegment → Result Error RenderSegment
unfolding media_kind is_supported validate_source_bounds check_render_segment
compile_segment t w get_asset s = do
  asset ← available t w s (get_asset s.asset_id w)
  source ← source_key asset asset.storage_key
  kind ← kind_or_error asset (media_kind asset.media_type)
  require (is_supported s.transition) (validation (text "Unsupported transition"))
  validate_source_bounds s asset kind
  require (check_render_segment (render_segment s source kind)) model_error
  ok (render_segment s source kind)

unfoldable pub compile_each :
    Timeline → ℕ → AssetResolver → List MediaSegment → Result Error (List RenderSegment)
unfolding compile_segment
compile_each t w get_asset [] = ok []
compile_each t w get_asset (s ∷ rest) = compile_segment t w get_asset s >>= λ segment.
    compile_each t w get_asset rest >>= λ segments. ok (segment ∷ segments)

-- `_check_non_overlapping`, with min_length=1
unfoldable pub check_plan : List RenderSegment → Bool
unfolding sort_by overlap_free
check_plan [] = false
check_plan (s ∷ rest) =
    overlap_free render_start render_duration (pos 0) (sort_by render_start (s ∷ rest))

abbrev pub is_empty : List MediaSegment → Bool
is_empty [] = true
is_empty (s ∷ rest) = false

unfoldable pub compile_timeline_to_render_plan :
    {Spec Profile : Type 0}
    → Timeline
    → ℕ
    → Spec
    → Profile
    → AssetResolver
    → Result Error (RenderPlan Spec Profile)
unfolding compile_each check_plan sort_by
compile_timeline_to_render_plan t w spec profile get_asset = do
  reject (is_empty t.segments) (validation (text "Timeline has no segments to compile"))
  segments ← compile_each t w get_asset (sort_by start_of t.segments)
  require (check_plan segments) model_error
  ok (record { segments = segments; output_spec = spec; encoding_profile = profile })
