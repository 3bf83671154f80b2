-- ===== src/Render/Compiled.antt =====
-- packages/creator-service/creator_service/timeline_compiler.py: what a compiled plan is.
use short_form_studio.Prelude.{
  ℕ, ◌==◌, String, ◌≡◌, ◌≢◌, refl, ap, subst, Bool, true, false, ◌&&◌, Option, none, some, List, [],
  ◌∷◌, ◌⊎◌, inl, inr, ◌||◌, Bool-cases, arith, str_eq, ==_iff, eq_iff, All, AllPairs,
}
use short_form_studio.Prelude.Int.{ℤ, pos, ◌+ℤ◌, ◌≤ℤ◌, ltb_ℤ→le}
use short_form_studio.Prelude.Checked.{
  ok, bind-returns, require-returns, reject-returns, ok-injective,
}
use short_form_studio.Errors.{validation, of_id}
use short_form_studio.Timeline.Intervals.{sort_by, Disjoint}
use short_form_studio.Timeline.Sorting.{sort_by-IsSorted, StartsLe, AllPairs-of_overlap_free}
use short_form_studio.Timeline.Segment.{MediaSegment, Timeline, start_of}
use short_form_studio.Run.Storage.{mem_text}
use short_form_studio.Editor.Segments.{microsecond, or_zero}
use short_form_studio.Render.Compile.{
  MediaType, image_type, video_type, audio_type, logo_type, graphic_type, MediaAsset, RenderSegmentKind, image_kind, video_kind, AssetResolver, RenderSegment, RenderPlan,
  render_start, render_duration, media_kind, is_supported, effective_end, overruns,
  validate_source_bounds, available, owned_by, source_key, kind_or_error, render_segment,
  compile_segment, compile_each, check_plan, compile_timeline_to_render_plan,
}

-- a video of a known duration is played up to its end at most, within the tolerance
abbrev pub WithinSource : RenderSegmentKind → Option ℤ → ℤ → Type 0
WithinSource video_kind (some source) end = end ≤ℤ source +ℤ microsecond
WithinSource _ _ end = Unit

-- images, logos and graphics are rendered as images, videos as videos, and audio not at all
abbrev pub RendersAs : MediaType → RenderSegmentKind → Type 0
RendersAs video_type video_kind = Unit
RendersAs image_type image_kind = Unit
RendersAs logo_type image_kind = Unit
RendersAs graphic_type image_kind = Unit
RendersAs _ _ = ⊥

abbrev pub SupportedTransition : Option String → Type 0
SupportedTransition none = Unit
SupportedTransition (some x) =
    (x ≡ "cut") ⊎ (x ≡ "fade") ⊎ (x ≡ "ken_burns") ⊎ (x ≡ "ken_burns_lite")

-- the end of what is played of the source: the trim end, or else the duration after the trim start, or
-- after 0
abbrev pub PlaysTo : Option ℤ → Option ℤ → ℤ → ℤ → Type 0
PlaysTo start (some to) duration end = end ≡ to
PlaysTo (some from) none duration end = end ≡ from +ℤ duration
PlaysTo none none duration end = end ≡ pos 0 +ℤ duration

-- how a segment of the timeline is rendered
pub record Rendered (t : Timeline) (w : ℕ) (get_asset : AssetResolver) (s : MediaSegment)
    (r : RenderSegment) : Type 0 where
  pub asset : MediaAsset
  pub resolved : get_asset s.asset_id w ≡ some asset
  pub of_workspace : asset.workspace_id ≡ w
  pub of_project : asset.project_id ≡ some t.project_id
  pub key : asset.storage_key ≡ some r.source
  pub key_given : r.source ≢ ""
  pub renderable : RendersAs asset.media_type r.kind
  pub supported : SupportedTransition s.transition
  pub end : ℤ
  pub played : PlaysTo s.trim_start_seconds s.trim_end_seconds s.duration_seconds end
  pub bounded : WithinSource r.kind asset.duration_seconds end
  pub same_start : r.timeline_start_seconds ≡ s.timeline_start_seconds
  pub same_duration : r.duration_seconds ≡ s.duration_seconds
  pub same_trim_start : r.trim_start_seconds ≡ s.trim_start_seconds
  pub same_trim_end : r.trim_end_seconds ≡ s.trim_end_seconds
  pub same_fit : r.fit_mode ≡ s.fit_mode
  pub same_transition : r.transition ≡ s.transition

media_kind-RendersAs :
    (m : MediaType) (kind : RenderSegmentKind) → media_kind m ≡ some kind → RendersAs m kind
unfolding media_kind
media_kind-RendersAs video_type video_kind h = tt
media_kind-RendersAs image_type image_kind h = tt
media_kind-RendersAs logo_type image_kind h = tt
media_kind-RendersAs graphic_type image_kind h = tt
media_kind-RendersAs audio_type kind h = absurd (cc)
media_kind-RendersAs video_type image_kind h = absurd (cc)
media_kind-RendersAs image_type video_kind h = absurd (cc)
media_kind-RendersAs logo_type video_kind h = absurd (cc)
media_kind-RendersAs graphic_type video_kind h = absurd (cc)

mem_text-cases :
    (x y : String) (rest : List String)
    → mem_text x (y ∷ rest) ≡ true
    → (x ≡ y) ⊎ (mem_text x rest ≡ true)
unfolding mem_text
mem_text-cases x y rest h = elim (Bool-cases (str_eq x y)) [
  | inl e ↦ inl ((eq_iff x y).0 e)
  | inr e ↦ inr (rw e at h)
]

is_supported-SupportedTransition :
    (m : Option String) → is_supported m ≡ true → SupportedTransition m
unfolding is_supported mem_text
is_supported-SupportedTransition none h = tt
is_supported-SupportedTransition (some x) h =
    elim (mem_text-cases x "cut" ("fade" ∷ "ken_burns" ∷ "ken_burns_lite" ∷ []) h) [
      | inl e ↦ inl e
      | inr h₁ ↦ elim (mem_text-cases x "fade" ("ken_burns" ∷ "ken_burns_lite" ∷ []) h₁) [
        | inl e ↦ inr (inl e)
        | inr h₂ ↦ elim (mem_text-cases x "ken_burns" ("ken_burns_lite" ∷ []) h₂) [
          | inl e ↦ inr (inr (inl e))
          | inr h₃ ↦ elim (mem_text-cases x "ken_burns_lite" [] h₃) [
            | inl e ↦ inr (inr (inr e))
            | inr h₄ ↦ absurd (none_left h₄)
          ]
        ]
      ]
    ]
  where
    none_left : mem_text x [] ≡ true → ⊥
    none_left e = cc

effective_end-PlaysTo :
    (s : MediaSegment)
    → PlaysTo s.trim_start_seconds s.trim_end_seconds s.duration_seconds (effective_end s)
effective_end-PlaysTo s = ends s.trim_start_seconds s.trim_end_seconds s.duration_seconds
  where
    ends :
        (from to : Option ℤ) (duration : ℤ)
        → PlaysTo from to duration
            (elim to [ | some end ↦ end | none ↦ or_zero from +ℤ duration ])
    ends from (some to) duration = refl
    ends (some from) none duration = refl
    ends none none duration = refl

-- the two lists go together, item by item
abbrev pub Together :
    (MediaSegment → RenderSegment → Type 0) → List MediaSegment → List RenderSegment → Type 0
Together R [] [] = Unit
Together R (s ∷ ss) (r ∷ rs) = R s r × Together R ss rs
Together R _ _ = ⊥

-- Where the items that go together start together, an order of the first list is one of the second.
module _ (R : MediaSegment → RenderSegment → Type 0)
    (same_start : (s : MediaSegment) (r : RenderSegment)
      → R s r
      → render_start r ≡ start_of s) where
  Together-All :
      (s : MediaSegment) (r : RenderSegment) (ss : List MediaSegment) (rs : List RenderSegment)
      → R s r
      → Together R ss rs
      → All (StartsLe start_of s) ss
      → All (StartsLe render_start r) rs
  Together-All s r [] [] first pairs h = tt
  Together-All s r (a ∷ ss) (b ∷ rs) first pairs h =
      let starts : StartsLe render_start r b =
        rw (same_start s r first, same_start a b pairs.0) h.0 in
      (starts, Together-All s r ss rs first pairs.1 h.1)
  Together-All s r [] (b ∷ rs) first pairs h = absurd pairs
  Together-All s r (a ∷ ss) [] first pairs h = absurd pairs

  pub Together-IsSorted :
      (ss : List MediaSegment) (rs : List RenderSegment)
      → Together R ss rs
      → AllPairs (StartsLe start_of) ss
      → AllPairs (StartsLe render_start) rs
  Together-IsSorted [] [] pairs h = tt
  Together-IsSorted (s ∷ ss) (r ∷ rs) pairs h =
      (Together-All s r ss rs pairs.0 pairs.1 h.0, Together-IsSorted ss rs pairs.1 h.1)
  Together-IsSorted [] (r ∷ rs) pairs h = absurd pairs
  Together-IsSorted (s ∷ ss) [] pairs h = absurd pairs

module _ (t : Timeline) (w : ℕ) (get_asset : AssetResolver) (s : MediaSegment) where
  available-returns :
      (m : Option MediaAsset) (asset : MediaAsset)
      → available t w s m ≡ ok asset
      → (m ≡ some asset) × (asset.workspace_id ≡ w) × (asset.project_id ≡ some t.project_id)
  available-returns none asset h = cc
  available-returns (some a) asset h =
      let (test, e) =
        require-returns (a.workspace_id == w && owned_by t.project_id a.project_id)
          (validation (of_id "references an unavailable asset" s.id)) (ok a) h in
      let same = ok-injective a asset e in
      subst (λ b. (some a ≡ some b) × (b.workspace_id ≡ w) × (b.project_id ≡ some t.project_id))
        same
        (
          refl,
          (==_iff a.workspace_id w).0
              (left (a.workspace_id == w) (owned_by t.project_id a.project_id) test),
          project a.project_id
              (right (a.workspace_id == w) (owned_by t.project_id a.project_id) test),
        )
    where
      left : (x y : Bool) → (x && y) ≡ true → x ≡ true
      left true y h = refl
      left false y h = cc

      right : (x y : Bool) → (x && y) ≡ true → y ≡ true
      right true y h = h
      right false y h = cc

      project : (p : Option ℕ) → owned_by t.project_id p ≡ true → p ≡ some t.project_id
      project none h = cc
      project (some p) h = ap some (ground arith)

  source_key-returns :
      (asset : MediaAsset) (m : Option String) (key : String)
      → source_key asset m ≡ ok key
      → (m ≡ some key) × (key ≢ "")
  source_key-returns asset none key h = cc
  source_key-returns asset (some k) key h =
      let (test, e) = reject-returns _ _ _ h in
      subst (λ x. (some k ≡ some x) × (x ≢ "")) (ok-injective k key e)
        (refl, λ empty. not_empty empty test)
    where
      not_empty : k ≡ "" → str_eq k "" ≡ false → ⊥
      not_empty empty test = let yes' = (eq_iff k "").1 empty in cc

  kind-returns :
      (asset : MediaAsset) (m : Option RenderSegmentKind) (kind : RenderSegmentKind)
      → kind_or_error asset m ≡ ok kind
      → m ≡ some kind
  kind-returns asset none kind h = cc
  kind-returns asset (some k) kind h = ap some (ok-injective k kind h)

  not_overruns-WithinSource :
      (kind : RenderSegmentKind) (d : Option ℤ) (end : ℤ)
      → overruns kind d end ≡ false
      → WithinSource kind d end
  not_overruns-WithinSource video_kind (some source) end h = ltb_ℤ→le (source +ℤ microsecond) end h
  not_overruns-WithinSource video_kind none end h = tt
  not_overruns-WithinSource image_kind d end h = tt

  compile_segment-Rendered :
      (r : RenderSegment) → compile_segment t w get_asset s ≡ ok r → Rendered t w get_asset s r
  unfolding compile_segment validate_source_bounds
  compile_segment-Rendered r h =
      let (asset, asset_ok, h₁) = bind-returns _ _ h in
      let (source, source_ok, h₂) = bind-returns _ _ h₁ in
      let (kind, kind_ok, h₃) = bind-returns _ _ h₂ in
      let (supported, h₄) = require-returns _ _ _ h₃ in
      let (bounded, h₅) = reject-returns _ _ _ h₄ in
      let (checked, h₆) = require-returns _ _ _ h₅ in
      let found = available-returns (get_asset s.asset_id w) asset asset_ok in
      let key = source_key-returns asset asset.storage_key source source_ok in
      subst (Rendered t w get_asset s) (ok-injective (render_segment s source kind) r h₆) (record {
        asset = asset;
        resolved = found.0;
        of_workspace = found.1;
        of_project = found.2;
        key = key.0;
        key_given = key.1;
        renderable =
            media_kind-RendersAs asset.media_type kind
              (kind-returns asset (media_kind asset.media_type) kind kind_ok);
        supported = is_supported-SupportedTransition s.transition supported;
        end = effective_end s;
        played = effective_end-PlaysTo s;
        bounded = not_overruns-WithinSource kind asset.duration_seconds (effective_end s) bounded;
        same_start = refl;
        same_duration = refl;
        same_trim_start = refl;
        same_trim_end = refl;
        same_fit = refl;
        same_transition = refl;
      })

module _ (t : Timeline) (w : ℕ) (get_asset : AssetResolver) where
  compile_each-Together :
      (ss : List MediaSegment) (rs : List RenderSegment)
      → compile_each t w get_asset ss ≡ ok rs
      → Together (Rendered t w get_asset) ss rs
  unfolding compile_each
  compile_each-Together [] rs h =
      subst (Together (Rendered t w get_asset) []) (ok-injective [] rs h) tt
  compile_each-Together (s ∷ ss) rs h =
      let (r, r_ok, h₁) = bind-returns _ _ h in
      let (rest, rest_ok, h₂) = bind-returns _ _ h₁ in
      subst (Together (Rendered t w get_asset) (s ∷ ss)) (ok-injective (r ∷ rest) rs h₂)
        (compile_segment-Rendered t w get_asset s r r_ok, compile_each-Together ss rest rest_ok)

plan-Disjoint :
    (rs : List RenderSegment)
    → check_plan rs ≡ true
    → AllPairs (Disjoint render_start render_duration) rs
unfolding check_plan
plan-Disjoint [] h = tt
plan-Disjoint (r ∷ rs) h = AllPairs-of_overlap_free render_start render_duration (pos 0) (r ∷ rs) h

-- Where a timeline is compiled, the plan has one segment for each of the timeline's, in the order of
-- their starts: its asset is of the workspace and of the timeline's project and has the storage key
-- that is its source, it is a video for a video and an image for an image, a logo or a graphic, its start,
-- duration, trims, fit and transition are those of the timeline's segment, the transition is none or one of
-- the four supported, and a video of a known duration is played
-- up to its end at most. The plan's segments are in order and do not overlap, and the geometry and the
-- encoding are those that were given.
pub compile_timeline_to_render_plan-Rendered :
    {Spec Profile : Type 0} (t : Timeline) (w : ℕ) (spec : Spec) (profile : Profile)
    (get_asset : AssetResolver) (plan : RenderPlan Spec Profile)
    → compile_timeline_to_render_plan t w spec profile get_asset ≡ ok plan
    → Together (Rendered t w get_asset) (sort_by start_of t.segments) plan.segments
      × AllPairs (StartsLe render_start) plan.segments
      × AllPairs (Disjoint render_start render_duration) plan.segments
      × (plan.output_spec ≡ spec)
      × (plan.encoding_profile ≡ profile)
unfolding compile_timeline_to_render_plan
compile_timeline_to_render_plan-Rendered t w spec profile get_asset plan h =
    let (some_segment, h₁) = reject-returns _ _ _ h in
    let (segments, segments_ok, h₂) = bind-returns _ _ h₁ in
    let (checked, h₃) = require-returns _ _ _ h₂ in
    let same = ok-injective _ plan h₃ in
    let pairs =
      compile_each-Together t w get_asset (sort_by start_of t.segments) segments segments_ok in
    let sorted =
      Together-IsSorted (Rendered t w get_asset) (λ s r f. f.same_start)
        (sort_by start_of t.segments) segments pairs (sort_by-IsSorted start_of t.segments) in
    subst
      (λ p.
        Together (Rendered t w get_asset) (sort_by start_of t.segments) p.segments
        × AllPairs (StartsLe render_start) p.segments
        × AllPairs (Disjoint render_start render_duration) p.segments
        × (p.output_spec ≡ spec)
        × (p.encoding_profile ≡ profile))
      same (pairs, sorted, plan-Disjoint segments checked, refl, refl)
