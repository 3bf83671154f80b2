-- ===== src/Render/Compiles.antt =====
-- packages/creator-service/creator_service/timeline_compiler.py: what is compiled.
use Prim.Native.String.{count}
use short_form_studio.Prelude.{
  ℕ, ◌≤◌, String, ◌≡◌, ◌≢◌, refl, sym, subst, ap, true, false, Option, none, some, List, [], ◌∷◌,
  inl, inr, arith, str_eq, ==_iff, eq_iff, All, AllPairs, Bool-cases,
}
use short_form_studio.Prelude.Int.{ℤ, pos, ◌+ℤ◌, ltb_ℤ, le→ltb_ℤ}
use short_form_studio.Prelude.Checked.{ok}
use short_form_studio.Timeline.Intervals.{tick, sort_by, overlap_free}
use short_form_studio.Timeline.Sorting.{
  StartsLe, sort_by-IsSorted, sort_by-All, All-sort_by, sort_by-sorted,
}
use short_form_studio.Timeline.Segment.{
  MediaSegment, Timeline, start_of, duration_of, check_segment, check_each, model_validate,
  check_segments,
}
use short_form_studio.Timeline.Valid.{check_each-All}
use short_form_studio.Editor.Segments.{microsecond}
use short_form_studio.Render.Compile.{
  MediaAsset, RenderSegmentKind, image_kind, video_kind, AssetResolver, RenderSegment, render_start,
  render_duration, media_kind, is_supported, effective_end, overruns, validate_source_bounds,
  available, source_key, render_segment, compile_segment, compile_each, check_plan,
  check_render_segment, is_empty, compile_timeline_to_render_plan,
}
use short_form_studio.Render.Compiled.{WithinSource, Together, Together-IsSorted}

-- what the compiler asks of a segment and its asset
pub record Renderable (t : Timeline) (w : ℕ) (get_asset : AssetResolver) (s : MediaSegment)
    : Type 0 where
  pub asset : MediaAsset
  pub resolved : get_asset s.asset_id w ≡ some asset
  pub of_workspace : asset.workspace_id ≡ w
  pub of_project : asset.project_id ≡ some t.project_id
  pub key : String
  pub stored : asset.storage_key ≡ some key
  pub not_blank : 1 ≤ count key
  pub not_long : count key ≤ 1024
  pub kind : RenderSegmentKind
  pub renderable : media_kind asset.media_type ≡ some kind
  pub supported : is_supported s.transition ≡ true
  pub bounded : WithinSource kind asset.duration_seconds (effective_end s)

WithinSource-not_overruns :
    (kind : RenderSegmentKind) (d : Option ℤ) (end : ℤ)
    → WithinSource kind d end
    → overruns kind d end ≡ false
WithinSource-not_overruns video_kind (some source) end h = le→ltb_ℤ (source +ℤ microsecond) end h
WithinSource-not_overruns video_kind none end h = refl
WithinSource-not_overruns image_kind d end h = refl

not_blank-key : (key : String) → 1 ≤ count key → str_eq key "" ≡ false
not_blank-key key h = elim (Bool-cases (str_eq key "")) [
  | inl e ↦
      let empty : count key ≡ 0 = ap count ((eq_iff key "").0 e) in
      let no : ⊥ = omega (arith, h, empty) in absurd no
  | inr e ↦ e
]

check_render-segment :
    (s : MediaSegment) (key : String) (kind : RenderSegmentKind)
    → check_segment s ≡ true
    → 1 ≤ count key
    → count key ≤ 1024
    → check_render_segment (render_segment s key kind) ≡ true
unfolding check_segment check_render_segment
check_render-segment s key kind h blank long = ground arith

module _ (t : Timeline) (w : ℕ) (get_asset : AssetResolver) (s : MediaSegment) where
  available-ok :
      (a : Renderable t w get_asset s) → available t w s (get_asset s.asset_id w) ≡ ok a.asset
  available-ok a =
      rw
        (
          a.resolved,
          (==_iff a.asset.workspace_id w).1 a.of_workspace,
          a.of_project,
          (==_iff t.project_id t.project_id).1 refl,
        )
        refl

  source_key-ok :
      (a : Renderable t w get_asset s) → source_key a.asset a.asset.storage_key ≡ ok a.key
  source_key-ok a = rw (a.stored, not_blank-key a.key a.not_blank) refl

  compile-segment :
      check_segment s ≡ true
      → (a : Renderable t w get_asset s)
      → compile_segment t w get_asset s ≡ ok (render_segment s a.key a.kind)
  unfolding compile_segment validate_source_bounds
  compile-segment checked a =
      rw
        (
          available-ok a,
          source_key-ok a,
          a.renderable,
          a.supported,
          WithinSource-not_overruns a.kind a.asset.duration_seconds (effective_end s) a.bounded,
          check_render-segment s a.key a.kind checked a.not_blank a.not_long,
        )
        refl

abbrev SamePlace : MediaSegment → RenderSegment → Type 0
SamePlace s r = (render_start r ≡ start_of s) × (render_duration r ≡ duration_of s)

module _ (t : Timeline) (w : ℕ) (get_asset : AssetResolver) where
  abbrev Ready : MediaSegment → Type 0
  Ready s = (check_segment s ≡ true) × Renderable t w get_asset s

  compile_each-SamePlace :
      (ss : List MediaSegment)
      → All Ready ss
      → (rs : List RenderSegment) × (compile_each t w get_asset ss ≡ ok rs)
        × Together SamePlace ss rs
  unfolding compile_each
  compile_each-SamePlace [] h = ([], refl, tt)
  compile_each-SamePlace (s ∷ ss) h =
      let (rs, compiled, places) = compile_each-SamePlace ss h.1 in
      let a = h.0.1 in
      (
        render_segment s a.key a.kind ∷ rs,
        rw (compile-segment t w get_asset s h.0.0 a, compiled) refl,
        ((refl, refl), places),
      )

overlap_free-SamePlace :
    (end : ℤ) (ss : List MediaSegment) (rs : List RenderSegment)
    → Together SamePlace ss rs
    → overlap_free start_of duration_of end ss ≡ true
    → overlap_free render_start render_duration end rs ≡ true
unfolding overlap_free
overlap_free-SamePlace end [] [] places h = refl
overlap_free-SamePlace end (s ∷ ss) (r ∷ rs) places h =
    elim (Bool-cases (ltb_ℤ (start_of s +ℤ tick) end)) [
      | inl e ↦ let h' : false ≡ true = rw e at h in cc
      | inr e ↦
          let h' : overlap_free start_of duration_of (start_of s +ℤ duration_of s) ss ≡ true =
            rw e at h in
          rw (places.0.0, e, places.0.1)
            (overlap_free-SamePlace (start_of s +ℤ duration_of s) ss rs places.1 h')
    ]
overlap_free-SamePlace end [] (r ∷ rs) places h = absurd places
overlap_free-SamePlace end (s ∷ ss) [] places h = absurd places

sort_by-not_empty : (xs : List MediaSegment) → is_empty xs ≡ false → sort_by start_of xs ≢ []
sort_by-not_empty [] h e = cc
sort_by-not_empty (s ∷ rest) h e =
    (sort_by-All start_of (λ _. ⊥) (s ∷ rest) (subst (All (λ _. ⊥)) (sym e) tt)).0

plan-checked :
    (ss : List MediaSegment) (rs : List RenderSegment)
    → ss ≢ []
    → Together SamePlace ss rs
    → AllPairs (StartsLe start_of) ss
    → overlap_free start_of duration_of (pos 0) ss ≡ true
    → check_plan rs ≡ true
unfolding check_plan
plan-checked [] [] some_segment places sorted free = absurd (some_segment refl)
plan-checked (s ∷ ss) [] some_segment places sorted free = absurd places
plan-checked ss (r ∷ rs) some_segment places sorted free =
    rw
      (sort_by-sorted render_start (r ∷ rs)
        (Together-IsSorted SamePlace (λ _ _ h. h.0) ss (r ∷ rs) places sorted))
      (overlap_free-SamePlace (pos 0) ss (r ∷ rs) places free)

validated :
    (t : Timeline)
    → model_validate t ≡ ok t
    → (check_each t.segments ≡ true)
      × (overlap_free start_of duration_of (pos 0) (sort_by start_of t.segments) ≡ true)
unfolding model_validate check_segments
validated t h = (ground arith, ground arith)

All-pair :
    (P Q : MediaSegment → Type 0) (ss : List MediaSegment)
    → All P ss
    → All Q ss
    → All (λ s. P s × Q s) ss
All-pair P Q [] h k = tt
All-pair P Q (s ∷ ss) h k = ((h.0, k.0), All-pair P Q ss h.1 k.1)

-- A valid timeline with a segment, where each segment has an asset of the workspace and of the
-- timeline's project, with a storage key of 1 to 1024 characters, of a type that is rendered, with a
-- supported transition, and where a video of a known duration is played up to its end at most, is
-- compiled: no constraint of the segments of the plan, or of the plan, can fail after these tests.
pub compile_timeline_to_render_plan-compiles :
    {Spec Profile : Type 0} (t : Timeline) (w : ℕ) (spec : Spec) (profile : Profile)
    (get_asset : AssetResolver)
    → model_validate t ≡ ok t
    → is_empty t.segments ≡ false
    → All (Renderable t w get_asset) t.segments
    → (segments : List RenderSegment) × (compile_timeline_to_render_plan t w spec profile get_asset
        ≡ ok (record { segments = segments; output_spec = spec; encoding_profile = profile }))
unfolding compile_timeline_to_render_plan
compile_timeline_to_render_plan-compiles t w spec profile get_asset valid some_segment ready =
    let (checked, free) = validated t valid in
    let (rs, compiled, places) =
      compile_each-SamePlace t w get_asset (sort_by start_of t.segments) (
        All-sort_by start_of (Ready t w get_asset) t.segments (
          All-pair (λ s. check_segment s ≡ true) (Renderable t w get_asset) t.segments
            (check_each-All t.segments checked) ready)) in
    (
      rs,
      rw
          (
            some_segment,
            compiled,
            plan-checked (sort_by start_of t.segments) rs
                (sort_by-not_empty t.segments some_segment) places
                (sort_by-IsSorted start_of t.segments) free,
          )
          refl,
    )
