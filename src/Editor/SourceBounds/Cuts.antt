-- ===== src/Editor/SourceBounds/Cuts.antt =====
-- Trim, split and delete keep the bound.
use short_form_studio.Prelude.{
  ℕ, String, ◌≡◌, refl, ◌∙◌, sym, subst, Bool, false, ◌||◌, Option, [], ◌∷◌, inl, inr, Bool-cases,
  Option-cases, All, AllPairs, All-append, or_false,
}
use short_form_studio.Prelude.Int.{
  ℤ, leb_ℤ, leb_ℤ→lt, ◌+ℤ◌, ◌-ℤ◌, ◌≤ℤ◌, ◌<ℤ◌, ltb_ℤ, int_laws, ltb_ℤ→le,
}
use short_form_studio.Prelude.Checked.{ok, bind-returns, reject-returns, ok-injective}
use short_form_studio.Timeline.Intervals.{tick}
use short_form_studio.Timeline.Segment.{MediaSegment}
use short_form_studio.Timeline.Valid.{DifferentIds}
use short_form_studio.Editor.Command.{DeletePolicy, gap, ripple}
use short_form_studio.Editor.Assets.{EditorAssetLookup, effective_source_duration}
use short_form_studio.Editor.Segments.{Segments, microsecond, find_segment, end_of}
use short_form_studio.Editor.Cut.{
  exceeds, trimmed, apply_trim, left_half, right_half, shift_trim, split_target, apply_split,
  without_id, close_gap, by_policy, apply_delete,
}
use short_form_studio.Editor.Found.{find_segment-IsAt, replace_by_halves-eq, without_id-eq}
use short_form_studio.Editor.SourceBounds.{
  Fits, IsAt-Fits, update_id-Fits, source_of_target, shorter-Fits,
}

-- the test that `_apply_split` rejects by
abbrev pub outside : MediaSegment → ℤ → Bool
outside s at = leb_ℤ at (s.timeline_start_seconds +ℤ tick) || leb_ℤ (end_of s -ℤ tick) at

pub outside_false :
    (s : MediaSegment) (at : ℤ)
    → outside s at ≡ false
    → (s.timeline_start_seconds ≤ℤ at) × (at ≤ℤ end_of s)
outside_false s at h =
    let (lo, hi) = or_false (leb_ℤ at (s.timeline_start_seconds +ℤ tick)) _ h in
    (
      omega (int_laws, leb_ℤ→lt at (s.timeline_start_seconds +ℤ tick) lo),
      omega (int_laws, leb_ℤ→lt (end_of s -ℤ tick) at hi),
    )

pub strictly_inside :
    (s : MediaSegment) (at : ℤ)
    → outside s at ≡ false
    → (s.timeline_start_seconds <ℤ at) × (at <ℤ end_of s)
strictly_inside s at h =
    let (lo, hi) = or_false (leb_ℤ at (s.timeline_start_seconds +ℤ tick)) _ h in
    (
      omega (int_laws, leb_ℤ→lt at (s.timeline_start_seconds +ℤ tick) lo),
      omega (int_laws, leb_ℤ→lt (end_of s -ℤ tick) at hi),
    )

module _ (lookup : EditorAssetLookup) (workspace_id : ℕ) where
  abbrev Keeps : MediaSegment → Type 0
  Keeps = Fits lookup workspace_id

  trimmed-Fits :
      (from to : ℤ) (s : MediaSegment) (source : Option ℤ)
      → effective_source_duration s workspace_id lookup ≡ ok source
      → exceeds source to ≡ false
      → Keeps (trimmed from to s)
  unfolding trimmed
  trimmed-Fits from to s source h within = record {
    bound = λ asset e image.
        let known = source_of_target lookup workspace_id s source asset h e image in
        let le =
          ltb_ℤ→le (asset.duration_seconds +ℤ microsecond) to
            (subst (λ o. exceeds o to ≡ false) known within) in
        omega (int_laws, le);
  }

  pub apply_trim-Fits :
      (segments : Segments) (id : String) (from to : ℤ) (r : Segments)
      → AllPairs DifferentIds segments
      → All Keeps segments
      → apply_trim segments id from to workspace_id lookup ≡ ok r
      → All Keeps r
  unfolding apply_trim
  apply_trim-Fits segments id from to r distinct fits h =
      let (target, found, h1) = bind-returns (find_segment segments id) _ h in
      let h2 = (reject-returns (ltb_ℤ to from) _ _ h1).1 in
      let (source, known, h3) =
        bind-returns (effective_source_duration target workspace_id lookup) _ h2 in
      let (within, h4) = reject-returns (exceeds source to) _ _ h3 in
      let at = find_segment-IsAt segments id target distinct found in
      let new = trimmed-Fits from to target source known within in
      let all =
        update_id-Fits lookup workspace_id segments id (trimmed from to) target at fits new in
      subst (All Keeps) (ok-injective _ _ h4) all

  halves-Fits :
      (at : ℤ) (s : MediaSegment)
      → s.timeline_start_seconds ≤ℤ at
      → at ≤ℤ end_of s
      → Keeps s
      → let trim_split = shift_trim s.trim_start_seconds (at -ℤ s.timeline_start_seconds) in
        Keeps (left_half (at -ℤ s.timeline_start_seconds) trim_split s)
        × Keeps (right_half at (end_of s -ℤ at) trim_split s)
  unfolding left_half right_half
  halves-Fits at s lo hi fits = (
    shorter-Fits lookup workspace_id s _ refl (omega (int_laws, lo, hi)) fits,
    shorter-Fits lookup workspace_id s _ refl
        (elim (Option-cases s.trim_start_seconds) [
          | inl e ↦ rw e (omega (int_laws, lo, hi))
          | inr (x, e) ↦ rw e (omega (int_laws, lo, hi))
        ])
        fits,
  )

  pub apply_split-Fits :
      (segments : Segments) (id : String) (at : ℤ) (r : Segments)
      → AllPairs DifferentIds segments
      → All Keeps segments
      → apply_split segments id at ≡ ok r
      → All Keeps r
  unfolding apply_split split_target
  apply_split-Fits segments id at r distinct fits h =
      let (target, found, h1) = bind-returns (find_segment segments id) _ h in
      let (inside, h2) = reject-returns (outside target at) _ _ h1 in
      let place = find_segment-IsAt segments id target distinct found in
      let parts = IsAt-Fits lookup workspace_id segments id target place fits in
      let (after_start, before_end) = outside_false target at inside in
      let new = halves-Fits at target after_start before_end parts.1 in
      let trim_split = shift_trim target.trim_start_seconds (at -ℤ target.timeline_start_seconds) in
      let left = left_half (at -ℤ target.timeline_start_seconds) trim_split in
      let right = right_half at (end_of target -ℤ at) trim_split in
      let whole =
        All-append Keeps place.before (left target ∷ right target ∷ place.after) parts.0
          (new.0, (new.1, parts.2)) in
      subst (All Keeps)
        (sym (replace_by_halves-eq id left right segments target place) ∙ ok-injective _ _ h2) whole

  close_gap-Fits :
      (target : MediaSegment) (segments : Segments)
      → All Keeps segments
      → All Keeps (close_gap target segments)
  unfolding close_gap
  close_gap-Fits target [] fits = tt
  close_gap-Fits target (s ∷ rest) fits = (
    elim (Bool-cases (leb_ℤ target.timeline_start_seconds s.timeline_start_seconds)) [
      | inl e ↦ rw e (record { bound = fits.0.bound })
      | inr e ↦ rw e fits.0
    ],
    close_gap-Fits target rest fits.1,
  )

  by_policy-Fits :
      (policy : DeletePolicy) (target : MediaSegment) (segments : Segments)
      → All Keeps segments
      → All Keeps (by_policy policy target segments)
  by_policy-Fits gap target segments fits = fits
  by_policy-Fits ripple target segments fits = close_gap-Fits target segments fits

  pub apply_delete-Fits :
      (segments : Segments) (id : String) (policy : DeletePolicy) (r : Segments)
      → AllPairs DifferentIds segments
      → All Keeps segments
      → apply_delete segments id policy ≡ ok r
      → All Keeps r
  unfolding apply_delete
  apply_delete-Fits segments id policy r distinct fits h =
      let (target, found, h1) = bind-returns (find_segment segments id) _ h in
      let place = find_segment-IsAt segments id target distinct found in
      let parts = IsAt-Fits lookup workspace_id segments id target place fits in
      let kept : All Keeps (without_id id segments) =
        rw (without_id-eq id segments target place)
          (All-append Keeps place.before place.after parts.0 parts.2) in
      subst (All Keeps) (ok-injective _ _ h1)
        (by_policy-Fits policy target (without_id id segments) kept)
