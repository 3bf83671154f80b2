-- ===== src/Editor/SourceBounds/Places.antt =====
-- Move, resize, replace and transition keep the bound.
use short_form_studio.Prelude.{
  ℕ, String, ◌≡◌, ap, ◌∙◌, sym, subst, Bool, true, false, not, ◌&&◌, ◌||◌, Option, some, [], ◌∷◌,
  ◌++◌, inl, inr, arith, Bool-cases, All, AllPairs, All-append, append-All, take, drop,
  take-append-drop, leb, length,
}
use short_form_studio.Prelude.Int.{ℤ, pos, ◌+ℤ◌, ◌-ℤ◌, ◌≤ℤ◌, int_laws, ltb_ℤ→le, min_ℤ-le, eqb_ℤ→eq}
use short_form_studio.Prelude.Checked.{ok, bind-returns, reject-returns, ok-injective}
use short_form_studio.Timeline.Segment.{MediaSegment}
use short_form_studio.Timeline.Valid.{DifferentIds}
use short_form_studio.Editor.Command.{SupportedTransition}
use short_form_studio.Editor.Assets.{
  EditorAssetRef, EditorAssetLookup, is_image, effective_source_duration,
}
use short_form_studio.Editor.Segments.{Segments, microsecond, or_zero, find_segment, locate}
use short_form_studio.Editor.Replace.{
  replacement, incompatible, replaced_start, window_end, replaced_end, window_changes, replaced,
  apply_replace,
}
use short_form_studio.Editor.Place.{
  resequence_from, resequence, reorder, apply_move, resized, resize_each, outgrows, is_some,
  apply_resize, with_transition, apply_transition,
}
use short_form_studio.Editor.Found.{find_segment-IsAt}
use short_form_studio.Editor.Located.{locate-IsAt, reorder-eq, shift_all, resize_each-IsAt}
use short_form_studio.Editor.SourceBounds.{
  Within, Fits, IsAt-Fits, update_id-Fits, source_of_target,
}

pub replacement-some :
    (project_id : ℕ) (asset : Option EditorAssetRef) (new : EditorAssetRef)
    → replacement project_id asset ≡ ok new
    → asset ≡ some new
unfolding replacement
replacement-some project_id asset new h = ground arith

pub replaced_end-le :
    (s : MediaSegment) (new : EditorAssetRef) → replaced_end s new ≤ℤ new.duration_seconds
unfolding replaced_end
replaced_end-le s new = min_ℤ-le (window_end s (replaced_start s new)) new.duration_seconds

unchanged_parts :
    (image a b c : Bool)
    → (not image && (a || not b || c)) ≡ false
    → image ≡ false
    → (a ≡ false) × (b ≡ true) × (c ≡ false)
unchanged_parts image a b c h e = ground arith

some-injective' : {a b : EditorAssetRef} → some a ≡ some b → a ≡ b
some-injective' h = cc

module _ (lookup : EditorAssetLookup) (workspace_id : ℕ) where
  abbrev Keeps : MediaSegment → Type 0
  Keeps = Fits lookup workspace_id

  resequence_from-Fits :
      (cursor : ℤ) (segments : Segments)
      → All Keeps segments
      → All Keeps (resequence_from cursor segments)
  unfolding resequence_from
  resequence_from-Fits cursor [] fits = tt
  resequence_from-Fits cursor (s ∷ rest) fits = (
    record { bound = fits.0.bound },
    resequence_from-Fits (cursor +ℤ s.duration_seconds) rest fits.1,
  )

  take-drop-Fits :
      (n : ℕ) (segments : Segments)
      → All Keeps segments
      → All Keeps (take n segments) × All Keeps (drop n segments)
  take-drop-Fits n segments fits =
      append-All Keeps (take n segments) (drop n segments) (rw (take-append-drop n segments) fits)

  pub apply_move-Fits :
      (segments : Segments) (id : String) (index : ℕ) (r : Segments)
      → AllPairs DifferentIds segments
      → All Keeps segments
      → apply_move segments id index ≡ ok r
      → All Keeps r
  unfolding apply_move resequence
  apply_move-Fits segments id index r distinct fits h =
      let (found, located, h1) = bind-returns (locate segments id) _ h in
      let (inside, h2) = reject-returns (leb (length segments) index) _ _ h1 in
      let (place, n) = locate-IsAt segments id found.0 found.1 distinct located in
      let parts = IsAt-Fits lookup workspace_id segments id found.1 place fits in
      let others = All-append Keeps place.before place.after parts.0 parts.2 in
      let cut = take-drop-Fits index (place.before ++ place.after) others in
      let moved =
        All-append Keeps (take index (place.before ++ place.after))
          (found.1 ∷ drop index (place.before ++ place.after)) cut.0 (parts.1, cut.1) in
      let same : reorder segments found.0 found.1 index ≡ _ =
        ap (λ i. reorder segments i found.1 index) n ∙ reorder-eq segments id found.1 index place in
      let whole : All Keeps (reorder segments found.0 found.1 index) =
        subst (All Keeps) (sym same) moved in
      subst (All Keeps) (ok-injective _ _ h2)
        (resequence_from-Fits (pos 0) (reorder segments found.0 found.1 index) whole)

  shift_all-Fits :
      (delta : ℤ) (segments : Segments) → All Keeps segments → All Keeps (shift_all delta segments)
  unfolding shift_all
  shift_all-Fits delta [] fits = tt
  shift_all-Fits delta (s ∷ rest) fits =
      (record { bound = fits.0.bound }, shift_all-Fits delta rest fits.1)

  resized-Fits :
      (duration : ℤ) (s : MediaSegment) (source : Option ℤ)
      → effective_source_duration s workspace_id lookup ≡ ok source
      → outgrows s source duration ≡ false
      → Keeps (resized duration source s)
  unfolding resized
  resized-Fits duration s source h within = record {
    bound = λ asset e image.
        let known = source_of_target lookup workspace_id s source asset h e image in
        let room =
          ltb_ℤ→le (asset.duration_seconds -ℤ or_zero s.trim_start_seconds +ℤ microsecond) duration
            (subst (λ o. outgrows s o duration ≡ false) known within) in
        omega (int_laws, room);
  }

  pub apply_resize-Fits :
      (segments : Segments) (id : String) (duration : ℤ) (r : Segments)
      → AllPairs DifferentIds segments
      → All Keeps segments
      → apply_resize segments id duration workspace_id lookup ≡ ok r
      → All Keeps r
  unfolding apply_resize
  apply_resize-Fits segments id duration r distinct fits h =
      let (found, located, h1) = bind-returns (locate segments id) _ h in
      let (source, known, h2) =
        bind-returns (effective_source_duration found.1 workspace_id lookup) _ h1 in
      let (room, h3) = reject-returns (outgrows found.1 source duration) _ _ h2 in
      let (place, n) = locate-IsAt segments id found.0 found.1 distinct located in
      let parts = IsAt-Fits lookup workspace_id segments id found.1 place fits in
      let delta = duration -ℤ found.1.duration_seconds in
      let new = resized duration source found.1 in
      let shifted = All-append Keeps place.before (new ∷ shift_all delta place.after) parts.0 (
        resized-Fits duration found.1 source known room,
        shift_all-Fits delta place.after parts.2,
      ) in
      let same : resize_each 0 found.0 new delta segments
          ≡ place.before ++ (new ∷ shift_all delta place.after) =
        resize_each-IsAt segments id found.1 place new delta found.0 n in
      subst (All Keeps) (sym same ∙ ok-injective _ _ h3) shifted

  -- what is written where the window changes ends with the new source
  new_window-Fits :
      (s : MediaSegment) (asset_id : ℕ) (new : EditorAssetRef)
      → lookup asset_id workspace_id ≡ some new
      → Keeps (record s {
        asset_id = asset_id;
        trim_start_seconds = some (replaced_start s new);
        trim_end_seconds = some (replaced_end s new);
        duration_seconds = replaced_end s new -ℤ replaced_start s new;
      })
  new_window-Fits s asset_id new known = record {
    bound = λ asset e image.
        let same : new ≡ asset = some-injective' (sym known ∙ e) in
        subst (Within (replaced_start s new) (replaced_end s new -ℤ replaced_start s new)) same
          (omega (int_laws, replaced_end-le s new));
  }

  -- where it does not change, the old window fits already
  old_window-Fits :
      (s : MediaSegment) (asset_id : ℕ) (new : EditorAssetRef)
      → lookup asset_id workspace_id ≡ some new
      → (not (is_image new.media_type) && window_changes s new) ≡ false
      → Keeps (record s { asset_id = asset_id })
  unfolding window_changes
  old_window-Fits s asset_id new known unchanged = record {
    bound = λ asset e image.
        let same : new ≡ asset = some-injective' (sym known ∙ e) in
        let video = ap (λ (a : EditorAssetRef). is_image a.media_type) same ∙ image in
        let kept = unchanged_parts (is_image new.media_type) _ _ _ unchanged video in
        let at_start : or_zero s.trim_start_seconds ≡ replaced_start s new =
          eqb_ℤ→eq (or_zero s.trim_start_seconds) (replaced_start s new) kept.1 in
        let room =
          ltb_ℤ→le (replaced_end s new -ℤ replaced_start s new) s.duration_seconds kept.2 in
        subst (Within (or_zero s.trim_start_seconds) s.duration_seconds) same
          (rw at_start (omega (int_laws, room, replaced_end-le s new)));
  }

  replaced-Fits :
      (s : MediaSegment) (asset_id : ℕ) (new : EditorAssetRef)
      → lookup asset_id workspace_id ≡ some new
      → Keeps (replaced s new asset_id s)
  unfolding replaced
  replaced-Fits s asset_id new known =
      elim (Bool-cases (not (is_image new.media_type) && window_changes s new)) [
        | inl e ↦ rw e (new_window-Fits s asset_id new known)
        | inr e ↦ rw e (old_window-Fits s asset_id new known e)
      ]

  pub apply_replace-Fits :
      (segments : Segments) (id : String) (asset_id project_id : ℕ) (r : Segments)
      → AllPairs DifferentIds segments
      → All Keeps segments
      → apply_replace segments id asset_id project_id workspace_id lookup ≡ ok r
      → All Keeps r
  unfolding apply_replace
  apply_replace-Fits segments id asset_id project_id r distinct fits h =
      let (target, found, h1) = bind-returns (find_segment segments id) _ h in
      let (new, known, h2) =
        bind-returns (replacement project_id (lookup asset_id workspace_id)) _ h1 in
      let h3 = (reject-returns (incompatible (lookup target.asset_id workspace_id) new) _ _ h2).1 in
      let at = find_segment-IsAt segments id target distinct found in
      let fit = replaced-Fits target asset_id new (replacement-some project_id _ new known) in
      subst (All Keeps) (ok-injective _ _ h3) (
        update_id-Fits lookup workspace_id segments id (replaced target new asset_id) target at fits
          fit)

  pub apply_transition-Fits :
      (segments : Segments) (id : String) (transition : SupportedTransition) (duration : Option ℤ)
      (r : Segments)
      → AllPairs DifferentIds segments
      → All Keeps segments
      → apply_transition segments id transition duration ≡ ok r
      → All Keeps r
  unfolding apply_transition
  apply_transition-Fits segments id transition duration r distinct fits h =
      let (none_given, h1) = reject-returns (is_some duration) _ _ h in
      let (target, found, h2) = bind-returns (find_segment segments id) _ h1 in
      let at = find_segment-IsAt segments id target distinct found in
      let parts = IsAt-Fits lookup workspace_id segments id target at fits in
      let fit : Keeps (with_transition transition target) =
        unfold with_transition in (record { bound = parts.1.bound }) in
      subst (All Keeps) (ok-injective _ _ h2) (
        update_id-Fits lookup workspace_id segments id (with_transition transition) target at fits
          fit)
