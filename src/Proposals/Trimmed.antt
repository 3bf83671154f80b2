-- ===== src/Proposals/Trimmed.antt =====
-- packages/creator-service/creator_service/editor_command_applier.py: `_apply_trim` of the last segment
-- of a valid timeline, which is how a proposal to shorten ends.
use short_form_studio.Prelude.{
  ℕ, String, ◌≡◌, refl, sym, ◌∙◌, ap, true, false, Option, List, [], ◌∷◌, ◌++◌, inl, inr, arith,
  ==_iff, str_eq, eq_refl, if◌then◌else◌, Bool-cases, All,
}
use short_form_studio.Prelude.Int.{
  ℤ, pos, ◌+ℤ◌, ◌-ℤ◌, ◌≤ℤ◌, ◌<ℤ◌, leb_ℤ, le→ltb_ℤ, le→leb_ℤ, lt→ltb_ℤ, int_laws,
}
use short_form_studio.Prelude.Checked.{ok}
use short_form_studio.Timeline.Intervals.{insert_by, sort_by, overlap_free}
use short_form_studio.Timeline.Segment.{
  MediaSegment, Timeline, start_of, duration_of, check_segment, check_each, distinct_ids,
  check_segments, model_validate, trims_ordered,
}
use short_form_studio.Timeline.Valid.{DifferentIds, and_true}
use short_form_studio.Editor.Command.{trim_segment}
use short_form_studio.Editor.Assets.{EditorAssetLookup, effective_source_duration}
use short_form_studio.Editor.Segments.{Segments, update_id}
use short_form_studio.Editor.Found.{str_eq_of_ne}
use short_form_studio.Editor.Cut.{trimmed, exceeds, apply_trim}
use short_form_studio.Editor.Apply.{edit_segments, apply_editor_command}
use short_form_studio.Proposals.Applied.{last_different, last_found}

module _ (id : String) (from to : ℤ) where
  check_segment-trimmed :
      (s : MediaSegment)
      → pos 0 ≤ℤ from
      → from <ℤ to
      → check_segment s ≡ true
      → check_segment (trimmed from to s) ≡ true
  unfolding check_segment trimmed trims_ordered
  check_segment-trimmed s start lasts h = ground (
    arith,
    lt→ltb_ℤ (pos 0) (to -ℤ from) (omega (int_laws, lasts)),
    le→leb_ℤ (pos 0) from start,
    le→leb_ℤ (pos 0) to (omega (arith, start, lasts)),
    le→leb_ℤ from to (omega (arith, lasts)),
  )

  check_each-update :
      (xs : Segments)
      → pos 0 ≤ℤ from
      → from <ℤ to
      → check_each xs ≡ true
      → check_each (update_id id (trimmed from to) xs) ≡ true
  unfolding check_each update_id
  check_each-update [] start lasts h = refl
  check_each-update (s ∷ rest) start lasts h =
      let both = and_true (check_segment s) (check_each rest) h in
      elim (Bool-cases (str_eq s.id id)) [
        | inl e ↦
            rw (e, check_segment-trimmed s start lasts both.0)
              (check_each-update rest start lasts both.1)
        | inr e ↦ rw (e, both.0) (check_each-update rest start lasts both.1)
      ]

  distinct_ids-update :
      (seen : List String) (xs : Segments)
      → distinct_ids seen (update_id id (trimmed from to) xs) ≡ distinct_ids seen xs
  unfolding distinct_ids update_id trimmed
  distinct_ids-update seen [] = refl
  distinct_ids-update seen (s ∷ rest) = elim (Bool-cases (str_eq s.id id)) [
    | inl e ↦ rw (e, distinct_ids-update (s.id ∷ seen) rest) refl
    | inr e ↦ rw (e, distinct_ids-update (s.id ∷ seen) rest) refl
  ]

  updated : MediaSegment → MediaSegment
  updated s = if str_eq s.id id then trimmed from to s else s

  updated-start : (s : MediaSegment) → start_of (updated s) ≡ start_of s
  unfolding updated trimmed
  updated-start s = elim (Bool-cases (str_eq s.id id)) [ inl e ↦ rw e refl | inr e ↦ rw e refl ]

  insert_by-update :
      (x : MediaSegment) (ys : Segments)
      → insert_by start_of (updated x) (update_id id (trimmed from to) ys)
        ≡ update_id id (trimmed from to) (insert_by start_of x ys)
  unfolding insert_by update_id updated
  insert_by-update x [] = refl
  insert_by-update x (y ∷ ys) = elim (Bool-cases (leb_ℤ (start_of x) (start_of y))) [
    | inl e ↦ rw (updated-start x, updated-start y, e) refl
    | inr e ↦ rw (updated-start x, updated-start y, e, insert_by-update x ys) refl
  ]

  sort_by-update :
      (xs : Segments)
      → sort_by start_of (update_id id (trimmed from to) xs)
        ≡ update_id id (trimmed from to) (sort_by start_of xs)
  unfolding sort_by update_id updated
  sort_by-update [] = refl
  sort_by-update (s ∷ rest) =
      ap (insert_by start_of (updated s)) (sort_by-update rest)
      ∙ insert_by-update s (sort_by start_of rest)

  overlap_free-last :
      (end : ℤ) (kept : Segments) (x : MediaSegment)
      → overlap_free start_of duration_of end (kept ++ trimmed from to x ∷ [])
        ≡ overlap_free start_of duration_of end (kept ++ x ∷ [])
  unfolding overlap_free trimmed
  overlap_free-last end [] x = refl
  overlap_free-last end (s ∷ kept) x =
      rw (overlap_free-last (start_of s +ℤ duration_of s) kept x) refl

update_id-last :
    (from to : ℤ) (x : MediaSegment) (kept : Segments)
    → All (λ s. DifferentIds s x) kept
    → update_id x.id (trimmed from to) (kept ++ x ∷ []) ≡ kept ++ trimmed from to x ∷ []
unfolding update_id
update_id-last from to x [] h = rw (eq_refl x.id) refl
update_id-last from to x (s ∷ kept) h =
    rw (str_eq_of_ne s.id x.id h.0, update_id-last from to x kept h.1) refl

module _ (w : ℕ) (lookup : EditorAssetLookup) (t : Timeline) (kept : Segments) (x : MediaSegment)
    (valid : model_validate t ≡ ok t) (parts : sort_by start_of t.segments ≡ kept ++ x ∷ [])
    (from to : ℤ) (start : pos 0 ≤ℤ from) (lasts : from <ℤ to) where
  pub sort_by-trimmed :
      sort_by start_of (update_id x.id (trimmed from to) t.segments)
      ≡ kept ++ trimmed from to x ∷ []
  sort_by-trimmed =
      sort_by-update x.id from to t.segments
      ∙ ap (update_id x.id (trimmed from to)) parts
      ∙ update_id-last from to x kept (last_different t kept x valid parts)

  pub model_validate-trimmed :
      model_validate (record t { segments = update_id x.id (trimmed from to) t.segments })
      ≡ ok (record t { segments = update_id x.id (trimmed from to) t.segments })
  unfolding model_validate check_segments
  model_validate-trimmed =
      let each = check_each-update x.id from to t.segments start lasts (ground (arith, valid)) in
      let before : distinct_ids [] t.segments ≡ true = ground (arith, valid) in
      let distinct = distinct_ids-update x.id from to [] t.segments ∙ before in
      let was : overlap_free start_of duration_of (pos 0) (sort_by start_of t.segments) ≡ true =
        ground (arith, valid) in
      let free : overlap_free start_of duration_of (pos 0)
            (sort_by start_of (update_id x.id (trimmed from to) t.segments))
          ≡ true =
        ap (overlap_free start_of duration_of (pos 0)) sort_by-trimmed
        ∙ overlap_free-last x.id from to (pos 0) kept x
        ∙ ap (overlap_free start_of duration_of (pos 0)) (sym parts)
        ∙ was in
      ground (arith, valid, each, distinct, free)

  -- the trim of the last segment is accepted, where its source is long enough
  pub trim_last :
      (source : Option ℤ)
      → effective_source_duration x w lookup ≡ ok source
      → exceeds source to ≡ false
      → apply_editor_command t (trim_segment x.id from to) w t.revision lookup
        ≡ ok (record t { segments = update_id x.id (trimmed from to) t.segments })
  unfolding apply_editor_command edit_segments apply_trim
  trim_last source read fits =
      rw
        (
          (==_iff t.revision t.revision).1 refl,
          last_found t kept x valid parts,
          le→ltb_ℤ to from (omega (arith, lasts)),
          read,
          fits,
        )
        model_validate-trimmed
