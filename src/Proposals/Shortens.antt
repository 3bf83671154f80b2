-- ===== src/Proposals/Shortens.antt =====
-- packages/creator-service/creator_service/shorten_proposal.py with validate_ai_proposal.py: a proposal
-- to shorten that is applied.
use short_form_studio.Prelude.{
  ℕ, ◌≡◌, refl, sym, subst, ◌∙◌, ap, true, false, Option, none, some, List, [], ◌∷◌, ◌++◌, arith,
  ==_iff, All, append_assoc, append-nil,
}
use short_form_studio.Prelude.Int.{
  ℤ, pos, ◌+ℤ◌, ◌-ℤ◌, ◌≤ℤ◌, ◌<ℤ◌, le→ltb_ℤ, ltb_ℤ→le, leb_ℤ→le, leb_ℤ, ltb_ℤ, int_laws,
}
use short_form_studio.Prelude.Checked.{ok, reject-returns}
use short_form_studio.Errors.{validation, text}
use short_form_studio.Timeline.Intervals.{tick, sort_by}
use short_form_studio.Timeline.Sorting.{sort_by-IsSorted, All-sort_by}
use short_form_studio.Timeline.Segment.{
  MediaSegment, Timeline, start_of, nonneg?, check_segment, check_each, model_validate,
  total_duration_seconds,
}
use short_form_studio.Timeline.Valid.{check_each-All}
use short_form_studio.Editor.Command.{EditorCommand, trim_segment}
use short_form_studio.Editor.Assets.{EditorAssetLookup, effective_source_duration}
use short_form_studio.Editor.Segments.{Segments, microsecond, or_zero, end_of, update_id}
use short_form_studio.Editor.Cut.{trimmed, exceeds}
use short_form_studio.Editor.History.Defs.{
  EditorHistory, accept, finish, fold_commands, apply_batch, apply_batch_if_generation, capture,
}
use short_form_studio.Proposals.Proposal.{CommandProposal, has_commands, apply_ai_proposal}
use short_form_studio.Proposals.Shorten.{
  finite, reversed, find_boundary_index, shorten_ordered, build_shorten_proposal,
}
use short_form_studio.Proposals.Cuts.{CutAt, at_end, inside, deletes, cut_at-CutAt}
use short_form_studio.Proposals.Spanning.{All-middle, find_boundary_index-Boundary}
use short_form_studio.Proposals.Gaps.{cut_found}
use short_form_studio.Proposals.Applied.{Lasts, delete_each, reversed-reversed}
use short_form_studio.Proposals.Trimmed.{trim_last, sort_by-trimmed}

-- the segment's asset is found, and is long enough for what is played of it
pub record HasSource (w : ℕ) (lookup : EditorAssetLookup) (s : MediaSegment) : Type 0 where
  pub source : Option ℤ
  pub read : effective_source_duration s w lookup ≡ ok source
  pub long_enough : exceeds source (or_zero s.trim_start_seconds +ℤ s.duration_seconds) ≡ false

-- what an applied proposal leaves of the segments: those that end before the target as they were, and
-- after them one with the start of the segment that spans it, which ends at the target
pub record EndsAt (target : ℤ) (ordered segments : Segments) : Type 0 where
  pub kept : Segments
  pub spanning : MediaSegment
  pub cut : Segments
  pub last : MediaSegment
  pub before : ordered ≡ kept ++ spanning ∷ cut
  pub after : sort_by start_of segments ≡ kept ++ last ∷ []
  pub same_start : start_of last ≡ start_of spanning
  pub kept_end : All (λ s. end_of s +ℤ tick <ℤ target) kept
  pub not_short : target ≤ℤ end_of last +ℤ tick
  pub not_long : end_of last ≤ℤ target +ℤ tick

exceeds-shorter :
    (source : Option ℤ) (short long : ℤ)
    → short ≤ℤ long
    → exceeds source long ≡ false
    → exceeds source short ≡ false
exceeds-shorter none short long le h = refl
exceeds-shorter (some x) short long le h =
    le→ltb_ℤ (x +ℤ microsecond) short (omega (arith, le, ltb_ℤ→le (x +ℤ microsecond) long h))

or_zero-nonneg : (trim : Option ℤ) → nonneg? trim ≡ true → pos 0 ≤ℤ or_zero trim
or_zero-nonneg none h = omega arith
or_zero-nonneg (some x) h = leb_ℤ→le (pos 0) x h

trim_start-nonneg :
    (s : MediaSegment) → check_segment s ≡ true → pos 0 ≤ℤ or_zero s.trim_start_seconds
unfolding check_segment
trim_start-nonneg s h = or_zero-nonneg s.trim_start_seconds (ground arith)

validated-each : (t : Timeline) → model_validate t ≡ ok t → check_each t.segments ≡ true
unfolding model_validate
validated-each t h = ground arith

-- where the trimmed segment ends at the target
trim_bounds :
    (target from to : ℤ) (s : MediaSegment)
    → end_of (trimmed from to s) ≡ target
    → s.timeline_start_seconds <ℤ target
    → target <ℤ end_of s
    → (from <ℤ to) × (to ≤ℤ from +ℤ s.duration_seconds)
unfolding trimmed
trim_bounds target from to s e starts ends =
    let below : s.timeline_start_seconds +ℤ (to -ℤ from) ≤ℤ target =
      subst (λ x. s.timeline_start_seconds +ℤ (to -ℤ from) ≤ℤ x) e (omega arith) in
    let above : target ≤ℤ s.timeline_start_seconds +ℤ (to -ℤ from) =
      subst (λ x. x ≤ℤ s.timeline_start_seconds +ℤ (to -ℤ from)) e (omega arith) in
    (omega (int_laws, above, starts), omega (int_laws, below, ends))

trimmed-start : (from to : ℤ) (s : MediaSegment) → start_of (trimmed from to s) ≡ start_of s
unfolding trimmed
trimmed-start from to s = refl

module _ (w : ℕ) (lookup : EditorAssetLookup) (t : Timeline) (target : ℤ)
    (valid : model_validate t ≡ ok t) (lasts : All Lasts t.segments)
    (sources : All (HasSource w lookup) t.segments) where
  -- the timeline that the deletions leave
  deleted :
      (kept : Segments) (b : MediaSegment) (cut : Segments) (more : List EditorCommand)
      → sort_by start_of t.segments ≡ kept ++ b ∷ cut
      → (segments : Segments) × (fold_commands t (deletes cut ++ more) w lookup
          ≡ fold_commands (record t { segments = segments }) more w lookup)
        × (model_validate (record t { segments = segments })
            ≡ ok (record t { segments = segments }))
        × (sort_by start_of segments ≡ kept ++ b ∷ [])
  deleted kept b cut more parts =
      delete_each w lookup (reversed cut) (kept ++ b ∷ []) more t valid lasts (
        parts
        ∙ sym (append_assoc kept (b ∷ []) cut)
        ∙ ap (λ l. (kept ++ b ∷ []) ++ l) (sym (reversed-reversed cut)))

  fold_commands-EndsAt :
      (commands : List EditorCommand)
      → CutAt target (sort_by start_of t.segments) commands
      → (segments : Segments) × (fold_commands t commands w lookup
          ≡ ok (record t { segments = segments }))
        × EndsAt target (sort_by start_of t.segments) segments
  unfolding fold_commands
  fold_commands-EndsAt _ (at_end kept b cut parts kept_end later not_long not_short) =
      let (segments, folded, valid', sorted) = deleted kept b cut [] parts in
      (
        segments,
        ap (λ l. fold_commands t l w lookup) (sym (append-nil (deletes cut))) ∙ folded,
        record {
          kept = kept;
          spanning = b;
          cut = cut;
          last = b;
          before = parts;
          after = sorted;
          same_start = refl;
          kept_end = kept_end;
          not_short = not_short;
          not_long = not_long;
        },
      )
  fold_commands-EndsAt _
        (inside kept b cut from to parts kept_end later starts shorter from_is ends) =
      let (segments, folded, valid', sorted) =
        deleted kept b cut (trim_segment b.id from to ∷ []) parts in
      let (long_enough, within) = trim_bounds target from to b ends starts shorter in
      let from_nonneg : pos 0 ≤ℤ from =
        subst (λ x. pos 0 ≤ℤ x) (sym from_is)
          (trim_start-nonneg b
            (of_spanning (λ s. check_segment s ≡ true) (check_each-All t.segments checked))) in
      let source = of_spanning (HasSource w lookup) sources in
      let fits : exceeds source.source to ≡ false =
        exceeds-shorter source.source to (or_zero b.trim_start_seconds +ℤ b.duration_seconds)
          (subst (λ x. to ≤ℤ x +ℤ b.duration_seconds) from_is within) source.long_enough in
      let accepted =
        trim_last w lookup (record t { segments = segments }) kept b valid' sorted from to
          from_nonneg long_enough source.source source.read fits in
      (
        update_id b.id (trimmed from to) segments,
        folded ∙ rw accepted refl,
        record {
          kept = kept;
          spanning = b;
          cut = cut;
          last = trimmed from to b;
          before = parts;
          after =
              sort_by-trimmed w lookup (record t { segments = segments }) kept b valid' sorted from
                to from_nonneg long_enough;
          same_start = trimmed-start from to b;
          kept_end = kept_end;
          not_short = subst (λ x. target ≤ℤ x +ℤ tick) (sym ends) (omega int_laws);
          not_long = subst (λ x. x ≤ℤ target +ℤ tick) (sym ends) (omega int_laws);
        },
      )
    where
      of_spanning : (P : MediaSegment → Type 0) → All P t.segments → P b
      of_spanning P h =
          All-middle P kept b cut (subst (All P) parts (All-sort_by start_of P t.segments h))

      checked : check_each t.segments ≡ true
      checked = validated-each t valid

apply_batch-finish :
    (commands : List EditorCommand) (h : EditorHistory)
    → has_commands commands ≡ true
    → apply_batch commands h
      ≡ finish h (fold_commands h.present commands h.workspace_id h.asset_lookup)
unfolding apply_batch
apply_batch-finish [] h e = cc
apply_batch-finish (c ∷ commands) h e = refl

build_shorten_proposal-ordered :
    (h : EditorHistory) (target tolerance : ℤ) (p : CommandProposal)
    → build_shorten_proposal h (finite target) (finite tolerance) ≡ ok p
    → shorten_ordered h.generation target tolerance (sort_by start_of h.present.segments) ≡ ok p
unfolding build_shorten_proposal capture
build_shorten_proposal-ordered h target tolerance p built =
    let (positive, e₂) =
      reject-returns (leb_ℤ target (pos 0))
        (validation (text "shorten target must be a positive duration")) _ built in
    let (tolerant, e₃) =
      reject-returns (ltb_ℤ tolerance (pos 0))
        (validation (text "shorten tolerance must not be negative")) _ e₂ in
    let (longer, e₄) =
      reject-returns (leb_ℤ (total_duration_seconds h.present.segments) (target +ℤ tolerance))
        (validation (text "timeline is already within the target duration; nothing to shorten")) _
        e₃ in
    e₄

-- A proposal to shorten is accepted and shortens: on a valid timeline whose segments are all longer than
-- 1e-9 s and play within the sources that are found for them, where a segment spans the target, applying
-- what `build_shorten_proposal` returns to the same history returns a timeline and records it. Its
-- segments are those that end before the target, as they were, and one that starts where the spanning
-- segment starts and ends at the target, up to 1e-9 s.
pub apply_ai_proposal-shortens :
    (h : EditorHistory) (target tolerance : ℤ) (p : CommandProposal) (i : ℕ)
    → model_validate h.present ≡ ok h.present
    → All Lasts h.present.segments
    → All (HasSource h.workspace_id h.asset_lookup) h.present.segments
    → find_boundary_index (sort_by start_of h.present.segments) target ≡ some i
    → build_shorten_proposal h (finite target) (finite tolerance) ≡ ok p
    → (segments : Segments) × (apply_ai_proposal h p ≡ (
      ok (record h.present { segments = segments }),
      accept h (record h.present { segments = segments }),
    ))
      × EndsAt target (sort_by start_of h.present.segments) segments
unfolding apply_ai_proposal apply_batch_if_generation
apply_ai_proposal-shortens h target tolerance p i valid lasts sources found built =
    let ordered = sort_by start_of h.present.segments in
    let cut =
      cut_found h.generation target tolerance ordered p i found
        (build_shorten_proposal-ordered h target tolerance p built) in
    let (revision, commands, not_empty) =
      cut_at-CutAt h.generation target ordered p (sort_by-IsSorted start_of h.present.segments) i
        (find_boundary_index-Boundary target ordered i found) cut in
    let (segments, folded, ends) =
      fold_commands-EndsAt h.workspace_id h.asset_lookup h.present target valid lasts sources
        p.commands commands in
    (
      segments,
      rw
          (
            (==_iff p.base_revision h.generation).1 revision,
            apply_batch-finish p.commands h not_empty,
            folded,
          )
          refl,
      ends,
    )
