-- ===== src/Proposals/Applied.antt =====
-- packages/creator-service/creator_service/shorten_proposal.py and validate_ai_proposal.py: what the
-- deletions of a proposal do to a valid timeline.
use short_form_studio.Prelude.{
  ℕ, ◌≡◌, refl, sym, subst, ◌∙◌, ap, false, List, [], ◌∷◌, ◌++◌, map, ◌⊎◌, inl, inr, arith, ==_iff,
  eq_refl, All, AllPairs, append_assoc, append-nil,
}
use short_form_studio.Prelude.Int.{ℤ, ◌<ℤ◌, leb_ℤ, int_laws}
use short_form_studio.Prelude.Checked.{ok}
use short_form_studio.Timeline.Intervals.{tick, sort_by, Disjoint}
use short_form_studio.Timeline.Sorting.{
  StartsLe, sort_by-IsSorted, AllPairs-sort_by, All-sort_by, sort_by-All,
}
use short_form_studio.Timeline.Segment.{
  MediaSegment, Timeline, start_of, duration_of, model_validate,
}
use short_form_studio.Timeline.Valid.{DifferentIds, model_validate-IsValid}
use short_form_studio.Editor.Command.{EditorCommand, delete_segment, ripple}
use short_form_studio.Editor.Assets.{EditorAssetLookup}
use short_form_studio.Editor.Segments.{Segments, find_segment}
use short_form_studio.Editor.Found.{str_eq_of_ne}
use short_form_studio.Editor.Cut.{without_id, close_gap, apply_delete}
use short_form_studio.Editor.Removal.{All-without_id, sort_by-without_id, model_validate-without_id}
use short_form_studio.Editor.Apply.{edit_segments, apply_editor_command}
use short_form_studio.Editor.History.Defs.{fold_commands}
use short_form_studio.Proposals.Shorten.{reversed}
use short_form_studio.Proposals.Spanning.{All-both, All-middle, AllPairs-middle}

-- longer than the tolerance of the overlap check
abbrev pub Lasts : MediaSegment → Type 0
Lasts s = tick <ℤ s.duration_seconds

abbrev DifferentStarts : MediaSegment → MediaSegment → Type 0
DifferentStarts a b = (start_of a <ℤ start_of b) ⊎ (start_of b <ℤ start_of a)

DifferentStarts-sym : (a b : MediaSegment) → DifferentStarts a b → DifferentStarts b a
DifferentStarts-sym a b (inl h) = inr h
DifferentStarts-sym a b (inr h) = inl h

DifferentIds-sym : (a b : MediaSegment) → DifferentIds a b → DifferentIds b a
DifferentIds-sym a b h e = h (sym e)

Disjoint-DifferentStarts :
    (a b : MediaSegment)
    → Lasts a
    → Lasts b
    → Disjoint start_of duration_of a b
    → DifferentStarts a b
Disjoint-DifferentStarts a b la lb (inl h) = inl (omega (int_laws, la, h))
Disjoint-DifferentStarts a b la lb (inr h) = inr (omega (int_laws, lb, h))

starts_differ :
    (xs : Segments)
    → All Lasts xs
    → AllPairs (Disjoint start_of duration_of) xs
    → AllPairs DifferentStarts xs
starts_differ [] l h = tt
starts_differ (x ∷ xs) l h = (
  All-both Lasts (Disjoint start_of duration_of x) (DifferentStarts x) xs
      (λ b lb d. Disjoint-DifferentStarts x b l.0 lb d) l.1 h.0,
  starts_differ xs l.1 h.1,
)

find_segment-each :
    (xs : Segments) → AllPairs DifferentIds xs → All (λ s. find_segment xs s.id ≡ ok s) xs
unfolding find_segment
find_segment-each [] h = tt
find_segment-each (x ∷ xs) h = (
  rw (eq_refl x.id) refl,
  All-both (DifferentIds x) (λ s. find_segment xs s.id ≡ ok s)
      (λ s. find_segment (x ∷ xs) s.id ≡ ok s) xs
      (λ s ne found. rw (str_eq_of_ne x.id s.id ne) found) h.0 (find_segment-each xs h.1),
)

without_id-last :
    (x : MediaSegment) (kept : Segments)
    → All (λ s. DifferentIds s x) kept
    → without_id x.id (kept ++ x ∷ []) ≡ kept
unfolding without_id
without_id-last x [] h = rw (eq_refl x.id) refl
without_id-last x (s ∷ kept) h = rw (str_eq_of_ne s.id x.id h.0, without_id-last x kept h.1) refl

close_gap-last :
    (x : MediaSegment) (xs : Segments)
    → All (λ s. start_of s <ℤ start_of x) xs
    → close_gap x xs ≡ xs
unfolding close_gap
close_gap-last x [] h = refl
close_gap-last x (s ∷ xs) h =
    rw (lt→not_leb_ℤ (start_of x) (start_of s) h.0, close_gap-last x xs h.1) refl
  where
    lt→not_leb_ℤ : (a b : ℤ) → b <ℤ a → leb_ℤ a b ≡ false
    lt→not_leb_ℤ a b h = ground arith

-- the last segment of a valid timeline, in the order of the starts
module _ (t : Timeline) (kept : Segments) (x : MediaSegment) (valid : model_validate t ≡ ok t)
    (parts : sort_by start_of t.segments ≡ kept ++ x ∷ []) where
  ids : AllPairs DifferentIds t.segments
  ids = (model_validate-IsValid t t valid).1.distinct

  before_last :
      (R : MediaSegment → MediaSegment → Type 0)
      → AllPairs R (sort_by start_of t.segments)
      → All (λ s. R s x) kept
  before_last R h = (AllPairs-middle R kept x [] (subst (AllPairs R) parts h)).0

  pub last_different : All (λ s. DifferentIds s x) kept
  last_different =
      before_last DifferentIds
        (AllPairs-sort_by start_of DifferentIds DifferentIds-sym t.segments ids)

  pub last_found : find_segment t.segments x.id ≡ ok x
  last_found =
      All-middle (λ s. find_segment t.segments s.id ≡ ok s) kept x []
        (subst (All (λ s. find_segment t.segments s.id ≡ ok s)) parts (
          All-sort_by start_of (λ s. find_segment t.segments s.id ≡ ok s) t.segments
            (find_segment-each t.segments ids)))

module _ (w : ℕ) (lookup : EditorAssetLookup) where
  -- the deletion of the last segment of a timeline moves no other
  delete_last :
      (t : Timeline) (kept : Segments) (x : MediaSegment)
      → model_validate t ≡ ok t
      → All Lasts t.segments
      → sort_by start_of t.segments ≡ kept ++ x ∷ []
      → (apply_editor_command t (delete_segment x.id ripple) w t.revision lookup
          ≡ ok (record t { segments = without_id x.id t.segments }))
        × (sort_by start_of (without_id x.id t.segments) ≡ kept)
  unfolding apply_editor_command edit_segments apply_delete
  delete_last t kept x valid lasts parts = (
    rw
        (
          (==_iff t.revision t.revision).1 refl,
          last_found t kept x valid parts,
          close_gap-last x (without_id x.id t.segments) earlier,
        )
        (model_validate-without_id x.id t valid),
    sorted,
  )
    where
      starts : AllPairs DifferentStarts t.segments
      starts = starts_differ t.segments lasts (model_validate-IsValid t t valid).1.disjoint

      sorted : sort_by start_of (without_id x.id t.segments) ≡ kept
      sorted =
          sort_by-without_id x.id t.segments
          ∙ ap (without_id x.id) parts
          ∙ without_id-last x kept (last_different t kept x valid parts)

      earlier : All (λ s. start_of s <ℤ start_of x) (without_id x.id t.segments)
      earlier =
          sort_by-All start_of (λ s. start_of s <ℤ start_of x) (without_id x.id t.segments)
            (subst (All (λ s. start_of s <ℤ start_of x)) (sym sorted) (
              All-both (λ s. StartsLe start_of s x) (λ s. DifferentStarts s x)
                (λ s. start_of s <ℤ start_of x) kept strictly
                (before_last t kept x valid parts (StartsLe start_of)
                  (sort_by-IsSorted start_of t.segments))
                (before_last t kept x valid parts DifferentStarts (
                  AllPairs-sort_by start_of DifferentStarts DifferentStarts-sym t.segments
                    starts))))
        where
          strictly :
              (s : MediaSegment)
              → StartsLe start_of s x
              → DifferentStarts s x
              → start_of s <ℤ start_of x
          strictly s le (inl lt) = lt
          strictly s le (inr gt) = omega (arith, le, gt)

  -- So do the deletions of the last segments, from the last one on; what follows them meets the others.
  pub delete_each :
      (cut kept : Segments) (more : List EditorCommand) (t : Timeline)
      → model_validate t ≡ ok t
      → All Lasts t.segments
      → sort_by start_of t.segments ≡ kept ++ reversed cut
      → (segments : Segments) × (fold_commands t
            (map (λ s. delete_segment s.id ripple) cut ++ more)
            w
            lookup
          ≡ fold_commands (record t { segments = segments }) more w lookup)
        × (model_validate (record t { segments = segments })
            ≡ ok (record t { segments = segments }))
        × (sort_by start_of segments ≡ kept)
  unfolding fold_commands reversed
  delete_each [] kept more t valid lasts parts = (t.segments, refl, valid, parts ∙ append-nil kept)
  delete_each (x ∷ cut) kept more t valid lasts parts =
      let (deleted, left) =
        delete_last t (kept ++ reversed cut) x valid lasts
          (parts ∙ sym (append_assoc kept (reversed cut) (x ∷ []))) in
      let (segments, rest, valid', sorted) =
        delete_each cut kept more (record t { segments = without_id x.id t.segments })
          (model_validate-without_id x.id t valid) (All-without_id x.id Lasts t.segments lasts)
          left in
      (segments, rw deleted rest, valid', sorted)

reversed-append : (xs : Segments) (x : MediaSegment) → reversed (xs ++ x ∷ []) ≡ x ∷ reversed xs
unfolding reversed
reversed-append [] x = refl
reversed-append (y ∷ xs) x = rw (reversed-append xs x) refl

pub reversed-reversed : (xs : Segments) → reversed (reversed xs) ≡ xs
unfolding reversed
reversed-reversed [] = refl
reversed-reversed (x ∷ xs) = rw (reversed-append (reversed xs) x, reversed-reversed xs) refl
