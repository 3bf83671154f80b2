-- ===== src/Proposals/Gaps.antt =====
-- packages/creator-service/creator_service/shorten_proposal.py: what a proposal deletes where the target
-- falls in a gap, and the proposal as a whole.
use short_form_studio.Prelude.{
  ℕ, String, ◌≡◌, refl, sym, subst, subst₂, ◌∙◌, Bool, true, false, ◌||◌, Option, none, some, List,
  [], ◌∷◌, ◌⊎◌, inl, inr, Bool-cases, All, AllPairs, str_eq, eq_refl,
}
use short_form_studio.Prelude.Int.{
  ℤ, pos, ◌+ℤ◌, ◌-ℤ◌, ◌≤ℤ◌, ◌<ℤ◌, ltb_ℤ, leb_ℤ→lt, ltb_ℤ→le, int_laws,
}
use short_form_studio.Prelude.Checked.{ok, bind-returns, reject-returns}
use short_form_studio.Timeline.Intervals.{tick, sort_by}
use short_form_studio.Timeline.Sorting.{StartsLe, sort_by-IsSorted}
use short_form_studio.Timeline.Segment.{start_of, contains, total_duration_seconds}
use short_form_studio.Editor.Segments.{Segments, end_of}
use short_form_studio.Editor.History.Defs.{EditorHistory, capture}
use short_form_studio.Proposals.Proposal.{CommandProposal}
use short_form_studio.Proposals.Cuts.{
  Shortened, at_gap, at_cut, made-returns, command_proposal-returns, cut_at-CutAt,
}
use short_form_studio.Proposals.Spanning.{find_boundary_index-Boundary, not_spans-after}
use short_form_studio.Proposals.Shorten.{
  Seconds, finite, not_finite, spans, one_later, find_boundary_index, cut_at, ending_before, ids_of,
  not_in, closest_end, shorten_to, shorten_at_gap, at_boundary, at_index, shorten_ordered,
  build_shorten_proposal,
}

find_none-All :
    (target : ℤ) (ordered : Segments)
    → find_boundary_index ordered target ≡ none
    → All (λ s. spans target s ≡ false) ordered
unfolding find_boundary_index
find_none-All target [] h = tt
find_none-All target (s ∷ rest) h = elim (Bool-cases (spans target s)) [
  | inl e ↦ let h' = rw e at h in cc
  | inr e ↦ (e, find_none-All target rest (later (find_boundary_index rest target) (rw e at h)))
]
  where
    later : (m : Option ℕ) → one_later m ≡ none → m ≡ none
    later none g = refl
    later (some j) g = cc

-- Each segment has its id among the kept, or does not end before the target.
kept_or_later :
    (target : ℤ) (kept : List String) (xs : Segments)
    → ((x : String) → contains x (ids_of (ending_before target xs)) ≡ true → contains x kept ≡ true)
    → All (λ s. (contains s.id kept ≡ true) ⊎ (ltb_ℤ (end_of s) target ≡ false)) xs
unfolding ending_before ids_of contains
kept_or_later target kept [] f = tt
kept_or_later target kept (s ∷ rest) f = elim (Bool-cases (ltb_ℤ (end_of s) target)) [
  | inl e ↦ (
    inl (f s.id (rw (e, eq_refl s.id) refl)),
    kept_or_later target kept rest λ x h.
        f x (rw e (or_right (str_eq x s.id) (contains x (ids_of (ending_before target rest))) h)),
  )
  | inr e ↦ (inr e, kept_or_later target kept rest λ x h. f x (rw e h))
]
  where
    or_right : (a b : Bool) → b ≡ true → (a || b) ≡ true
    or_right true b h = refl
    or_right false b h = h

not_in-All :
    (target : ℤ) (kept : List String) (xs : Segments)
    → All (λ s. (contains s.id kept ≡ true) ⊎ (ltb_ℤ (end_of s) target ≡ false)) xs
    → All (λ s. spans target s ≡ false) xs
    → All (λ s. target ≤ℤ s.timeline_start_seconds) (not_in kept xs)
unfolding not_in
not_in-All target kept [] h g = tt
not_in-All target kept (s ∷ rest) h g = elim (Bool-cases (contains s.id kept)) [
  | inl e ↦ rw e (not_in-All target kept rest h.1 g.1)
  | inr e ↦ rw e (ends e h.0, not_in-All target kept rest h.1 g.1)
]
  where
    ends :
        contains s.id kept ≡ false
        → (contains s.id kept ≡ true) ⊎ (ltb_ℤ (end_of s) target ≡ false)
        → target ≤ℤ s.timeline_start_seconds
    ends e (inl k) = cc
    ends e (inr later) = not_spans-after target s later g.0

module _ (g : ℕ) (target tolerance : ℤ) (ordered : Segments) (p : CommandProposal) where
  at_gap-Shortened :
      All (λ s. spans target s ≡ false) ordered
      → shorten_at_gap g target tolerance ordered ≡ ok p
      → (p.base_revision ≡ g) × Shortened target tolerance ordered p.commands
  unfolding shorten_at_gap
  at_gap-Shortened none_spans h = by_kept (ending_before target ordered) refl h
    where
      by_kept :
          (kept : Segments)
          → ending_before target ordered ≡ kept
          → shorten_to g target tolerance ordered kept ≡ ok p
          → (p.base_revision ≡ g) × Shortened target tolerance ordered p.commands
      by_kept [] e h = cc
      by_kept (s ∷ rest) e h =
          let (near, h₁) =
            reject-returns (ltb_ℤ (tolerance +ℤ tick) (target -ℤ closest_end s rest)) _ _ h in
          let (deletes, deletes_ok, h₂) = bind-returns _ _ h₁ in
          let (revision, commands, not_empty) = command_proposal-returns g deletes p h₂ in
          (
            revision,
            subst (Shortened target tolerance ordered)
                (sym (commands ∙ made-returns _ deletes deletes_ok))
                (at_gap s rest e
                  (not_in-All target (ids_of (s ∷ rest)) ordered
                    (kept_or_later target (ids_of (s ∷ rest)) ordered
                      (λ x h. subst (λ l. contains x (ids_of l) ≡ true) e h))
                    none_spans)
                  (omega
                    (int_laws, ltb_ℤ→le (tolerance +ℤ tick) (target -ℤ closest_end s rest) near))),
          )

  pub cut_found :
      (i : ℕ) (e : find_boundary_index ordered target ≡ some i)
      → shorten_ordered g target tolerance ordered ≡ ok p
      → let b = find_boundary_index-Boundary target ordered i e in
        cut_at g target b.boundary b.cut ≡ ok p
  unfolding shorten_ordered
  cut_found i e h =
      let b = find_boundary_index-Boundary target ordered i e in
      let h' : at_index g target tolerance ordered (some i) ≡ ok p =
        subst (λ m. at_index g target tolerance ordered m ≡ ok p) e h in
      subst₂ (λ m l. at_boundary g target tolerance ordered m l ≡ ok p) b.at b.rest h'

  shorten_ordered-Shortened :
      AllPairs (StartsLe start_of) ordered
      → shorten_ordered g target tolerance ordered ≡ ok p
      → (p.base_revision ≡ g) × Shortened target tolerance ordered p.commands
  unfolding shorten_ordered
  shorten_ordered-Shortened sorted full = by_index (find_boundary_index ordered target) refl full
    where
      by_index :
          (m : Option ℕ)
          → find_boundary_index ordered target ≡ m
          → at_index g target tolerance ordered m ≡ ok p
          → (p.base_revision ≡ g) × Shortened target tolerance ordered p.commands
      by_index none e h = at_gap-Shortened (find_none-All target ordered e) h
      by_index (some i) e h =
          let b = find_boundary_index-Boundary target ordered i e in
          let (revision, cut, not_empty) =
            cut_at-CutAt g target ordered p sorted i b (cut_found i e full) in
          (revision, at_cut p.commands cut)

-- Where `build_shorten_proposal` returns a proposal, the target and the tolerance are numbers, the
-- target is positive and the timeline is longer than both together; the proposal is for the history's
-- generation, and of the segments in the order of their starts: either all that end before the target
-- are kept, all after the one that spans it are deleted, last first, and that one is left whole, where
-- it ends at the target within 1e-9 s, or trimmed from its own trim start so that it ends at the target;
-- or no segment spans the target, those that end before it are kept, the last of them no further from
-- it than the tolerance and 1e-9 s, and the others, which all start at the target or later, are deleted.
pub build_shorten_proposal-Shortened :
    (h : EditorHistory) (target_seconds tolerance_seconds : Seconds) (p : CommandProposal)
    → build_shorten_proposal h target_seconds tolerance_seconds ≡ ok p
    → (target : ℤ) × (tolerance : ℤ) × (target_seconds ≡ finite target)
      × (tolerance_seconds ≡ finite tolerance)
      × (pos 0 <ℤ target)
      × (target +ℤ tolerance <ℤ total_duration_seconds h.present.segments)
      × (p.base_revision ≡ h.generation)
      × Shortened target tolerance (sort_by start_of h.present.segments) p.commands
unfolding build_shorten_proposal capture
build_shorten_proposal-Shortened h (finite target) (finite tolerance) p e =
    let (positive, e₁) = reject-returns _ _ _ e in
    let (tolerant, e₂) = reject-returns _ _ _ e₁ in
    let (longer, e₃) = reject-returns _ _ _ e₂ in
    let (revision, shortened) =
      shorten_ordered-Shortened h.generation target tolerance (sort_by start_of h.present.segments)
        p (sort_by-IsSorted start_of h.present.segments) e₃ in
    (
      target,
      tolerance,
      refl,
      refl,
      leb_ℤ→lt target (pos 0) positive,
      leb_ℤ→lt (total_duration_seconds h.present.segments) (target +ℤ tolerance) longer,
      revision,
      shortened,
    )
build_shorten_proposal-Shortened h not_finite tolerance_seconds p e = cc
build_shorten_proposal-Shortened h (finite target) not_finite p e = cc
