-- ===== src/Proposals/Cuts.antt =====
-- packages/creator-service/creator_service/shorten_proposal.py: what a proposal keeps, trims and deletes.
use short_form_studio.Prelude.{
  ℕ, ◌≡◌, refl, sym, subst, ◌∙◌, ap, true, false, List, [], ◌∷◌, ◌++◌, map, inl, inr, Bool-cases,
  All, AllPairs, append-nil,
}
use short_form_studio.Prelude.Int.{
  ℤ, ◌+ℤ◌, ◌-ℤ◌, ◌≤ℤ◌, ◌<ℤ◌, leb_ℤ, ltb_ℤ, ltb_ℤ→lt, ltb_ℤ→le, int_laws, eq_of_parts,
}
use short_form_studio.Prelude.Checked.{
  Result, ok, reject, ◌>>◌, bind-returns, require-returns, reject-returns, ok-injective,
}
use short_form_studio.Errors.{Error}
use short_form_studio.Timeline.Intervals.{tick}
use short_form_studio.Timeline.Sorting.{StartsLe}
use short_form_studio.Timeline.Segment.{MediaSegment, start_of}
use short_form_studio.Editor.Command.{EditorCommand, delete_segment, trim_segment, ripple}
use short_form_studio.Editor.Segments.{Segments, or_zero, end_of}
use short_form_studio.Editor.Cut.{trimmed}
use short_form_studio.Proposals.Proposal.{CommandProposal, has_commands, command_proposal, made}
use short_form_studio.Proposals.Shorten.{
  min_segment, spans, reversed, delete_ripple, needs_trim, without_opening, trim_to, trim_commands,
  cut_at, ending_before, ids_of, not_in, closest_end,
}
use short_form_studio.Proposals.Spanning.{
  All-both, AllPairs-middle, spans-parts, not_spans-before, Boundary,
}

-- the deletions of some segments, last first
abbrev pub deletes : Segments → List EditorCommand
deletes segments = map (λ s. delete_segment s.id ripple) (reversed segments)

-- What the commands do to the segments in the order of their starts, where one spans the target.
pub data CutAt (target : ℤ) (ordered : Segments) : List EditorCommand → Type 0 where
  at_end :
      (kept : Segments) (boundary : MediaSegment) (cut : Segments)
      → ordered ≡ kept ++ boundary ∷ cut
      → All (λ s. end_of s +ℤ tick <ℤ target) kept
      → All (StartsLe start_of boundary) cut
      → end_of boundary ≤ℤ target +ℤ tick
      → target ≤ℤ end_of boundary +ℤ tick
      → CutAt target ordered (deletes cut)
  inside :
      (kept : Segments) (boundary : MediaSegment) (cut : Segments) (from to : ℤ)
      → ordered ≡ kept ++ boundary ∷ cut
      → All (λ s. end_of s +ℤ tick <ℤ target) kept
      → All (StartsLe start_of boundary) cut
      → boundary.timeline_start_seconds <ℤ target
      → target <ℤ end_of boundary
      → from ≡ or_zero boundary.trim_start_seconds
      → end_of (trimmed from to boundary) ≡ target
      → CutAt target ordered (deletes cut ++ trim_segment boundary.id from to ∷ [])

-- What the commands do to the segments in the order of their starts.
pub data Shortened (target tolerance : ℤ) (ordered : Segments) : List EditorCommand → Type 0 where
  at_cut :
      (commands : List EditorCommand)
      → CutAt target ordered commands
      → Shortened target tolerance ordered commands
  at_gap :
      (first : MediaSegment) (kept : Segments)
      → ending_before target ordered ≡ first ∷ kept
      → All (λ s. target ≤ℤ s.timeline_start_seconds) (not_in (ids_of (first ∷ kept)) ordered)
      → target ≤ℤ closest_end first kept +ℤ tolerance +ℤ tick
      → Shortened target tolerance ordered (deletes (not_in (ids_of (first ∷ kept)) ordered))

-- the trim makes the boundary segment end at the target
trimmed-end :
    (target from : ℤ) (s : MediaSegment)
    → end_of (trimmed from (from +ℤ (target -ℤ s.timeline_start_seconds)) s) ≡ target
unfolding trimmed
trimmed-end target from s =
    eq_of_parts (s.timeline_start_seconds +ℤ (from +ℤ (target -ℤ s.timeline_start_seconds) -ℤ from))
      target (omega int_laws)

pub made-returns :
    (commands result : List EditorCommand) → made commands ≡ ok result → result ≡ commands
unfolding made
made-returns commands result h =
    let (checked, e) = require-returns _ _ _ h in sym (ok-injective commands result e)

pub command_proposal-returns :
    (g : ℕ) (commands : List EditorCommand) (p : CommandProposal)
    → command_proposal g commands ≡ ok p
    → (p.base_revision ≡ g) × (p.commands ≡ commands) × (has_commands p.commands ≡ true)
unfolding command_proposal
command_proposal-returns g commands p h =
    let (some_command, e) = require-returns _ _ _ h in
    let same = ok-injective _ p e in
    (
      sym (ap (λ q. q.base_revision) same),
      sym (ap (λ q. q.commands) same),
      subst (λ q. has_commands q.commands ≡ true) same some_command,
    )

module _ (g : ℕ) (target : ℤ) (ordered : Segments) (p : CommandProposal)
    (sorted : AllPairs (StartsLe start_of) ordered) where
  pub cut_at-CutAt :
      (i : ℕ) (b : Boundary target ordered i)
      → cut_at g target b.boundary b.cut ≡ ok p
      → (p.base_revision ≡ g) × CutAt target ordered p.commands × (has_commands p.commands ≡ true)
  unfolding cut_at
  cut_at-CutAt i b h =
      let (deletes, deletes_ok, h₁) = bind-returns _ _ h in
      let (trims, trims_ok, h₂) = bind-returns _ _ h₁ in
      let (some_command, h₃) = reject-returns _ _ _ h₂ in
      let (revision, commands, not_empty) = command_proposal-returns g (deletes ++ trims) p h₃ in
      (
        revision,
        subst (CutAt target ordered)
            (sym (
              commands
              ∙ ap (λ d. d ++ trims)
                  (made-returns (map delete_ripple (reversed b.cut)) deletes deletes_ok)))
            (by_trim trims trims_ok),
        not_empty,
      )
    where
      k : ℤ
      k = target -ℤ b.boundary.timeline_start_seconds

      spanned :
          (b.boundary.timeline_start_seconds <ℤ target) × (target ≤ℤ end_of b.boundary +ℤ tick)
      spanned = spans-parts target b.boundary b.spanned

      order :
          All (λ s. StartsLe start_of s b.boundary) b.kept
          × All (StartsLe start_of b.boundary) b.cut
      order =
          AllPairs-middle (StartsLe start_of) b.kept b.boundary b.cut
            (subst (AllPairs (StartsLe start_of)) b.parts sorted)

      before : All (λ s. end_of s +ℤ tick <ℤ target) b.kept
      before =
          All-both (λ s. StartsLe start_of s b.boundary) (λ s. spans target s ≡ false)
            (λ s. end_of s +ℤ tick <ℤ target) b.kept
            (λ a le no. not_spans-before target a (omega (int_laws, le, spanned.0)) no) order.0
            b.before

      from : ℤ
      from = or_zero b.boundary.trim_start_seconds

      trim_needed :
          ltb_ℤ (k +ℤ tick) b.boundary.duration_seconds ≡ true
          → (trims : List EditorCommand)
          → (reject (leb_ℤ k min_segment) without_opening >> made (trim_to b.boundary k ∷ []))
            ≡ ok trims
          → CutAt target ordered (map delete_ripple (reversed b.cut) ++ trims)
      trim_needed needed trims h =
          let shorter : target <ℤ end_of b.boundary =
            omega (int_laws, ltb_ℤ→lt (k +ℤ tick) b.boundary.duration_seconds needed) in
          let (long_enough, made_ok) =
            reject-returns (leb_ℤ k min_segment) without_opening (made (trim_to b.boundary k ∷ []))
              h in
          subst (λ l. CutAt target ordered (map delete_ripple (reversed b.cut) ++ l))
            (sym (made-returns (trim_to b.boundary k ∷ []) trims made_ok))
            (inside b.kept b.boundary b.cut from (from +ℤ k) b.parts before order.1 spanned.0
              shorter refl (trimmed-end target from b.boundary))

      no_trim :
          (trims : List EditorCommand)
          → needs_trim b.boundary k ≡ false
          → ◌≡◌ {A = Result Error (List EditorCommand)} (ok []) (ok trims)
          → CutAt target ordered (map delete_ripple (reversed b.cut) ++ trims)
      no_trim trims e h =
          subst (λ l. CutAt target ordered (map delete_ripple (reversed b.cut) ++ l))
            (ok-injective [] trims h)
            (subst (CutAt target ordered) (sym (append-nil (map delete_ripple (reversed b.cut)))) (
              at_end b.kept b.boundary b.cut b.parts before order.1
                (omega (int_laws, ltb_ℤ→le (k +ℤ tick) b.boundary.duration_seconds e)) spanned.1))

      by_trim :
          (trims : List EditorCommand)
          → trim_commands b.boundary k ≡ ok trims
          → CutAt target ordered (map delete_ripple (reversed b.cut) ++ trims)
      by_trim trims h = elim (Bool-cases (needs_trim b.boundary k)) [
        | inl e ↦ trim_needed e trims (rw e at h)
        | inr e ↦ no_trim trims e (rw e at h)
      ]
