-- ===== src/Timeline/Valid.antt =====
-- What `model_validate` guarantees of a timeline.
use short_form_studio.Prelude.{
  ◌≤◌, String, ◌≡◌, ◌≢◌, refl, Bool, true, false, ◌&&◌, Option, none, some, List, [], ◌∷◌, inl, inr,
  arith, eq_iff, Bool-cases, All, AllPairs, All-mono,
}
use short_form_studio.Prelude.Int.{ℤ, pos, ◌≤ℤ◌, ◌<ℤ◌}
use short_form_studio.Prelude.Checked.{ok}
use short_form_studio.Timeline.Intervals.{sort_by, overlap_free, Disjoint}
use short_form_studio.Timeline.Sorting.{AllPairs-of_overlap_free}
use short_form_studio.Timeline.Segment.{
  MediaSegment, Timeline, start_of, duration_of, trims_ordered, check_segment, check_each, contains,
  distinct_ids, check_segments, model_validate,
}

-- the trims of a segment: each at least 0, and in order
abbrev pub TrimsInOrder : Option ℤ → Option ℤ → Type 0
TrimsInOrder (some a) (some b) = a ≤ℤ b
TrimsInOrder _ _ = Unit

pub record IsPlaced (s : MediaSegment) : Type 0 where
  pub has_asset : 1 ≤ s.asset_id
  pub starts : pos 0 ≤ℤ s.timeline_start_seconds
  pub lasts : pos 0 <ℤ s.duration_seconds
  pub trimmed : TrimsInOrder s.trim_start_seconds s.trim_end_seconds

abbrev pub DifferentIds : MediaSegment → MediaSegment → Type 0
DifferentIds a b = a.id ≢ b.id

-- every segment is placed, no two share an id, and no two overlap beyond the tolerance
pub record IsValid (segments : List MediaSegment) : Type 0 where
  pub placed : All IsPlaced segments
  pub distinct : AllPairs DifferentIds segments
  pub disjoint : AllPairs (Disjoint start_of duration_of) segments

trims_ordered→TrimsInOrder : (a b : Option ℤ) → trims_ordered a b ≡ true → TrimsInOrder a b
unfolding trims_ordered
trims_ordered→TrimsInOrder (some a) (some b) h = ground arith
trims_ordered→TrimsInOrder (some a) none h = tt
trims_ordered→TrimsInOrder none b h = tt

pub and_true : (a b : Bool) → (a && b) ≡ true → (a ≡ true) × (b ≡ true)
and_true true b h = (refl, h)
and_true false b h = cc

check_segment-IsPlaced : (s : MediaSegment) → check_segment s ≡ true → IsPlaced s
unfolding check_segment
check_segment-IsPlaced s h = record {
  has_asset = ground arith;
  starts = ground arith;
  lasts = ground arith;
  trimmed = trims_ordered→TrimsInOrder _ _ (ground arith);
}

pub check_each-All :
    (segments : List MediaSegment)
    → check_each segments ≡ true
    → All (λ s. check_segment s ≡ true) segments
unfolding check_each
check_each-All [] h = tt
check_each-All (s ∷ rest) h =
    let both = and_true (check_segment s) (check_each rest) h in
    (both.0, check_each-All rest both.1)

abbrev Unseen : List String → MediaSegment → Type 0
Unseen seen s = contains s.id seen ≡ false

contains-cons :
    (x y : String) (seen : List String)
    → contains x (y ∷ seen) ≡ false
    → (y ≢ x) × (contains x seen ≡ false)
unfolding contains
contains-cons x y seen h = (λ e. ground (arith, eq_iff x y, e), ground arith)

distinct_ids-AllPairs :
    (seen : List String) (segments : List MediaSegment)
    → distinct_ids seen segments ≡ true
    → All (Unseen seen) segments × AllPairs DifferentIds segments
unfolding distinct_ids
distinct_ids-AllPairs seen [] h = (tt, tt)
distinct_ids-AllPairs seen (s ∷ rest) h = elim (Bool-cases (contains s.id seen)) [
  | inl e ↦ let h' : false ≡ true = rw e at h in cc
  | inr e ↦
      let h' : distinct_ids (s.id ∷ seen) rest ≡ true = rw e at h in
      let ih = distinct_ids-AllPairs (s.id ∷ seen) rest h' in
      let split =
        λ (b : MediaSegment) (u : Unseen (s.id ∷ seen) b). contains-cons b.id s.id seen u in
      (
        (e, All-mono (Unseen (s.id ∷ seen)) (Unseen seen) rest (λ b u. (split b u).1) ih.0),
        (All-mono (Unseen (s.id ∷ seen)) (DifferentIds s) rest (λ b u. (split b u).0) ih.0, ih.1),
      )
]

check_segments-IsValid :
    (segments : List MediaSegment)
    → check_each segments ≡ true
    → check_segments segments ≡ true
    → IsValid segments
unfolding check_segments
check_segments-IsValid segments each all =
    let sorted = sort_by start_of segments in
    let both =
      and_true (distinct_ids [] segments) (overlap_free start_of duration_of (pos 0) sorted) all in
    record {
      placed =
          All-mono (λ s. check_segment s ≡ true) IsPlaced segments check_segment-IsPlaced
            (check_each-All segments each);
      distinct = (distinct_ids-AllPairs [] segments both.0).1;
      disjoint = AllPairs-of_overlap_free start_of duration_of (pos 0) segments both.1;
    }

-- A timeline that `model_validate` accepts is returned as it is. Each of its segments has an
-- asset, starts at 0 or later, has a positive duration and ordered trims; no two segments share an
-- id; and of any two segments, in whatever order they stand, one ends before the other starts, up
-- to a tolerance of 1e-9 s.
pub model_validate-IsValid :
    (t u : Timeline) → model_validate t ≡ ok u → (u ≡ t) × IsValid u.segments
unfolding model_validate
model_validate-IsValid t u h =
    let same : u ≡ t = ground arith in
    (same, rw same (check_segments-IsValid t.segments (ground arith) (ground arith)))
