-- ===== src/Editor/Moves.antt =====
-- What a move does: the moved segment stands at the target index, and the whole timeline is laid out
-- again from 0 with no gap.
use mathlib.Core.List.{Perm, perm_middle}
use mathlib.Core.List.Perm
use short_form_studio.Prelude.{
  ℕ, zero, suc, ◌≤◌, ◌≡◌, refl, sym, ap, ◌∙◌, subst, subst₂, false, String, Option, none, some, [],
  ◌∷◌, ◌++◌, map, arith, AllPairs, leb, length, get_elem?, take, drop, take-append-drop,
  length-append,
}
use short_form_studio.Prelude.Int.{ℤ, pos, ◌+ℤ◌}
use short_form_studio.Prelude.Checked.{ok, bind-returns, reject-returns, ok-injective}
use short_form_studio.Timeline.Segment.{MediaSegment}
use short_form_studio.Timeline.Valid.{DifferentIds}
use short_form_studio.Editor.Segments.{Segments, locate}
use short_form_studio.Editor.Place.{resequence_from, resequence, reorder, apply_move}
use short_form_studio.Editor.Found.{IsAt}
use short_form_studio.Editor.Located.{locate-IsAt, reorder-eq}

-- each segment starts where the one before it ends, the first at `cursor`
abbrev pub IsContiguous : ℤ → Segments → Type 0
IsContiguous cursor [] = Unit
IsContiguous cursor (s ∷ rest) =
    (s.timeline_start_seconds ≡ cursor) × IsContiguous (cursor +ℤ s.duration_seconds) rest

-- a segment but for its place on the timeline
abbrev pub unplaced : MediaSegment → MediaSegment
unplaced s = record s { timeline_start_seconds = pos 0 }

abbrev pub get_id? : Option MediaSegment → Option String
get_id? none = none
get_id? (some s) = some s.id

resequence_from-IsContiguous :
    (cursor : ℤ) (segments : Segments) → IsContiguous cursor (resequence_from cursor segments)
unfolding resequence_from
resequence_from-IsContiguous cursor [] = tt
resequence_from-IsContiguous cursor (s ∷ rest) =
    (refl, resequence_from-IsContiguous (cursor +ℤ s.duration_seconds) rest)

map-resequence_from :
    (cursor : ℤ) (segments : Segments)
    → map unplaced (resequence_from cursor segments) ≡ map unplaced segments
unfolding resequence_from
map-resequence_from cursor [] = refl
map-resequence_from cursor (s ∷ rest) =
    ap (◌∷◌ (unplaced s)) (map-resequence_from (cursor +ℤ s.duration_seconds) rest)

get_id?-resequence_from :
    (cursor : ℤ) (segments : Segments) (i : ℕ)
    → get_id? (get_elem? (resequence_from cursor segments) i) ≡ get_id? (get_elem? segments i)
unfolding resequence_from
get_id?-resequence_from cursor [] i = refl
get_id?-resequence_from cursor (s ∷ rest) zero = refl
get_id?-resequence_from cursor (s ∷ rest) (suc i) =
    get_id?-resequence_from (cursor +ℤ s.duration_seconds) rest i

get_elem?-take :
    (i : ℕ) (xs : Segments) (y : MediaSegment) (zs : Segments)
    → i ≤ length xs
    → get_elem? (take i xs ++ (y ∷ zs)) i ≡ some y
get_elem?-take zero xs y zs h = refl
get_elem?-take (suc i) [] y zs h = elim h [ ]
get_elem?-take (suc i) (x ∷ xs) y zs h = get_elem?-take i xs y zs (omega arith)

put_back-perm :
    (index : ℕ) (before after : Segments) (s : MediaSegment)
    → Perm
        (take index (before ++ after) ++ (s ∷ drop index (before ++ after)))
        (before ++ (s ∷ after))
put_back-perm index before after s =
    let others = before ++ after in
    let back : Perm (s ∷ (take index others ++ drop index others)) (s ∷ others) =
      subst (λ xs. Perm (s ∷ (take index others ++ drop index others)) (s ∷ xs))
        (take-append-drop index others) (Perm.refl _) in
    Perm.trans (perm_middle (take index others) (drop index others))
      (Perm.trans back (Perm.symm (perm_middle before after)))

size_of :
    (segments : Segments) (id : String) (target : MediaSegment) (place : IsAt segments id target)
    → length segments ≡ suc (length (place.before ++ place.after))
size_of segments id target place =
    ap length place.split
    ∙ omega (
      arith,
      length-append place.before (target ∷ place.after),
      length-append place.before place.after,
    )

not_past :
    (segments others : Segments) (index : ℕ)
    → leb (length segments) index ≡ false
    → length segments ≡ suc (length others)
    → index ≤ length others
not_past segments others index h size = ground arith

-- A move that is accepted lays the segments out from 0 with no gap, puts the segment of that id at
-- the target index, and neither adds, drops nor changes a segment, but for its place in time.
pub apply_move_layout :
    (segments : Segments) (id : String) (index : ℕ) (r : Segments)
    → AllPairs DifferentIds segments
    → apply_move segments id index ≡ ok r
    → IsContiguous (pos 0) r
      × (get_id? (get_elem? r index) ≡ some id)
      × Perm (map unplaced r) (map unplaced segments)
unfolding apply_move resequence
apply_move_layout segments id index r distinct h =
    let (found, located, h1) = bind-returns (locate segments id) _ h in
    let (inside, h2) = reject-returns (leb (length segments) index) _ _ h1 in
    let (place, n) = locate-IsAt segments id found.0 found.1 distinct located in
    let others = place.before ++ place.after in
    let size : length segments ≡ suc (length others) = size_of segments id found.1 place in
    let moved = take index others ++ (found.1 ∷ drop index others) in
    let same : reorder segments found.0 found.1 index ≡ moved =
      ap (λ i. reorder segments i found.1 index) n ∙ reorder-eq segments id found.1 index place in
    let result : resequence_from (pos 0) moved ≡ r =
      ap (resequence_from (pos 0)) (sym same) ∙ ok-injective _ _ h2 in
    let stands : get_elem? moved index ≡ some found.1 =
      get_elem?-take index others found.1 (drop index others)
        (not_past segments others index inside size) in
    subst
      (λ (x : Segments).
        IsContiguous (pos 0) x
        × (get_id? (get_elem? x index) ≡ some id)
        × Perm (map unplaced x) (map unplaced segments))
      result
      (
        resequence_from-IsContiguous (pos 0) moved,
        get_id?-resequence_from (pos 0) moved index ∙ ap get_id? stands ∙ ap some place.has_id,
        subst₂ Perm (sym (map-resequence_from (pos 0) moved)) (ap (map unplaced) (sym place.split))
            (Perm.map unplaced (put_back-perm index place.before place.after found.1)),
      )
