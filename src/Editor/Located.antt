-- ===== src/Editor/Located.antt =====
-- The handlers that look a segment up by its index: the index is the number of segments before it.
use short_form_studio.Prelude.{
  ℕ, suc, ◌+◌, ◌≤◌, String, ◌≡◌, refl, ap, ◌∙◌, ap₂, subst, none, some, [], ◌∷◌, ◌++◌, inl, inr,
  arith, str_eq, Bool-cases, Option-cases, AllPairs, length, get_elem?, take, drop,
  get_elem?-middle, take-middle, drop-middle,
}
use short_form_studio.Prelude.Int.{ℤ, ◌+ℤ◌}
use short_form_studio.Prelude.Checked.{Result, ok}
use short_form_studio.Errors.{Error}
use short_form_studio.Timeline.Segment.{MediaSegment}
use short_form_studio.Timeline.Valid.{DifferentIds}
use short_form_studio.Editor.Segments.{Segments, index_from, locate, found_at}
use short_form_studio.Editor.Place.{reorder, resize_each}
use short_form_studio.Editor.Found.{IsAt, found_first, found_later, str_eq_of, ne_of_str_eq}

-- the segment with this id, and its index counted from `first`
abbrev pub IsAtIndex : ℕ → Segments → String → ℕ → Type 0
IsAtIndex first segments id index =
    (target : MediaSegment) × (at : IsAt segments id target) × (index ≡ first + length at.before)

index_from-IsAtIndex :
    (first : ℕ) (segments : Segments) (id : String) (index : ℕ)
    → AllPairs DifferentIds segments
    → index_from first segments id ≡ some index
    → IsAtIndex first segments id index
unfolding index_from found_first found_later
index_from-IsAtIndex first [] id index distinct h = cc
index_from-IsAtIndex first (s ∷ rest) id index distinct h = elim (Bool-cases (str_eq s.id id)) [
  | inl e ↦
      let same : some first ≡ some index = rw e at h in
      (s, found_first s rest id (str_eq_of s.id id e) distinct.0, ground (arith, same))
  | inr e ↦
      let h' : index_from (first + 1) rest id ≡ some index = rw e at h in
      let (target, at, n) = index_from-IsAtIndex (first + 1) rest id index distinct.1 h' in
      (target, found_later s rest id target (ne_of_str_eq s.id id e) at, omega (arith, n))
]

get_elem?-IsAt :
    (segments : Segments) (id : String) (target : MediaSegment) (at : IsAt segments id target)
    (i : ℕ)
    → i ≡ 0 + length at.before
    → get_elem? segments i ≡ some target
get_elem?-IsAt segments id target at i n =
    let place : i ≡ length at.before = omega (arith, n) in
    ap (λ xs. get_elem? xs i) at.split
    ∙ ap (get_elem? (at.before ++ (target ∷ at.after))) place
    ∙ get_elem?-middle at.before target at.after

pair_of_ok :
    (i j : ℕ) (a b : MediaSegment)
    → ◌≡◌ {A = Result Error (ℕ × MediaSegment)} (ok (i, a)) (ok (j, b))
    → (i ≡ j) × (a ≡ b)
pair_of_ok i j a b h = (cc, cc)

-- what `locate` returns is that segment, with the number of segments before it
pub locate-IsAt :
    (segments : Segments) (id : String) (index : ℕ) (target : MediaSegment)
    → AllPairs DifferentIds segments
    → locate segments id ≡ ok (index, target)
    → (at : IsAt segments id target) × (index ≡ length at.before)
unfolding locate
locate-IsAt segments id index target distinct h = elim (Option-cases (index_from 0 segments id)) [
  | inl e ↦ let h' : found_at segments id none ≡ ok (index, target) = rw e at h in cc
  | inr (i, e) ↦
      let (found, at, n) = index_from-IsAtIndex 0 segments id i distinct e in
      let here : get_elem? segments i ≡ some found = get_elem?-IsAt segments id found at i n in
      let h' : found_at segments id (some i) ≡ ok (index, target) = rw e at h in
      let same : ◌≡◌ {A = Result Error (ℕ × MediaSegment)} (ok (i, found)) (ok (index, target)) =
        rw (here, found_at) at h' in
      let (same_index, same_target) = pair_of_ok i index found target same in
      subst (λ x. (at : IsAt segments id x) × (index ≡ length at.before)) same_target
        (at, omega (arith, n, same_index))
]

-- the segment taken out, and put back after `index` of the others
pub reorder-eq :
    (segments : Segments) (id : String) (target : MediaSegment) (index : ℕ)
    (at : IsAt segments id target)
    → reorder segments (length at.before) target index
      ≡ take index (at.before ++ at.after) ++ (target ∷ drop index (at.before ++ at.after))
unfolding reorder
reorder-eq segments id target index at =
    ap (λ (xs : Segments). take index xs ++ (target ∷ drop index xs))
      (ap₂ ◌++◌ (ap (take (length at.before)) at.split ∙ take-middle at.before (target ∷ at.after))
        (ap (drop (suc (length at.before))) at.split ∙ drop-middle at.before target at.after))

-- every segment starts `delta` later
unfoldable pub shift_all : ℤ → Segments → Segments
shift_all delta [] = []
shift_all delta (s ∷ rest) =
    record s { timeline_start_seconds = s.timeline_start_seconds +ℤ delta } ∷ shift_all delta rest

resize_each-after :
    (i index : ℕ) (new : MediaSegment) (delta : ℤ) (segments : Segments)
    → suc index ≤ i
    → resize_each i index new delta segments ≡ shift_all delta segments
unfolding resize_each shift_all
resize_each-after i index new delta [] h = refl
resize_each-after i index new delta (s ∷ rest) h =
    ground (arith, resize_each-after (i + 1) index new delta rest)

pub resize_each-middle :
    (i : ℕ) (before after : Segments) (target new : MediaSegment) (delta : ℤ)
    → resize_each i (i + length before) new delta (before ++ (target ∷ after))
      ≡ before ++ (new ∷ shift_all delta after)
unfolding resize_each
resize_each-middle i [] after target new delta =
    ground (arith, resize_each-after (i + 1) (i + 0) new delta after)
resize_each-middle i (s ∷ before) after target new delta =
    ground (arith, resize_each-middle (i + 1) before after target new delta)

pub resize_each-IsAt :
    (segments : Segments) (id : String) (target : MediaSegment) (at : IsAt segments id target)
    (new : MediaSegment) (delta : ℤ) (index : ℕ)
    → index ≡ length at.before
    → resize_each 0 index new delta segments ≡ at.before ++ (new ∷ shift_all delta at.after)
resize_each-IsAt segments id target at new delta index n =
    let same : index ≡ 0 + length at.before = omega (arith, n) in
    ap (λ i. resize_each 0 i new delta segments) same
    ∙ ap (resize_each 0 (0 + length at.before) new delta) at.split
    ∙ resize_each-middle 0 at.before at.after target new delta
