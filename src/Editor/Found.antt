-- ===== src/Editor/Found.antt =====
-- Where ids are distinct, the handlers that look a segment up change exactly that one: the segments
-- before and after it stay as they are.
use short_form_studio.Prelude.{
  String, ◌≡◌, ◌≢◌, refl, sym, ap, ◌∙◌, subst, true, false, [], ◌∷◌, ◌++◌, inl, inr, arith, str_eq,
  eq_iff, Bool-cases, All, AllPairs, All-mono,
}
use short_form_studio.Prelude.Checked.{ok}
use short_form_studio.Timeline.Segment.{MediaSegment}
use short_form_studio.Timeline.Valid.{DifferentIds}
use short_form_studio.Editor.Segments.{Segments, update_id, find_segment}
use short_form_studio.Editor.Cut.{replace_by_halves, without_id}

abbrev pub Other : String → MediaSegment → Type 0
Other id s = s.id ≢ id

-- `target` is the one segment with this id
pub record IsAt (segments : Segments) (id : String) (target : MediaSegment) : Type 0 where
  pub before : Segments
  pub after : Segments
  pub split : segments ≡ before ++ (target ∷ after)
  pub has_id : target.id ≡ id
  pub others_before : All (Other id) before
  pub others_after : All (Other id) after

pub str_eq_of : (a b : String) → str_eq a b ≡ true → a ≡ b
str_eq_of a b h = (eq_iff a b).0 h

pub ne_of_str_eq : (a b : String) → str_eq a b ≡ false → a ≢ b
ne_of_str_eq a b h e = ground (arith, eq_iff a b, e)

pub str_eq_of_ne : (a b : String) → a ≢ b → str_eq a b ≡ false
str_eq_of_ne a b ne = ground (arith, eq_iff a b, ne)

pub str_eq_of_eq : (a b : String) → a ≡ b → str_eq a b ≡ true
str_eq_of_eq a b e = (eq_iff a b).1 e

unfoldable pub found_first :
    (s : MediaSegment) (rest : Segments) (id : String)
    → s.id ≡ id
    → All (DifferentIds s) rest
    → IsAt (s ∷ rest) id s
found_first s rest id e different = record {
  before = [];
  after = rest;
  split = refl;
  has_id = e;
  others_before = tt;
  others_after = All-mono (DifferentIds s) (Other id) rest (λ b ne p. ne (e ∙ sym p)) different;
}

unfoldable pub found_later :
    (s : MediaSegment) (rest : Segments) (id : String) (target : MediaSegment)
    → Other id s
    → IsAt rest id target
    → IsAt (s ∷ rest) id target
found_later s rest id target ne f = record {
  before = s ∷ f.before;
  after = f.after;
  split = ap (◌∷◌ s) f.split;
  has_id = f.has_id;
  others_before = (ne, f.others_before);
  others_after = f.others_after;
}

-- what `_find` returns is that segment
pub find_segment-IsAt :
    (segments : Segments) (id : String) (target : MediaSegment)
    → AllPairs DifferentIds segments
    → find_segment segments id ≡ ok target
    → IsAt segments id target
unfolding find_segment
find_segment-IsAt [] id target distinct h = cc
find_segment-IsAt (s ∷ rest) id target distinct h = elim (Bool-cases (str_eq s.id id)) [
  | inl e ↦
      let same : s ≡ target = ground arith in
      subst (IsAt (s ∷ rest) id) same (found_first s rest id (str_eq_of s.id id e) distinct.0)
  | inr e ↦
      let h' : find_segment rest id ≡ ok target = rw e at h in
      found_later s rest id target (ne_of_str_eq s.id id e)
        (find_segment-IsAt rest id target distinct.1 h')
]

module _ (id : String) (f : MediaSegment → MediaSegment) where
  update_id-others :
      (segments : Segments) → All (Other id) segments → update_id id f segments ≡ segments
  unfolding update_id
  update_id-others [] h = refl
  update_id-others (s ∷ rest) h = rw (str_eq_of_ne s.id id h.0, update_id-others rest h.1)

  update_id-middle :
      (before after : Segments) (target : MediaSegment)
      → target.id ≡ id
      → All (Other id) before
      → All (Other id) after
      → update_id id f (before ++ (target ∷ after)) ≡ before ++ (f target ∷ after)
  unfolding update_id
  update_id-middle [] after target e h k =
      rw (str_eq_of_eq target.id id e) (ap (◌∷◌ (f target)) (update_id-others after k))
  update_id-middle (s ∷ before) after target e h k =
      rw (str_eq_of_ne s.id id h.0) (ap (◌∷◌ s) (update_id-middle before after target e h.1 k))

  pub update_id-eq :
      (segments : Segments) (target : MediaSegment) (at : IsAt segments id target)
      → update_id id f segments ≡ at.before ++ (f target ∷ at.after)
  update_id-eq segments target at =
      ap (update_id id f) at.split
      ∙ update_id-middle at.before at.after target at.has_id at.others_before at.others_after

module _ (id : String) where
  without_id-others :
      (segments : Segments) → All (Other id) segments → without_id id segments ≡ segments
  unfolding without_id
  without_id-others [] h = refl
  without_id-others (s ∷ rest) h =
      rw (str_eq_of_ne s.id id h.0) (ap (◌∷◌ s) (without_id-others rest h.1))

  without_id-middle :
      (before after : Segments) (target : MediaSegment)
      → target.id ≡ id
      → All (Other id) before
      → All (Other id) after
      → without_id id (before ++ (target ∷ after)) ≡ before ++ after
  unfolding without_id
  without_id-middle [] after target e h k =
      rw (str_eq_of_eq target.id id e) (without_id-others after k)
  without_id-middle (s ∷ before) after target e h k =
      rw (str_eq_of_ne s.id id h.0) (ap (◌∷◌ s) (without_id-middle before after target e h.1 k))

  pub without_id-eq :
      (segments : Segments) (target : MediaSegment) (at : IsAt segments id target)
      → without_id id segments ≡ at.before ++ at.after
  without_id-eq segments target at =
      ap (without_id id) at.split
      ∙ without_id-middle at.before at.after target at.has_id at.others_before at.others_after

module _ (id : String) (left right : MediaSegment → MediaSegment) where
  halves-others :
      (segments : Segments)
      → All (Other id) segments
      → replace_by_halves id left right segments ≡ segments
  unfolding replace_by_halves
  halves-others [] h = refl
  halves-others (s ∷ rest) h = rw (str_eq_of_ne s.id id h.0) (ap (◌∷◌ s) (halves-others rest h.1))

  halves-middle :
      (before after : Segments) (target : MediaSegment)
      → target.id ≡ id
      → All (Other id) before
      → All (Other id) after
      → replace_by_halves id left right (before ++ (target ∷ after))
        ≡ before ++ (left target ∷ right target ∷ after)
  unfolding replace_by_halves
  halves-middle [] after target e h k =
      rw (str_eq_of_eq target.id id e)
        (ap (λ rest. left target ∷ right target ∷ rest) (halves-others after k))
  halves-middle (s ∷ before) after target e h k =
      rw (str_eq_of_ne s.id id h.0) (ap (◌∷◌ s) (halves-middle before after target e h.1 k))

  pub replace_by_halves-eq :
      (segments : Segments) (target : MediaSegment) (at : IsAt segments id target)
      → replace_by_halves id left right segments
        ≡ at.before ++ (left target ∷ right target ∷ at.after)
  replace_by_halves-eq segments target at =
      ap (replace_by_halves id left right) at.split
      ∙ halves-middle at.before at.after target at.has_id at.others_before at.others_after
