-- ===== src/Editor/Removal.antt =====
-- packages/creator-service/creator_service/editor_command_applier.py: what is left when a segment is
-- taken out of a valid timeline is valid, and in the same order.
use short_form_studio.Prelude.{
  String, ◌≡◌, refl, Bool, true, false, ◌||◌, List, [], ◌∷◌, inl, inr, arith, str_eq, Bool-cases,
  All, AllPairs, All-mono,
}
use short_form_studio.Prelude.Int.{
  ℤ, pos, ◌+ℤ◌, ◌≤ℤ◌, leb_ℤ, ltb_ℤ, leb_ℤ→le, ltb_ℤ→le, le→leb_ℤ, le→ltb_ℤ, int_laws,
}
use short_form_studio.Prelude.Checked.{ok}
use short_form_studio.Timeline.Intervals.{tick, insert_by, sort_by, overlap_free}
use short_form_studio.Timeline.Sorting.{StartsLe, sort_by-IsSorted}
use short_form_studio.Timeline.Segment.{
  MediaSegment, Timeline, start_of, duration_of, check_segment, check_each, contains, distinct_ids,
  check_segments, model_validate,
}
use short_form_studio.Timeline.Valid.{and_true}
use short_form_studio.Editor.Segments.{Segments}
use short_form_studio.Editor.Cut.{without_id}

module _ (id : String) where
  pub All-without_id :
      (P : MediaSegment → Type 0) (xs : Segments) → All P xs → All P (without_id id xs)
  unfolding without_id
  All-without_id P [] h = tt
  All-without_id P (s ∷ rest) h = elim (Bool-cases (str_eq s.id id)) [
    | inl e ↦ rw e (All-without_id P rest h.1)
    | inr e ↦ rw e (h.0, All-without_id P rest h.1)
  ]

  check_each-without_id :
      (xs : Segments) → check_each xs ≡ true → check_each (without_id id xs) ≡ true
  unfolding check_each without_id
  check_each-without_id [] h = refl
  check_each-without_id (s ∷ rest) h =
      let both = and_true (check_segment s) (check_each rest) h in
      elim (Bool-cases (str_eq s.id id)) [
        | inl e ↦ rw e (check_each-without_id rest both.1)
        | inr e ↦ rw (e, both.0) (check_each-without_id rest both.1)
      ]

  -- what was not seen is not seen among fewer
  distinct_ids-without_id :
      (seen fewer : List String) (xs : Segments)
      → ((x : String) → contains x seen ≡ false → contains x fewer ≡ false)
      → distinct_ids seen xs ≡ true
      → distinct_ids fewer (without_id id xs) ≡ true
  unfolding distinct_ids without_id contains
  distinct_ids-without_id seen fewer [] f h = refl
  distinct_ids-without_id seen fewer (s ∷ rest) f h = elim (Bool-cases (contains s.id seen)) [
    | inl e ↦ let h' : false ≡ true = rw e at h in cc
    | inr e ↦
        let h' : distinct_ids (s.id ∷ seen) rest ≡ true = rw e at h in
        elim (Bool-cases (str_eq s.id id)) [
          | inl gone ↦ rw gone (
              distinct_ids-without_id (s.id ∷ seen) fewer rest
                (λ x g. f x (right (str_eq x s.id) (contains x seen) g)) h')
          | inr stays ↦
              rw (stays, f s.id e)
                (distinct_ids-without_id (s.id ∷ seen) (s.id ∷ fewer) rest
                  (λ x g. both (str_eq x s.id) (contains x seen) (contains x fewer) g (f x)) h')
        ]
  ]
    where
      right : (a b : Bool) → (a || b) ≡ false → b ≡ false
      right true b g = cc
      right false b g = g

      both : (a b c : Bool) → (a || b) ≡ false → (b ≡ false → c ≡ false) → (a || c) ≡ false
      both true b c g k = cc
      both false b c g k = k g

  insert_by-first :
      (x : MediaSegment) (ys : Segments)
      → All (StartsLe start_of x) ys
      → insert_by start_of x ys ≡ x ∷ ys
  unfolding insert_by
  insert_by-first x [] h = refl
  insert_by-first x (y ∷ ys) h = rw (le→leb_ℤ (start_of x) (start_of y) h.0) refl

  insert_by-without_id :
      (x : MediaSegment) (ys : Segments)
      → str_eq x.id id ≡ false
      → AllPairs (StartsLe start_of) ys
      → without_id id (insert_by start_of x ys) ≡ insert_by start_of x (without_id id ys)
  unfolding insert_by without_id
  insert_by-without_id x [] other h = rw other refl
  insert_by-without_id x (y ∷ ys) other h = elim (Bool-cases (leb_ℤ (start_of x) (start_of y))) [
    | inl e ↦
        let le : StartsLe start_of x y = leb_ℤ→le (start_of x) (start_of y) e in
        let first = insert_by-first x (without_id id ys) (
          All-without_id (StartsLe start_of x) ys (
            All-mono (StartsLe start_of y) (StartsLe start_of x) ys (λ b p. omega (arith, le, p))
              h.0)) in
        elim (Bool-cases (str_eq y.id id)) [
          | inl gone ↦ rw (e, other, gone, first) refl
          | inr stays ↦ rw (e, other, stays, e) refl
        ]
    | inr e ↦
        let rest = insert_by-without_id x ys other h.1 in
        elim (Bool-cases (str_eq y.id id)) [
          | inl gone ↦ rw (e, gone) rest
          | inr stays ↦ rw (e, stays, e, rest) refl
        ]
  ]

  insert_by-gone :
      (x : MediaSegment) (ys : Segments)
      → str_eq x.id id ≡ true
      → without_id id (insert_by start_of x ys) ≡ without_id id ys
  unfolding insert_by without_id
  insert_by-gone x [] same = rw same refl
  insert_by-gone x (y ∷ ys) same = elim (Bool-cases (leb_ℤ (start_of x) (start_of y))) [
    | inl e ↦ rw (e, same) refl
    | inr e ↦ rw (e, insert_by-gone x ys same) refl
  ]

  pub sort_by-without_id :
      (xs : Segments) → sort_by start_of (without_id id xs) ≡ without_id id (sort_by start_of xs)
  unfolding sort_by without_id
  sort_by-without_id [] = refl
  sort_by-without_id (s ∷ rest) = elim (Bool-cases (str_eq s.id id)) [
    | inl e ↦ rw (e, insert_by-gone s (sort_by start_of rest) e) (sort_by-without_id rest)
    | inr e ↦
        rw
          (
            e,
            sort_by-without_id rest,
            insert_by-without_id s (sort_by start_of rest) e (sort_by-IsSorted start_of rest),
          )
          refl
  ]

  -- the loop over the places may begin earlier
  overlap_free-earlier :
      (late early : ℤ) (xs : Segments)
      → All (λ b. early ≤ℤ start_of b +ℤ tick) xs
      → overlap_free start_of duration_of late xs ≡ true
      → overlap_free start_of duration_of early xs ≡ true
  unfolding overlap_free
  overlap_free-earlier late early [] h free = refl
  overlap_free-earlier late early (x ∷ xs) h free =
      elim (Bool-cases (ltb_ℤ (start_of x +ℤ tick) late)) [
        | inl e ↦ let free' : false ≡ true = rw e at free in cc
        | inr e ↦
            let free' : overlap_free start_of duration_of (start_of x +ℤ duration_of x) xs ≡ true =
              rw e at free in
            rw (le→ltb_ℤ (start_of x +ℤ tick) early h.0) free'
      ]

  overlap_free-without_id :
      (end : ℤ) (xs : Segments)
      → AllPairs (StartsLe start_of) xs
      → overlap_free start_of duration_of end xs ≡ true
      → overlap_free start_of duration_of end (without_id id xs) ≡ true
  unfolding overlap_free without_id
  overlap_free-without_id end [] sorted free = refl
  overlap_free-without_id end (x ∷ xs) sorted free =
      elim (Bool-cases (ltb_ℤ (start_of x +ℤ tick) end)) [
        | inl e ↦ let free' : false ≡ true = rw e at free in cc
        | inr e ↦
            let free' : overlap_free start_of duration_of (start_of x +ℤ duration_of x) xs ≡ true =
              rw e at free in
            let rest = overlap_free-without_id (start_of x +ℤ duration_of x) xs sorted.1 free' in
            let le = ltb_ℤ→le (start_of x +ℤ tick) end e in
            elim (Bool-cases (str_eq x.id id)) [
              | inl gone ↦ rw gone (
                  overlap_free-earlier (start_of x +ℤ duration_of x) end (without_id id xs)
                    (All-without_id (λ b. end ≤ℤ start_of b +ℤ tick) xs
                      (All-mono (StartsLe start_of x) (λ b. end ≤ℤ start_of b +ℤ tick) xs
                        (λ b p. omega (int_laws, le, p)) sorted.0))
                    rest)
              | inr stays ↦ rw (stays, e) rest
            ]
      ]

  -- a valid timeline is valid without one of its segments
  pub model_validate-without_id :
      (t : Timeline)
      → model_validate t ≡ ok t
      → model_validate (record t { segments = without_id id t.segments })
        ≡ ok (record t { segments = without_id id t.segments })
  unfolding model_validate check_segments
  model_validate-without_id t h =
      let each = check_each-without_id t.segments (ground arith) in
      let distinct = distinct_ids-without_id [] [] t.segments (λ x g. g) (ground arith) in
      let free : overlap_free start_of duration_of (pos 0)
            (sort_by start_of (without_id id t.segments))
          ≡ true =
        rw (sort_by-without_id t.segments) (
          overlap_free-without_id (pos 0) (sort_by start_of t.segments)
            (sort_by-IsSorted start_of t.segments) (ground arith)) in
      ground (arith, each, distinct, free)
