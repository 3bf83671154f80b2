-- ===== src/Timeline/Sorting.antt =====
-- Sorting by start keeps the items and orders them; an ordered list that passes the overlap loop
-- has no two overlapping items.
use short_form_studio.Prelude.{
  ◌≡◌, refl, true, false, List, [], ◌∷◌, inl, inr, arith, Bool-cases, All, AllPairs, All-mono,
}
use short_form_studio.Prelude.Int.{
  ℤ, ◌+ℤ◌, ◌≤ℤ◌, leb_ℤ, ltb_ℤ, leb_ℤ→le, leb_ℤ→lt, ltb_ℤ→le, le→leb_ℤ, int_laws,
}
use short_form_studio.Timeline.Intervals.{tick, insert_by, sort_by, overlap_free, Before, Disjoint}

module _ {ℓ} {A : Type ℓ} (start : A → ℤ) where
  abbrev pub StartsLe : A → A → Type 0
  StartsLe a b = start a ≤ℤ start b

  module _ (P : A → Type 0) where
    All-insert_by : (x : A) (ys : List A) → P x → All P ys → All P (insert_by start x ys)
    unfolding insert_by
    All-insert_by x [] p h = (p, tt)
    All-insert_by x (y ∷ ys) p h = elim (Bool-cases (leb_ℤ (start x) (start y))) [
      | inl e ↦ rw e (p, h)
      | inr e ↦ rw e (h.0, All-insert_by x ys p h.1)
    ]

    insert_by-All : (x : A) (ys : List A) → All P (insert_by start x ys) → P x × All P ys
    unfolding insert_by
    insert_by-All x [] h = h
    insert_by-All x (y ∷ ys) h = elim (Bool-cases (leb_ℤ (start x) (start y))) [
      | inl e ↦ rw e at h
      | inr e ↦
          let h' : P y × All P (insert_by start x ys) = rw e at h in
          let rest = insert_by-All x ys h'.1 in (rest.0, (h'.0, rest.1))
    ]

    pub All-sort_by : (xs : List A) → All P xs → All P (sort_by start xs)
    unfolding sort_by
    All-sort_by [] h = tt
    All-sort_by (x ∷ xs) h = All-insert_by x (sort_by start xs) h.0 (All-sort_by xs h.1)

    pub sort_by-All : (xs : List A) → All P (sort_by start xs) → All P xs
    unfolding sort_by
    sort_by-All [] h = tt
    sort_by-All (x ∷ xs) h =
        let parts = insert_by-All x (sort_by start xs) h in (parts.0, sort_by-All xs parts.1)

  insert_by-IsSorted :
      (x : A) (ys : List A) → AllPairs StartsLe ys → AllPairs StartsLe (insert_by start x ys)
  unfolding insert_by
  insert_by-IsSorted x [] h = (tt, tt)
  insert_by-IsSorted x (y ∷ ys) h = elim (Bool-cases (leb_ℤ (start x) (start y))) [
    | inl e ↦
        let le : StartsLe x y = leb_ℤ→le (start x) (start y) e in
        rw e ((le, All-mono (StartsLe y) (StartsLe x) ys (λ b p. omega (arith, le, p)) h.0), h)
    | inr e ↦
        let le : StartsLe y x = omega (arith, leb_ℤ→lt (start x) (start y) e) in
        rw e (All-insert_by (StartsLe y) x ys le h.0, insert_by-IsSorted x ys h.1)
  ]

  -- the sorted list is in order of start
  pub sort_by-IsSorted : (xs : List A) → AllPairs StartsLe (sort_by start xs)
  unfolding sort_by
  sort_by-IsSorted [] = tt
  sort_by-IsSorted (x ∷ xs) = insert_by-IsSorted x (sort_by start xs) (sort_by-IsSorted xs)

  -- a list in order is sorted already
  pub sort_by-sorted : (xs : List A) → AllPairs StartsLe xs → sort_by start xs ≡ xs
  unfolding sort_by insert_by
  sort_by-sorted [] h = refl
  sort_by-sorted (x ∷ []) h = refl
  sort_by-sorted (x ∷ y ∷ rest) h =
      rw (sort_by-sorted (y ∷ rest) h.1, le→leb_ℤ (start x) (start y) h.0.0) refl

  module _ (R : A → A → Type 0) (R_sym : (a b : A) → R a b → R b a) where
    insert_by-AllPairs :
        (x : A) (ys : List A) → AllPairs R (insert_by start x ys) → AllPairs R (x ∷ ys)
    unfolding insert_by
    insert_by-AllPairs x [] h = h
    insert_by-AllPairs x (y ∷ ys) h = elim (Bool-cases (leb_ℤ (start x) (start y))) [
      | inl e ↦ rw e at h
      | inr e ↦
          let h' : All (R y) (insert_by start x ys) × AllPairs R (insert_by start x ys) =
            rw e at h in
          let front = insert_by-All (R y) x ys h'.0 in
          let rest = insert_by-AllPairs x ys h'.1 in
          ((R_sym y x front.0, rest.0), (front.1, rest.1))
    ]

    AllPairs-insert_by :
        (x : A) (ys : List A) → AllPairs R (x ∷ ys) → AllPairs R (insert_by start x ys)
    unfolding insert_by
    AllPairs-insert_by x [] h = h
    AllPairs-insert_by x (y ∷ ys) h = elim (Bool-cases (leb_ℤ (start x) (start y))) [
      | inl e ↦ rw e h
      | inr e ↦
          rw e (
            All-insert_by (R y) x ys (R_sym x y h.0.0) h.1.0,
            AllPairs-insert_by x ys (h.0.1, h.1.1),
          )
    ]

    -- a symmetric relation between all items holds between all items of the sorted list
    pub AllPairs-sort_by : (xs : List A) → AllPairs R xs → AllPairs R (sort_by start xs)
    unfolding sort_by
    AllPairs-sort_by [] h = tt
    AllPairs-sort_by (x ∷ xs) h =
        AllPairs-insert_by x (sort_by start xs) (All-sort_by (R x) xs h.0, AllPairs-sort_by xs h.1)

    -- a symmetric relation between all items of the sorted list holds between all items
    pub sort_by-AllPairs : (xs : List A) → AllPairs R (sort_by start xs) → AllPairs R xs
    unfolding sort_by
    sort_by-AllPairs [] h = tt
    sort_by-AllPairs (x ∷ xs) h =
        let pairs = insert_by-AllPairs x (sort_by start xs) h in
        (sort_by-All (R x) xs pairs.0, sort_by-AllPairs xs pairs.1)

module _ {ℓ} {A : Type ℓ} (start duration : A → ℤ) where
  Disjoint-sym : (a b : A) → Disjoint start duration a b → Disjoint start duration b a
  Disjoint-sym a b (inl h) = inr h
  Disjoint-sym a b (inr h) = inl h

  -- what the loop passes starts no earlier than `prev_end`, up to the tolerance
  overlap_free-All :
      (prev_end : ℤ) (xs : List A)
      → AllPairs (StartsLe start) xs
      → overlap_free start duration prev_end xs ≡ true
      → All (λ b. prev_end ≤ℤ start b +ℤ tick) xs
  unfolding overlap_free
  overlap_free-All prev_end [] sorted h = tt
  overlap_free-All prev_end (x ∷ xs) sorted h =
      elim (Bool-cases (ltb_ℤ (start x +ℤ tick) prev_end)) [
        | inl e ↦ let h' : false ≡ true = rw e at h in cc
        | inr e ↦
            let le = ltb_ℤ→le (start x +ℤ tick) prev_end e in
            (
              le,
              All-mono (StartsLe start x) (λ b. prev_end ≤ℤ start b +ℤ tick) xs
                  (λ b p. omega (int_laws, le, p)) sorted.0,
            )
      ]

  overlap_free-AllPairs :
      (prev_end : ℤ) (xs : List A)
      → AllPairs (StartsLe start) xs
      → overlap_free start duration prev_end xs ≡ true
      → AllPairs (Disjoint start duration) xs
  unfolding overlap_free
  overlap_free-AllPairs prev_end [] sorted h = tt
  overlap_free-AllPairs prev_end (x ∷ xs) sorted h =
      elim (Bool-cases (ltb_ℤ (start x +ℤ tick) prev_end)) [
        | inl e ↦ let h' : false ≡ true = rw e at h in cc
        | inr e ↦
            let h' : overlap_free start duration (start x +ℤ duration x) xs ≡ true = rw e at h in
            (
              All-mono (Before start duration x) (Disjoint start duration x) xs (λ b p. inl p)
                  (overlap_free-All (start x +ℤ duration x) xs sorted.1 h'),
              overlap_free-AllPairs (start x +ℤ duration x) xs sorted.1 h',
            )
      ]

  -- Items whose sorted list passes the loop are disjoint two by two, in whatever order they stand.
  pub AllPairs-of_overlap_free :
      (prev_end : ℤ) (xs : List A)
      → overlap_free start duration prev_end (sort_by start xs) ≡ true
      → AllPairs (Disjoint start duration) xs
  AllPairs-of_overlap_free prev_end xs h =
      sort_by-AllPairs start (Disjoint start duration) Disjoint-sym xs
        (overlap_free-AllPairs prev_end (sort_by start xs) (sort_by-IsSorted start xs) h)
