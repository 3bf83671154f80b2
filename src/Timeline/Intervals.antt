-- ===== src/Timeline/Intervals.antt =====
-- Placed items on a time axis: `sorted(..., key=start)` and the overlap loop that
-- packages/creator-domain/creator_domain/models/{timeline,track}.py share.
use short_form_studio.Prelude.{Bool, true, false, List, [], ◌∷◌, ◌⊎◌, if◌then◌else◌}
use short_form_studio.Prelude.Int.{ℤ, pos, ◌+ℤ◌, ◌≤ℤ◌, leb_ℤ, ltb_ℤ}

-- 1e-9 s, the tolerance of every comparison between two places on the axis
abbrev pub tick : ℤ
tick = pos 1

module _ {ℓ} {A : Type ℓ} (start : A → ℤ) where
  -- Python's sort is stable: an item goes before those that start no earlier.
  unfoldable pub insert_by : A → List A → List A
  insert_by x [] = x ∷ []
  insert_by x (y ∷ ys) = if leb_ℤ (start x) (start y) then x ∷ y ∷ ys else y ∷ insert_by x ys

  -- sorted(items, key=start)
  unfoldable pub sort_by : List A → List A
  unfolding insert_by
  sort_by [] = []
  sort_by (x ∷ xs) = insert_by x (sort_by xs)

module _ {ℓ} {A : Type ℓ} (start duration : A → ℤ) where
  -- the loop over the ordered items, from `prev_end`
  unfoldable pub overlap_free : ℤ → List A → Bool
  overlap_free prev_end [] = true
  overlap_free prev_end (x ∷ xs) =
      if ltb_ℤ (start x +ℤ tick) prev_end then false else overlap_free (start x +ℤ duration x) xs

  abbrev pub Before : A → A → Type 0
  Before a b = start a +ℤ duration a ≤ℤ start b +ℤ tick

  -- one of the two ends before the other starts, up to the tolerance
  abbrev pub Disjoint : A → A → Type 0
  Disjoint a b = Before a b ⊎ Before b a
