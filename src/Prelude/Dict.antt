-- ===== src/Prelude/Dict.antt =====
-- A Python `dict` with number keys, as an association list in order of insertion.
use short_form_studio.Prelude.{
  ℕ, ◌==◌, ◌≡◌, refl, Option, none, some, List, [], ◌∷◌, arith, if◌then◌else◌, ◌⊎◌,
}

module _ {ℓ} {V : Type ℓ} where
  -- d.get(key)
  unfoldable pub get : ℕ → List (ℕ × V) → Option V
  get key [] = none
  get key ((k, v) ∷ rest) = if k == key then some v else get key rest

  -- d[key] = value
  unfoldable pub put : ℕ → V → List (ℕ × V) → List (ℕ × V)
  put key value [] = (key, value) ∷ []
  put key value ((k, v) ∷ rest) =
      if k == key then (key, value) ∷ rest else (k, v) ∷ put key value rest

  -- del d[key]
  unfoldable pub remove : ℕ → List (ℕ × V) → List (ℕ × V)
  remove key [] = []
  remove key ((k, v) ∷ rest) =
      let others = remove key rest in if k == key then others else (k, v) ∷ others

  pub get-put :
      (key j : ℕ) (value : V) (d : List (ℕ × V))
      → get j (put key value d) ≡ (if key == j then some value else get j d)
  unfolding get put
  get-put key j value [] = refl
  get-put key j value ((k, v) ∷ rest) = ground (arith, get-put key j value rest)

  pub get-remove :
      (key j : ℕ) (d : List (ℕ × V)) → get j (remove key d) ≡ (if key == j then none else get j d)
  unfolding get remove
  get-remove key j [] = ground arith
  get-remove key j ((k, v) ∷ rest) = ground (arith, get-remove key j rest)

pub ruleset dict_laws = (get-put, get-remove)

module _ {ℓ} {V : Type ℓ} where
  -- what is read after a write is what was written, or what was there
  pub put-cases :
      (key j : ℕ) (value found : V) (d : List (ℕ × V))
      → get j (put key value d) ≡ some found
      → ((key ≡ j) × (value ≡ found)) ⊎ (get j d ≡ some found)
  put-cases key j value found d h = ground (arith, get-put key j value d)

  pub remove-found :
      (key j : ℕ) (found : V) (d : List (ℕ × V))
      → get j (remove key d) ≡ some found
      → get j d ≡ some found
  remove-found key j found d h = ground (arith, get-remove key j d)
