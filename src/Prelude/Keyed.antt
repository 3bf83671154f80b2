-- ===== src/Prelude/Keyed.antt =====
-- A Python `dict` with keys of any type that has an equality test, in order of insertion.
use short_form_studio.Prelude.{
  ℕ, ◌+◌, String, ◌==◌, ==_iff, ◌≡◌, refl, ap, ap₂, ◌↔◌, Bool, true, false, ◌&&◌, Option, none,
  some, List, [], ◌∷◌, arith, if◌then◌else◌, str_eq, eq_iff, Bool-cases, inl, inr,
}

pub record Key {ℓ} (K : Type ℓ) : Type ℓ where
  pub same : K → K → Bool
  pub same_iff : (a b : K) → (same a b ≡ true) ↔ (a ≡ b)

instance abbrev pub nat_key : Key ℕ
nat_key = record { same = ◌==◌; same_iff = ==_iff }

instance abbrev pub text_key : Key String
text_key = record { same = str_eq; same_iff = eq_iff }

module _ {ℓ κ} {A : Type ℓ} {B : Type κ} ⦃first : Key A⦄ ⦃second : Key B⦄ where
  abbrev pub same_pair : A × B → A × B → Bool
  same_pair (a, b) (c, d) = first.same a c && second.same b d

  pub same_pair_iff : (p q : A × B) → (same_pair p q ≡ true) ↔ (p ≡ q)
  same_pair_iff (a, b) (c, d) = (
    λ h.
        ap₂ (λ x y. (x, y)) ((first.same_iff a c).0 (left (first.same a c) (second.same b d) h))
          ((second.same_iff b d).0 (right (first.same a c) (second.same b d) h)),
    λ e.
        rw ((first.same_iff a c).1 (ap (λ p. p.0) e), (second.same_iff b d).1 (ap (λ p. p.1) e))
          refl,
  )
    where
      left : (x y : Bool) → (x && y) ≡ true → x ≡ true
      left x y h = ground arith

      right : (x y : Bool) → (x && y) ≡ true → y ≡ true
      right x y h = ground arith

  instance abbrev pub pair_key : Key (A × B)
  pair_key = record { same = same_pair; same_iff = same_pair_iff }

module _ {ℓ} {K : Type ℓ} ⦃key : Key K⦄ where
  pub same_refl : (k : K) → key.same k k ≡ true
  same_refl k = (key.same_iff k k).1 refl

  -- key in a set
  abbrev pub member : K → List K → Bool
  member k [] = false
  member k (x ∷ xs) = if key.same x k then true else member k xs

module _ {ℓ κ} {K : Type ℓ} {V : Type κ} ⦃key : Key K⦄ where
  -- d.get(key)
  unfoldable pub get : K → List (K × V) → Option V
  get k [] = none
  get k ((j, v) ∷ rest) = if key.same j k then some v else get k rest

  -- d[key] = value
  unfoldable pub put : K → V → List (K × V) → List (K × V)
  put k value [] = (k, value) ∷ []
  put k value ((j, v) ∷ rest) =
      if key.same j k then (k, value) ∷ rest else (j, v) ∷ put k value rest

  pub get-put_self : (k : K) (value : V) (d : List (K × V)) → get k (put k value d) ≡ some value
  unfolding get put
  get-put_self k value [] = rw (same_refl k) refl
  get-put_self k value ((j, v) ∷ rest) = ground (arith, get-put_self k value rest, same_refl k)

  pub get-put_ne :
      (k j : K) (value : V) (d : List (K × V))
      → key.same k j ≡ false
      → get j (put k value d) ≡ get j d
  unfolding get put
  get-put_ne k j value [] h = ground arith
  get-put_ne k j value ((i, v) ∷ rest) h = elim (Bool-cases (key.same i k)) [
    | inl e ↦ let i_is_k = (key.same_iff i k).0 e in rw (e, i_is_k, h) refl
    | inr e ↦ rw e (ground (arith, get-put_ne k j value rest h))
  ]

  pub put-put : (k : K) (a b : V) (d : List (K × V)) → put k b (put k a d) ≡ put k b d
  unfolding put
  put-put k a b [] = rw (same_refl k) refl
  put-put k a b ((j, v) ∷ rest) = elim (Bool-cases (key.same j k)) [
    | inl e ↦ rw (e, same_refl k) refl
    | inr e ↦ rw (e, e, put-put k a b rest) refl
  ]

  -- what is summed over a dictionary
  abbrev pub total : (K → V → ℕ) → List (K × V) → ℕ
  total f [] = 0
  total f ((k, v) ∷ rest) = f k v + total f rest

  pub total-put_new :
      (f : K → V → ℕ) (k : K) (value : V) (d : List (K × V))
      → get k d ≡ none
      → total f (put k value d) ≡ total f d + f k value
  unfolding get put
  total-put_new f k value [] h = ground arith
  total-put_new f k value ((j, v) ∷ rest) h = ground (arith, total-put_new f k value rest)

  pub total-put :
      (f : K → V → ℕ) (k : K) (value old : V) (d : List (K × V))
      → get k d ≡ some old
      → total f (put k value d) + f k old ≡ total f d + f k value
  unfolding get put
  total-put f k value old [] h = cc
  total-put f k value old ((j, v) ∷ rest) h = elim (Bool-cases (key.same j k)) [
    | inl e ↦ let j_is_k = (key.same_iff j k).0 e in rw (e, j_is_k) (omega (arith, found v e h))
    | inr e ↦ rw e (ground (arith, total-put f k value old rest))
  ]
    where
      found :
          (w : V)
          → key.same j k ≡ true
          → (if key.same j k then some w else get k rest) ≡ some old
          → f k w ≡ f k old
      found w e g = ap (f k) (ground arith)
