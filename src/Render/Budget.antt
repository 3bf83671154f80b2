-- ===== src/Render/Budget.antt =====
-- packages/creator-service/creator_service/render_frame_budget.py: `allocate_frames`. Durations are
-- whole nanoseconds, and none is negative.
use Prim.Native.Nat.{◌/◌, ◌%◌}
use short_form_studio.Prelude.{
  ℕ, zero, suc, ◌+◌, ◌-◌, ◌*◌, ◌≤◌, ◌==◌, ltb, ◌≡◌, refl, ap, subst, Bool, false, ◌||◌, List, [],
  ◌∷◌, arith, if◌then◌else◌, take, Bool-cases, inl, inr,
}
use short_form_studio.Prelude.Checked.{Result, ok, err, ok-injective}
use short_form_studio.Errors.{Error, value_error, text}

abbrev pub second_nanos : ℕ
second_nanos = 1000000000

-- Python's `round`, of n nanoseconds in seconds: to the nearest, and half to even
unfoldable pub round_seconds : ℕ → ℕ
round_seconds n =
    let whole = n / second_nanos in
    let twice = 2 * (n % second_nanos) in
    if ltb twice second_nanos
    then whole
    else if ltb second_nanos twice
    then whole + 1
    else if (whole % 2) == 0
    then whole
    else whole + 1

-- round(fsum(durations) * fps), of a sum of durations
unfoldable pub boundary : ℕ → ℕ → ℕ
unfolding round_seconds
boundary fps total = round_seconds (total * fps)

-- [round(fsum(durations[:index + 1]) * fps) for index in ...], from the sum of those before
unfoldable pub ends_from : (ℕ → ℕ) → ℕ → List ℕ → List ℕ
ends_from at total [] = []
ends_from at total (d ∷ rest) = at (total + d) ∷ ends_from at (total + d) rest

-- [end - start for start, end in zip([start, *ends[:-1]], ends)]
unfoldable pub differences : ℕ → List ℕ → List ℕ
differences start [] = []
differences start (e ∷ rest) = (e - start) ∷ differences e rest

-- any(budget < 1 for budget in budgets)
unfoldable pub any_empty : List ℕ → Bool
any_empty [] = false
any_empty (b ∷ rest) = ltb b 1 || any_empty rest

-- with no duration, the strict zip raises
unfoldable pub allocate_frames : List ℕ → ℕ → Result Error (List ℕ)
unfolding boundary ends_from differences any_empty
allocate_frames [] fps = err (value_error (text "zip() argument 2 is shorter than argument 1"))
allocate_frames (d ∷ rest) fps =
    let budgets = differences 0 (ends_from (boundary fps) 0 (d ∷ rest)) in
    if any_empty budgets
    then err (value_error (text "Each segment must occupy at least one output frame"))
    else ok budgets

abbrev pub sum : List ℕ → ℕ
sum [] = 0
sum (x ∷ rest) = x + sum rest

none_empty :
    (b : ℕ) (rest : List ℕ) → any_empty (b ∷ rest) ≡ false → (1 ≤ b) × (any_empty rest ≡ false)
unfolding any_empty
none_empty b rest h = (ground arith, ground arith)

at_start : (at : ℕ → ℕ) (total start : ℕ) → start ≡ at total → start + 0 ≡ at (total + 0)
at_start at total start same =
    let there : at (total + 0) ≡ at total = ap at (omega arith) in omega (arith, same, there)

-- the budgets of the first segments make up the rounded end of those
prefix_sum :
    (at : ℕ → ℕ) (total start : ℕ) (durations : List ℕ) (k : ℕ)
    → start ≡ at total
    → any_empty (differences start (ends_from at total durations)) ≡ false
    → start + sum (take k (differences start (ends_from at total durations)))
      ≡ at (total + sum (take k durations))
unfolding ends_from differences
prefix_sum at total start durations zero same h = at_start at total start same
prefix_sum at total start [] (suc k) same h = at_start at total start same
prefix_sum at total start (d ∷ rest) (suc k) same h =
    let end = at (total + d) in
    let (grows, others) =
      none_empty (end - start) (differences end (ends_from at (total + d) rest)) h in
    let rest_sum = prefix_sum at (total + d) end rest k refl others in
    let shifted : at (total + d + sum (take k rest)) ≡ at (total + (d + sum (take k rest))) =
      ap at (omega arith) in
    omega (arith, grows, rest_sum, shifted)

first_sum :
    (at : ℕ → ℕ) (durations : List ℕ) (k : ℕ)
    → 0 ≡ at 0
    → any_empty (differences 0 (ends_from at 0 durations)) ≡ false
    → sum (take k (differences 0 (ends_from at 0 durations))) ≡ at (sum (take k durations))
first_sum at durations k zero_start h =
    let from_start = prefix_sum at 0 0 durations k zero_start h in
    let here : at (0 + sum (take k durations)) ≡ at (sum (take k durations)) =
      ap at (omega arith) in
    omega (arith, from_start, here)

boundary_zero : (fps : ℕ) → 0 ≡ boundary fps 0
unfolding boundary round_seconds
boundary_zero fps = let none : 0 * fps ≡ 0 = omega arith in rw none refl

-- Where `allocate_frames` returns budgets, each segment has at least one frame, and the budgets of any first
-- segments make up exactly the rounded end of those in frames: rounding does not accumulate.
pub allocate_frames-prefix :
    (durations budgets : List ℕ) (fps k : ℕ)
    → allocate_frames durations fps ≡ ok budgets
    → (any_empty budgets ≡ false) × (sum (take k budgets) ≡ boundary fps (sum (take k durations)))
unfolding allocate_frames
allocate_frames-prefix [] budgets fps k h = absurd (cc)
allocate_frames-prefix (d ∷ rest) budgets fps k h =
    elim (Bool-cases (any_empty (differences 0 (ends_from (boundary fps) 0 (d ∷ rest))))) [
      | inl e ↦ absurd (ground (arith, e, h))
      | inr e ↦
          let same =
            ok-injective (differences 0 (ends_from (boundary fps) 0 (d ∷ rest))) budgets
              (rw e at h) in
          (
            subst (λ bs. any_empty bs ≡ false) same e,
            subst (λ bs. sum (take k bs) ≡ boundary fps (sum (take k (d ∷ rest)))) same
                (first_sum (boundary fps) (d ∷ rest) k (boundary_zero fps) e),
          )
    ]
