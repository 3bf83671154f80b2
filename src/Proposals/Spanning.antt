-- ===== src/Proposals/Spanning.antt =====
-- packages/creator-service/creator_service/shorten_proposal.py: `_find_boundary_index`, and the lists
-- around an item.
use short_form_studio.Prelude.{
  ℕ, suc, ◌≡◌, refl, subst, ap, true, false, Option, none, some, [], ◌∷◌, ◌++◌, get_elem?, drop,
  inl, inr, arith, Bool-cases, All, AllPairs, some-injective,
}
use short_form_studio.Prelude.Int.{
  ℤ, ◌+ℤ◌, ◌≤ℤ◌, ◌<ℤ◌, leb_ℤ, ltb_ℤ, leb_ℤ→le, leb_ℤ→lt, ltb_ℤ→lt, ltb_ℤ→le, int_laws,
}
use short_form_studio.Timeline.Intervals.{tick}
use short_form_studio.Timeline.Segment.{MediaSegment}
use short_form_studio.Editor.Segments.{Segments, end_of}
use short_form_studio.Proposals.Shorten.{spans, one_later, find_boundary_index}

-- a property that follows from two that hold of all
pub All-both :
    (P Q R : MediaSegment → Type 0) (xs : Segments)
    → ((a : MediaSegment) → P a → Q a → R a)
    → All P xs
    → All Q xs
    → All R xs
All-both P Q R [] f h k = tt
All-both P Q R (x ∷ xs) f h k = (f x h.0 k.0, All-both P Q R xs f h.1 k.1)

pub All-middle :
    (P : MediaSegment → Type 0) (xs : Segments) (y : MediaSegment) (zs : Segments)
    → All P (xs ++ y ∷ zs)
    → P y
All-middle P [] y zs h = h.0
All-middle P (x ∷ xs) y zs h = All-middle P xs y zs h.1

-- what holds between all items of a list holds of those before an item, of it, and of those after
pub AllPairs-middle :
    (R : MediaSegment → MediaSegment → Type 0) (kept : Segments) (boundary : MediaSegment)
    (cut : Segments)
    → AllPairs R (kept ++ boundary ∷ cut)
    → All (λ s. R s boundary) kept × All (R boundary) cut
AllPairs-middle R [] boundary cut h = (tt, h.0)
AllPairs-middle R (s ∷ kept) boundary cut h =
    let rest = AllPairs-middle R kept boundary cut h.1 in
    ((All-middle (R s) kept boundary cut h.0, rest.0), rest.1)

pub spans-parts :
    (target : ℤ) (s : MediaSegment)
    → spans target s ≡ true
    → (s.timeline_start_seconds <ℤ target) × (target ≤ℤ end_of s +ℤ tick)
spans-parts target s h = (
  ltb_ℤ→lt s.timeline_start_seconds target (ground arith),
  leb_ℤ→le target (end_of s +ℤ tick) (ground arith),
)

-- a segment that starts before the target and does not span it ends before it
pub not_spans-before :
    (target : ℤ) (s : MediaSegment)
    → s.timeline_start_seconds <ℤ target
    → spans target s ≡ false
    → end_of s +ℤ tick <ℤ target
not_spans-before target s starts h = elim (Bool-cases (leb_ℤ target (end_of s +ℤ tick))) [
  | inr e ↦ leb_ℤ→lt target (end_of s +ℤ tick) e
  | inl e ↦ ground (arith, leb_ℤ→le target (end_of s +ℤ tick) e)
]

-- a segment that does not span the target and does not end before it starts no earlier
pub not_spans-after :
    (target : ℤ) (s : MediaSegment)
    → ltb_ℤ (end_of s) target ≡ false
    → spans target s ≡ false
    → target ≤ℤ s.timeline_start_seconds
not_spans-after target s ends h = elim (Bool-cases (ltb_ℤ s.timeline_start_seconds target)) [
  | inr e ↦ ltb_ℤ→le s.timeline_start_seconds target e
  | inl e ↦
      let h' : leb_ℤ target (end_of s +ℤ tick) ≡ false = rw e at h in
      omega (int_laws, leb_ℤ→lt target (end_of s +ℤ tick) h', ltb_ℤ→le (end_of s) target ends)
]

-- where the boundary is
pub record Boundary (target : ℤ) (ordered : Segments) (i : ℕ) : Type 0 where
  pub kept : Segments
  pub boundary : MediaSegment
  pub cut : Segments
  pub parts : ordered ≡ kept ++ boundary ∷ cut
  pub at : get_elem? ordered i ≡ some boundary
  pub rest : drop (suc i) ordered ≡ cut
  pub spanned : spans target boundary ≡ true
  pub before : All (λ s. spans target s ≡ false) kept

pub find_boundary_index-Boundary :
    (target : ℤ) (ordered : Segments) (i : ℕ)
    → find_boundary_index ordered target ≡ some i
    → Boundary target ordered i
unfolding find_boundary_index
find_boundary_index-Boundary target [] i h = cc
find_boundary_index-Boundary target (s ∷ ss) i h = elim (Bool-cases (spans target s)) [
  | inl e ↦
      let h' : some 0 ≡ some i = rw e at h in
      subst (Boundary target (s ∷ ss)) (some-injective 0 i h') (record {
        kept = [];
        boundary = s;
        cut = ss;
        parts = refl;
        at = refl;
        rest = refl;
        spanned = e;
        before = tt;
      })
  | inr e ↦
      later (find_boundary_index-Boundary target ss) (find_boundary_index ss target) refl e
        (rw e at h)
]
  where
    later :
        ((j : ℕ) → find_boundary_index ss target ≡ some j → Boundary target ss j)
        → (m : Option ℕ) → find_boundary_index ss target ≡ m
        → spans target s ≡ false
        → one_later m ≡ some i
        → Boundary target (s ∷ ss) i
    later ih none found e g = cc
    later ih (some j) found e g =
        let b = ih j found in
        subst (Boundary target (s ∷ ss)) (some-injective (suc j) i g) (record {
          kept = s ∷ b.kept;
          boundary = b.boundary;
          cut = b.cut;
          parts = ap (◌∷◌ s) b.parts;
          at = b.at;
          rest = b.rest;
          spanned = b.spanned;
          before = (e, b.before);
        })
