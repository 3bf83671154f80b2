-- ===== src/Run/Evolution.antt =====
-- How the storage of runs changes over any sequence of operations: a row that still has its version
-- is unchanged, and an id is never given twice.
use short_form_studio.Prelude.{
  ℕ, ◌+◌, ◌≤◌, ◌<◌, ◌≡◌, refl, sym, ap, ◌∙◌, subst, Option, some, List, [], ◌∷◌, ◌⊎◌, inl, inr,
  arith,
}
use short_form_studio.Prelude.Dict
use short_form_studio.Prelude.Dict.{put-cases, remove-found}
use short_form_studio.Run.Row.{RunRow, Update, update_column, update_columns, touch}
use short_form_studio.Run.Storage.{RunStorage, saved_run, get_run, store}

-- each row stands under its own id, which has been given
pub record IsWellFormed (s : RunStorage) : Type 0 where
  pub own_id : (k : ℕ) (row : RunRow) → Dict.get k s.rows ≡ some row → row.id ≡ k
  pub given : (k : ℕ) (row : RunRow) → Dict.get k s.rows ≡ some row → k < s.next_id

-- the row of before, unchanged or of an earlier version
abbrev pub Earlier : RunRow → RunRow → Type 0
Earlier row row' = (row ≡ row') ⊎ (row.version < row'.version)

pub record Evolves (s s' : RunStorage) : Type 0 where
  pub ids : s.next_id ≤ s'.next_id
  pub rows :
      (k : ℕ) (row' : RunRow)
      → Dict.get k s'.rows ≡ some row'
      → k < s.next_id
      → (row : RunRow) × (Dict.get k s.rows ≡ some row) × Earlier row row'

pub Evolves-refl : (s : RunStorage) → Evolves s s
Evolves-refl s = record { ids = omega arith; rows = λ k row h lt. (row, h, inl refl) }

Earlier-trans : (a b c : RunRow) → Earlier a b → Earlier b c → Earlier a c
Earlier-trans a b c (inl p) q = subst (λ x. Earlier x c) (sym p) q
Earlier-trans a b c (inr p) (inl q) = subst (Earlier a) q (inr p)
Earlier-trans a b c (inr p) (inr q) = inr (omega (arith, p, q))

pub Evolves-trans : {a b c : RunStorage} → Evolves a b → Evolves b c → Evolves a c
Evolves-trans p q = record {
  ids = omega (arith, p.ids, q.ids);
  rows = λ k row h lt.
      let (mid, at_b, later) = q.rows k row h (omega (arith, lt, p.ids)) in
      let (old, at_a, earlier) = p.rows k mid at_b lt in
      (old, at_a, Earlier-trans old mid row earlier later);
}

version-touch :
    (now : ℕ) (row : RunRow) (updates : List Update)
    → (touch now row updates).version ≡ row.version + 1
unfolding touch
version-touch now row updates = refl

id-update_columns :
    (updates : List Update) (row : RunRow) → (update_columns row updates).id ≡ row.id
unfolding update_columns
id-update_columns [] row = refl
id-update_columns (u ∷ rest) row =
    id-update_columns rest (update_column row u) ∙ id-update_column row u
  where
    id-update_column : (row : RunRow) (u : Update) → (update_column row u).id ≡ row.id
    id-update_column row u = ground arith

id-touch : (now : ℕ) (row : RunRow) (updates : List Update) → (touch now row updates).id ≡ row.id
unfolding touch
id-touch now row updates = id-update_columns updates row

module _ (now run_id : ℕ) (updates : List Update) (row : RunRow) (s : RunStorage) where
  -- a storage in which one row that is there was touched
  touched : Dict.get run_id s.rows ≡ some row → Evolves s (store run_id (touch now row updates) s)
  touched here = record {
    ids = omega arith;
    rows = λ k row' h lt. elim (put-cases run_id k (touch now row updates) row' s.rows h) [
      | inl (e, same) ↦ (
        row,
        subst (λ j. Dict.get j s.rows ≡ some row) e here,
        inr (omega (arith, version-touch now row updates, ap (λ (r : RunRow). r.version) same)),
      )
      | inr old ↦ (row', old, inl refl)
    ];
  }

  touched-IsWellFormed :
      IsWellFormed s
      → Dict.get run_id s.rows ≡ some row
      → IsWellFormed (store run_id (touch now row updates) s)
  touched-IsWellFormed v here = record {
    own_id = λ k row' h. elim (put-cases run_id k (touch now row updates) row' s.rows h) [
      | inl (e, same) ↦
          ap (λ (r : RunRow). r.id) (sym same)
          ∙ id-touch now row updates
          ∙ v.own_id run_id row here
          ∙ e
      | inr old ↦ v.own_id k row' old
    ];
    given = λ k row' h. elim (put-cases run_id k (touch now row updates) row' s.rows h) [
      | inl (e, same) ↦ subst (λ j. j < s.next_id) e (v.given run_id row here)
      | inr old ↦ v.given k row' old
    ];
  }

-- a change that keeps the invariant
abbrev pub Allowed : RunStorage → RunStorage → Type 0
Allowed s s' = IsWellFormed s → IsWellFormed s' × Evolves s s'

pub unchanged : (s : RunStorage) → Allowed s s
unchanged s v = (v, Evolves-refl s)

pub get_run-found :
    (run_id : ℕ) (w : Option ℕ) (s : RunStorage) (row : RunRow)
    → get_run run_id w s ≡ some row
    → Dict.get run_id s.rows ≡ some row
unfolding get_run
get_run-found run_id w s row h = ground arith

pub touch-Allowed :
    (now run_id : ℕ) (updates : List Update) (row : RunRow) (s : RunStorage)
    → Dict.get run_id s.rows ≡ some row
    → Allowed s (store run_id (touch now row updates) s)
touch-Allowed now run_id updates row s here v =
    (touched-IsWellFormed now run_id updates row s v here, touched now run_id updates row s here)

pub created :
    (now : ℕ) (row : RunRow) (s : RunStorage)
    → Allowed s (record s {
      rows = Dict.put s.next_id (saved_run now s.next_id row) s.rows;
      next_id = s.next_id + 1;
    })
unfolding saved_run
created now row s v = (
  record {
    own_id = λ k row' h. elim (put-cases s.next_id k (saved_run now s.next_id row) row' s.rows h) [
      | inl (e, same) ↦ ap (λ (r : RunRow). r.id) (sym same) ∙ e
      | inr old ↦ v.own_id k row' old
    ];
    given = λ k row' h. elim (put-cases s.next_id k (saved_run now s.next_id row) row' s.rows h) [
      | inl (e, same) ↦ omega (arith, e)
      | inr old ↦ omega (arith, v.given k row' old)
    ];
  },
  record {
    ids = omega arith;
    rows = λ k row' h lt. elim (put-cases s.next_id k (saved_run now s.next_id row) row' s.rows h) [
      | inl (e, same) ↦ absurd (omega (arith, e, lt))
      | inr old ↦ (row', old, inl refl)
    ];
  },
)

pub removed :
    (run_id : ℕ) (s : RunStorage) → Allowed s (record s { rows = Dict.remove run_id s.rows })
removed run_id s v = (
  record {
    own_id = λ k row h. v.own_id k row (remove-found run_id k row s.rows h);
    given = λ k row h. v.given k row (remove-found run_id k row s.rows h);
  },
  record {
    ids = omega arith;
    rows = λ k row h lt. (row, remove-found run_id k row s.rows h, inl refl);
  },
)
