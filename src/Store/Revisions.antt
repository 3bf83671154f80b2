-- ===== src/Store/Revisions.antt =====
-- The revisions of a stored timeline: no save is lost.
use short_form_studio.Prelude.{
  ℕ, ◌+◌, ◌==◌, ◌≤◌, ◌≡◌, refl, sym, ap, ◌∙◌, subst, false, Option, none, some, List, [], ◌∷◌, inl,
  inr, arith, Bool-cases, ==_iff, some-injective,
}
use short_form_studio.Prelude.Dict
use short_form_studio.Prelude.Dict.{get-put}
use short_form_studio.Store.Rows.{
  TimelineRow, TimelineRows, Save, first_row, next_row, save_over, save_row, save_all,
}

-- the project has a timeline of at least this revision
pub record HasRevision (project_id revision : ℕ) (rows : TimelineRows) : Type 0 where
  pub row : TimelineRow
  pub here : Dict.get project_id rows ≡ some row
  pub at_least : revision ≤ row.revision

module _ (p r : ℕ) where
  put-HasRevision :
      (q : ℕ) (old new : TimelineRow) (rows : TimelineRows)
      → Dict.get q rows ≡ some old
      → old.revision ≤ new.revision
      → HasRevision p r rows
      → HasRevision p r (Dict.put q new rows)
  put-HasRevision q old new rows at grows h = elim (Bool-cases (q == p)) [
    | inr e ↦ record {
      row = h.row;
      here = ground (arith, get-put q p new rows, e, h.here);
      at_least = h.at_least;
    }
    | inl e ↦
        let same =
          some-injective old h.row
            (sym (subst (λ i. Dict.get i rows ≡ some old) ((==_iff q p).0 e) at) ∙ h.here) in
        record {
          row = new;
          here = ground (arith, get-put q p new rows, e);
          at_least = omega (arith, h.at_least, grows, ap (λ (x : TimelineRow). x.revision) same);
        }
  ]

  absent-HasRevision :
      (q : ℕ) (new : TimelineRow) (rows : TimelineRows)
      → Dict.get q rows ≡ none
      → HasRevision p r rows
      → HasRevision p r (Dict.put q new rows)
  absent-HasRevision q new rows absent h = elim (Bool-cases (q == p)) [
    | inr e ↦ record {
      row = h.row;
      here = ground (arith, get-put q p new rows, e, h.here);
      at_least = h.at_least;
    }
    | inl e ↦
        absurd
          (clash (sym (subst (λ i. Dict.get i rows ≡ none) ((==_iff q p).0 e) absent) ∙ h.here))
  ]
    where
      clash : none ≡ some h.row → ⊥
      clash k = cc

  save_row-HasRevision :
      (a : Save) (rows : TimelineRows) → HasRevision p r rows → HasRevision p r (save_row a rows).1
  unfolding save_row
  save_row-HasRevision a rows h = over (Dict.get a.project_id rows) refl
    where
      over :
          (m : Option TimelineRow)
          → Dict.get a.project_id rows ≡ m
          → HasRevision p r (save_over a m rows).1
      over none e = elim (Bool-cases (a.expected_revision == 0)) [
        | inr n ↦ rw n h
        | inl n ↦ rw n (absent-HasRevision a.project_id (first_row a) rows e h)
      ]
      over (some old) e = elim (Bool-cases (old.workspace_id == a.workspace_id)) [
        | inr n ↦ rw n h
        | inl n ↦ rw n (elim (Bool-cases (old.revision == a.expected_revision)) [
          | inr z ↦ rw z h
          | inl z ↦ rw z (put-HasRevision a.project_id old (next_row a old) rows e (omega arith) h)
        ])
      ]

  save_all-HasRevision :
      (saves : List Save) (rows : TimelineRows)
      → HasRevision p r rows
      → HasRevision p r (save_all saves rows)
  unfolding save_all
  save_all-HasRevision [] rows h = h
  save_all-HasRevision (a ∷ rest) rows h =
      save_all-HasRevision rest (save_row a rows).1 (save_row-HasRevision a rows h)

saved-HasRevision :
    (a : Save) (rows rows' : TimelineRows) (row : TimelineRow)
    → save_row a rows ≡ (some row, rows')
    → HasRevision a.project_id (a.expected_revision + 1) rows'
unfolding save_row
saved-HasRevision a rows rows' row h = over (Dict.get a.project_id rows) refl h
  where
    written :
        (new : TimelineRow)
        → a.expected_revision + 1 ≤ new.revision
        → Dict.put a.project_id new rows ≡ rows'
        → HasRevision a.project_id (a.expected_revision + 1) rows'
    written new reaches same =
        subst (HasRevision a.project_id (a.expected_revision + 1)) same (record {
          row = new;
          here = ground (arith, get-put a.project_id a.project_id new rows);
          at_least = reaches;
        })

    over :
        (m : Option TimelineRow)
        → Dict.get a.project_id rows ≡ m
        → save_over a m rows ≡ (some row, rows')
        → HasRevision a.project_id (a.expected_revision + 1) rows'
    over none e h = elim (Bool-cases (a.expected_revision == 0)) [
      | inr n ↦ absurd (ground (arith, n, h))
      | inl n ↦
          written (first_row a) (omega (arith, (==_iff a.expected_revision 0).0 n))
            (ap (λ q. q.1) (rw n at h))
    ]
    over (some old) e h = elim (Bool-cases (old.workspace_id == a.workspace_id)) [
      | inr n ↦ absurd (ground (arith, n, h))
      | inl n ↦ elim (Bool-cases (old.revision == a.expected_revision)) [
        | inr z ↦ absurd (ground (arith, n, z, h))
        | inl z ↦
            written (next_row a old) (omega (arith, (==_iff old.revision a.expected_revision).0 z))
              (ap (λ q. q.1) (rw (n, z) at h))
      ]
    ]

-- a save that expects an earlier revision than the stored one
refused :
    (b : Save) (rows : TimelineRows)
    → HasRevision b.project_id (b.expected_revision + 1) rows
    → save_row b rows ≡ (none, rows)
unfolding save_row
refused b rows h = rw h.here (elim (Bool-cases (h.row.workspace_id == b.workspace_id)) [
  | inr n ↦ rw n
  | inl n ↦ rw (n, behind)
])
  where
    behind : (h.row.revision == b.expected_revision) ≡ false
    behind = elim (Bool-cases (h.row.revision == b.expected_revision)) [
      | inl e ↦ absurd (omega (arith, (==_iff h.row.revision b.expected_revision).0 e, h.at_least))
      | inr e ↦ e
    ]

-- After a save that expected a revision has succeeded, and any saves since, of whatever projects and
-- workspaces, every further save of the project that expects the same revision is refused and changes nothing.
pub stale_save_refused :
    (a b : Save) (rows rows' : TimelineRows) (row : TimelineRow) (since : List Save)
    → save_row a rows ≡ (some row, rows')
    → b.project_id ≡ a.project_id
    → b.expected_revision ≡ a.expected_revision
    → save_row b (save_all since rows') ≡ (none, save_all since rows')
stale_save_refused a b rows rows' row since h p r = refused b (save_all since rows') (
    save_all-HasRevision b.project_id (b.expected_revision + 1) since rows'
      (rw (p, r) (saved-HasRevision a rows rows' row h)))
