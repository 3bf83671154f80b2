-- ===== src/Store/Saved.antt =====
-- What `save_timeline` answers with is what `load_timeline` gives.
use short_form_studio.Prelude.{
  ℕ, ◌+◌, ◌==◌, ◌≡◌, refl, sym, ap, ◌∙◌, subst, Bool, true, false, Option, none, some, List, [], ◌∷◌, inl, inr,
  arith, Bool-cases, ==_iff, All,
}
use short_form_studio.Prelude.Checked.{Result, ok, err, require, require-returns}
use short_form_studio.Prelude.Dict
use short_form_studio.Prelude.Dict.{get-put, put-cases}
use short_form_studio.Errors.{Error}
use short_form_studio.Timeline.Segment.{MediaSegment, Timeline}
use short_form_studio.Timeline.Valid.{and_true, IsValid, model_validate-IsValid}
use short_form_studio.Store.Rows.{
  TimelineRow, TimelineRows, Save, first_row, next_row, save_over, save_row, load_row, save_all,
}
use short_form_studio.Store.Service.{
  AssetOwner, owned_by, assets_owned, row_to_timeline, saved_answer, check_save, to_save, save_checked,
  save_timeline, load_timeline,
}

-- each row stands under the project that it is of
abbrev pub OwnProjects : TimelineRows → Type 0
OwnProjects rows =
    (k : ℕ) (row : TimelineRow) → Dict.get k rows ≡ some row → row.project_id ≡ k

put-OwnProjects :
    (k : ℕ) (new : TimelineRow) (rows : TimelineRows)
    → new.project_id ≡ k
    → OwnProjects rows
    → OwnProjects (Dict.put k new rows)
put-OwnProjects k new rows own owns j row h = elim (put-cases k j new row rows h) [
  | inl (e, same) ↦ ap (λ (r : TimelineRow). r.project_id) (sym same) ∙ own ∙ e
  | inr old ↦ owns j row old
]

save_row-OwnProjects :
    (a : Save) (rows : TimelineRows) → OwnProjects rows → OwnProjects (save_row a rows).1
unfolding save_row
save_row-OwnProjects a rows owns = over (Dict.get a.project_id rows) refl
  where
    over :
        (m : Option TimelineRow)
        → Dict.get a.project_id rows ≡ m
        → OwnProjects (save_over a m rows).1
    over none e = elim (Bool-cases (a.expected_revision == 0)) [
      | inr n ↦ rw n owns
      | inl n ↦ rw n (put-OwnProjects a.project_id (first_row a) rows refl owns)
    ]
    over (some old) e = elim (Bool-cases (old.workspace_id == a.workspace_id)) [
      | inr n ↦ rw n owns
      | inl n ↦ elim (Bool-cases (old.revision == a.expected_revision)) [
        | inr z ↦ rw (n, z) owns
        | inl z ↦
            rw (n, z)
              (put-OwnProjects a.project_id (next_row a old) rows (owns a.project_id old e) owns)
      ]
    ]

save_all-OwnProjects :
    (saves : List Save) (rows : TimelineRows) → OwnProjects rows → OwnProjects (save_all saves rows)
unfolding save_all
save_all-OwnProjects [] rows owns = owns
save_all-OwnProjects (a ∷ rest) rows owns =
    save_all-OwnProjects rest (save_row a rows).1 (save_row-OwnProjects a rows owns)

saved_answer-rows :
    (a : Save) (answer : Option TimelineRow × TimelineRows)
    → (saved_answer a answer).1 ≡ answer.1
saved_answer-rows a (none, rows) = refl
saved_answer-rows a (some row, rows) = refl

-- the row that a save that succeeds has put
record Stored (a : Save) (row : TimelineRow) (rows' : TimelineRows) : Type 0 where
  here : Dict.get a.project_id rows' ≡ some row
  workspace : row.workspace_id ≡ a.workspace_id
  named : row.timeline_id ≡ a.timeline_id
  content : row.segments ≡ a.segments
  numbered : row.revision ≡ a.expected_revision + 1

save_row-Stored :
    (a : Save) (rows rows' : TimelineRows) (row : TimelineRow)
    → save_row a rows ≡ (some row, rows')
    → Stored a row rows'
unfolding save_row
save_row-Stored a rows rows' row h = over (Dict.get a.project_id rows) refl h
  where
    written :
        (new : TimelineRow)
        → Stored a new (Dict.put a.project_id new rows)
        → ◌≡◌ {A = Option TimelineRow × TimelineRows}
            (some new, Dict.put a.project_id new rows)
            (some row, rows')
        → Stored a row rows'
    written new s same = subst (λ (q : TimelineRow × TimelineRows). Stored a q.0 q.1) (both same) s
      where
        both :
            ◌≡◌ {A = Option TimelineRow × TimelineRows}
              (some new, Dict.put a.project_id new rows)
              (some row, rows')
            → ◌≡◌ {A = TimelineRow × TimelineRows}
                (new, Dict.put a.project_id new rows)
                (row, rows')
        both same = cc

    over :
        (m : Option TimelineRow)
        → Dict.get a.project_id rows ≡ m
        → save_over a m rows ≡ (some row, rows')
        → Stored a row rows'
    over none e h = elim (Bool-cases (a.expected_revision == 0)) [
      | inr n ↦ absurd (ground (arith, n, h))
      | inl n ↦
          written (first_row a)
            (record {
              here = ground (arith, get-put a.project_id a.project_id (first_row a) rows);
              workspace = refl;
              named = refl;
              content = refl;
              numbered = omega (arith, (==_iff a.expected_revision 0).0 n);
            })
            (rw n at h)
    ]
    over (some old) e h = elim (Bool-cases (old.workspace_id == a.workspace_id)) [
      | inr n ↦ absurd (ground (arith, n, h))
      | inl n ↦ elim (Bool-cases (old.revision == a.expected_revision)) [
        | inr z ↦ absurd (ground (arith, n, z, h))
        | inl z ↦
            written (next_row a old)
              (record {
                here = ground (arith, get-put a.project_id a.project_id (next_row a old) rows);
                workspace = (==_iff old.workspace_id a.workspace_id).0 n;
                named = refl;
                content = refl;
                numbered = omega (arith, (==_iff old.revision a.expected_revision).0 z);
              })
              (rw (n, z) at h)
      ]
    ]

-- what `save_timeline` returned of `timeline`: every asset belongs to the project, only the revision is new,
-- and loading gives the same
pub record IsSaved (owner : AssetOwner) (project_id workspace_id expected_revision : ℕ)
    (timeline saved : Timeline) (rows' : TimelineRows) : Type 0 where
  pub owned : All (λ s. owner s.asset_id workspace_id ≡ some project_id) timeline.segments
  pub of_project : timeline.project_id ≡ project_id
  pub same : saved ≡ record timeline { revision = expected_revision + 1 }
  pub valid : IsValid saved.segments
  pub loads : load_timeline project_id workspace_id rows' ≡ ok (some saved)
  pub own_projects : OwnProjects rows'

assets_owned-All :
    (owner : AssetOwner) (project_id workspace_id : ℕ) (segments : List MediaSegment)
    → assets_owned owner project_id workspace_id segments ≡ true
    → All (λ s. owner s.asset_id workspace_id ≡ some project_id) segments
unfolding assets_owned
assets_owned-All owner project_id workspace_id [] h = tt
assets_owned-All owner project_id workspace_id (s ∷ rest) h =
    let both =
      and_true (owned_by project_id (owner s.asset_id workspace_id))
        (assets_owned owner project_id workspace_id rest) h in
    (
      of_project (owner s.asset_id workspace_id) both.0,
      assets_owned-All owner project_id workspace_id rest both.1,
    )
  where
    of_project : (m : Option ℕ) → owned_by project_id m ≡ true → m ≡ some project_id
    of_project none k = cc
    of_project (some p) k = ap some ((==_iff p project_id).0 k)

module _ (owner : AssetOwner) (meanwhile : List Save)
    (project_id workspace_id expected_revision : ℕ) (timeline saved : Timeline)
    (rows rows' : TimelineRows) where
  checked :
      check_save owner project_id workspace_id timeline ≡ ok tt
      → (timeline.project_id ≡ project_id)
        × (assets_owned owner project_id workspace_id timeline.segments ≡ true)
  unfolding check_save
  checked h =
      let (same, h₁) = require-returns (timeline.project_id == project_id) _ _ h in
      (
        (==_iff timeline.project_id project_id).0 same,
        passes (assets_owned owner project_id workspace_id timeline.segments) _ h₁,
      )
    where
      passes : (test : Bool) (e : Error) → require test e ≡ ok tt → test ≡ true
      passes true e k = refl
      passes false e k = absurd (cc)

  -- the timeline of a row, before it is validated
  abbrev timeline_of : TimelineRow → Timeline
  timeline_of row = record {
    id = row.timeline_id;
    project_id = row.project_id;
    revision = row.revision;
    segments = row.segments;
  }

  row_to_timeline-IsValid :
      (row : TimelineRow)
      → row_to_timeline row ≡ ok saved
      → (saved ≡ timeline_of row) × IsValid saved.segments
  unfolding row_to_timeline
  row_to_timeline-IsValid row answer = model_validate-IsValid (timeline_of row) saved answer

  loads_again :
      (row : TimelineRow)
      → Stored (to_save project_id workspace_id timeline expected_revision) row rows'
      → row_to_timeline row ≡ ok saved
      → load_timeline project_id workspace_id rows' ≡ ok (some saved)
  unfolding load_timeline load_row
  loads_again row s answer =
      rw (s.here, (==_iff row.workspace_id workspace_id).1 s.workspace, answer) refl

  module _
      (checks : (timeline.project_id ≡ project_id)
        × (assets_owned owner project_id workspace_id timeline.segments ≡ true))
      (owns : OwnProjects rows') where
    as_given :
        (row : TimelineRow)
        → Stored (to_save project_id workspace_id timeline expected_revision) row rows'
        → timeline_of row ≡ record timeline { revision = expected_revision + 1 }
    as_given row s =
        let of_this : row.project_id ≡ timeline.project_id =
          owns project_id row s.here ∙ sym checks.0 in
        rw (s.named, of_this, s.numbered, s.content) refl

    of_row :
        (row : TimelineRow)
        → Stored (to_save project_id workspace_id timeline expected_revision) row rows'
        → row_to_timeline row ≡ ok saved
        → IsSaved owner project_id workspace_id expected_revision timeline saved rows'
    of_row row s answer =
        let (same, valid) = row_to_timeline-IsValid row answer in
        record {
          owned = assets_owned-All owner project_id workspace_id timeline.segments checks.1;
          of_project = checks.0;
          same = same ∙ as_given row s;
          valid = valid;
          loads = loads_again row s answer;
          own_projects = owns;
        }

    of_answer :
        (answer : Option TimelineRow × TimelineRows)
        → save_row
            (to_save project_id workspace_id timeline expected_revision)
            (save_all meanwhile rows)
          ≡ answer
        → saved_answer (to_save project_id workspace_id timeline expected_revision) answer
          ≡ (ok saved, rows')
        → IsSaved owner project_id workspace_id expected_revision timeline saved rows'
    of_answer (none, rows₁) e h = absurd (cc)
    of_answer (some row, rows₁) e h =
        let stored =
          save_row-Stored (to_save project_id workspace_id timeline expected_revision) _ rows₁ row
            e in
        of_row row
          (subst (Stored (to_save project_id workspace_id timeline expected_revision) row)
            (ap (λ q. q.1) h) stored)
          (ap (λ q. q.0) h)

  -- Where `save_timeline` returns a timeline, each row of the storage being of the project that it stands
  -- under, whatever others save meanwhile: the timeline given is of this project and so is, by the owner
  -- of assets, the asset of each of its segments; what is returned is that timeline with the revision after the
  -- expected one and nothing else changed, it is valid, and `load_timeline` returns it; and each row is still of
  -- the project that it stands under.
  pub save_timeline-IsSaved :
      OwnProjects rows
      → save_timeline owner meanwhile project_id workspace_id timeline expected_revision rows
        ≡ (ok saved, rows')
      → IsSaved owner project_id workspace_id expected_revision timeline saved rows'
  unfolding save_timeline
  save_timeline-IsSaved owns h = on_check (check_save owner project_id workspace_id timeline) refl h
    where
      a : Save
      a = to_save project_id workspace_id timeline expected_revision

      owns_after :
          saved_answer a (save_row a (save_all meanwhile rows)) ≡ (ok saved, rows')
          → OwnProjects rows'
      owns_after h =
          subst OwnProjects
            (sym (saved_answer-rows a (save_row a (save_all meanwhile rows))) ∙ ap (λ q. q.1) h)
            (save_row-OwnProjects a (save_all meanwhile rows)
              (save_all-OwnProjects meanwhile rows owns))

      on_check :
          (c : Result Error (Unit {0}))
          → check_save owner project_id workspace_id timeline ≡ c
          → save_checked c
              (to_save project_id workspace_id timeline expected_revision)
              meanwhile
              rows
            ≡ (ok saved, rows')
          → IsSaved owner project_id workspace_id expected_revision timeline saved rows'
      on_check (err e) c h = absurd (cc)
      on_check (ok u) c h = of_answer (checked c) (owns_after h) _ refl h
