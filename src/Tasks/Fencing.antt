-- ===== src/Tasks/Fencing.antt =====
-- The holder of a claim: what others can do to the row of a task that is claimed with a token.
use short_form_studio.Prelude.{
  ℕ, ◌==◌, String, ◌≡◌, ◌≢◌, refl, sym, ◌∙◌, subst, Bool, true, false, not, Option, none, some,
  List, inl, inr, eq_iff, arith, Bool-cases, ==_iff, some-injective,
}
use short_form_studio.Prelude.Dict
use short_form_studio.Prelude.Dict.{get-put}
use short_form_studio.Run.Storage.{mem_text}
use short_form_studio.Tasks.Row.{
  TaskRow, TaskStorage, row_id_of, is_text, active, same_option, write, guarded, guarded_row,
  guarded_id, guarded_celery,
}
use short_form_studio.Tasks.Storage.{
  NewTask, is_held, taken_over, saved_task, add_task, existing_id, create_at, create_task,
}
use short_form_studio.Tasks.Claims.{is_claimed_by, finish_if_claimed}
use short_form_studio.Tasks.Broker.{
  promote_pending_to_queued, id_or_search, set_epoch, set_observed_broker_epoch, has_active,
  complete_broker_cleanup,
}
use short_form_studio.Tasks.Kept.{Fresh}
use short_form_studio.Tasks.ClaimSteps.{in_epoch, get-assign_epoch}

-- the row is claimed with this token
pub record Held (token : String) (row : TaskRow) : Type 0 where
  pub running : row.status ≡ "running"
  pub by_token : row.claim_token ≡ some token
  pub clean : row.error_code ≡ none

-- there is a row under `k`, and it is claimed
pub record HeldAt (token : String) (k : ℕ) (s : TaskStorage) : Type 0 where
  pub row : TaskRow
  pub here : Dict.get k s.rows ≡ some row
  pub held : Held token row

pub differ : false ≡ true → ⊥
differ h = cc

module _ (token : String) (k j : ℕ) (test : TaskRow → Bool) (change : TaskRow → TaskRow)
    (s : TaskStorage) (refuses : (row : TaskRow) → Held token row → test row ≡ false) where
  -- an operation that refuses a claimed row does not change it
  pub guarded-HeldAt : HeldAt token k s → HeldAt token k (guarded j test change s).1
  unfolding guarded
  guarded-HeldAt h = on_row (Dict.get j s.rows) refl
    where
      on_row :
          (m : Option TaskRow)
          → Dict.get j s.rows ≡ m
          → HeldAt token k (guarded_row j test change m s).1
      on_row none e = h
      on_row (some row) e = elim (Bool-cases (test row)) [
        | inr t ↦ rw t h
        | inl t ↦ rw t (elsewhere row e t)
      ]
        where
          elsewhere :
              (row : TaskRow)
              → Dict.get j s.rows ≡ some row
              → test row ≡ true
              → HeldAt token k (write j (change row) s)
          elsewhere row e t = elim (Bool-cases (j == k)) [
            | inl same ↦
                let there : Dict.get j s.rows ≡ some h.row =
                  subst (λ i. Dict.get i s.rows ≡ some h.row) (sym ((==_iff j k).0 same)) h.here in
                let one = some-injective h.row row (sym there ∙ e) in
                absurd
                  (differ (sym (refuses h.row h.held) ∙ subst (λ x. test x ≡ true) (sym one) t))
            | inr other ↦ record {
              row = h.row;
              here = ground (arith, get-put j k (change row) s.rows, other, h.here);
              held = h.held;
            }
          ]

module _ (token : String) (k : ℕ) where
  guarded_id-HeldAt :
      (m : Option ℕ) (test : TaskRow → Bool) (change : TaskRow → TaskRow) (s : TaskStorage)
      → ((row : TaskRow) → Held token row → test row ≡ false)
      → HeldAt token k s
      → HeldAt token k (guarded_id m test change s).1
  guarded_id-HeldAt none test change s refuses h = h
  guarded_id-HeldAt (some j) test change s refuses h =
      guarded-HeldAt token k j test change s refuses h

  pub guarded_celery-HeldAt :
      (celery : String) (test : TaskRow → Bool) (change : TaskRow → TaskRow) (s : TaskStorage)
      → ((row : TaskRow) → Held token row → test row ≡ false)
      → HeldAt token k s
      → HeldAt token k (guarded_celery celery test change s).1
  unfolding guarded_celery
  guarded_celery-HeldAt celery test change s =
      guarded_id-HeldAt (row_id_of celery s.by_celery) test change s

  pub creating-HeldAt :
      (now : ℕ) (new : NewTask) (s : TaskStorage)
      → Fresh s
      → HeldAt token k s
      → HeldAt token k (create_task now new s).1
  unfolding create_task add_task is_held mem_text
  creating-HeldAt now new s f h = at (existing_id new s)
    where
      not_given : (s.next_id == k) ≡ false
      not_given = elim (Bool-cases (s.next_id == k)) [
        | inl e ↦ absurd (omega (arith, (==_iff s.next_id k).0 e, f k h.row h.here))
        | inr e ↦ e
      ]

      at : (m : Option ℕ) → HeldAt token k (create_at now new m s).1
      at none = record {
        row = h.row;
        here =
            ground
              (arith, get-put s.next_id k (saved_task now s.next_id new) s.rows, not_given, h.here);
        held = h.held;
      }
      at (some j) =
          guarded-HeldAt token k j (λ row. not (is_held row)) (taken_over new) s
            (λ row held. rw held.running refl) h

  pub promoting-HeldAt :
      (celery : String) (s : TaskStorage)
      → HeldAt token k s
      → HeldAt token k (promote_pending_to_queued celery s).1
  unfolding promote_pending_to_queued
  promoting-HeldAt celery s =
      guarded_id-HeldAt (id_or_search celery (row_id_of celery s.by_celery) s) _ _ s
        (λ row held. rw held.running refl)

  pub finishing-HeldAt :
      (now : ℕ) (celery other status : String) (code message : Option String) (s : TaskStorage)
      → token ≢ other
      → HeldAt token k s
      → HeldAt token k (finish_if_claimed now celery other status code message s).1
  unfolding finish_if_claimed is_claimed_by is_text
  finishing-HeldAt now celery other status code message s differs =
      guarded_celery-HeldAt celery (is_claimed_by other) _ s
        (λ row held. rw (held.running, held.by_token) (ground (arith, eq_iff token other, differs)))

  in_epoch-Held :
      (epoch : String) (row : TaskRow) → Held token row → Held token (in_epoch epoch row)
  in_epoch-Held epoch row held = elim (Bool-cases (mem_text row.status active)) [
    | inl e ↦ rw e (record { running = held.running; by_token = held.by_token; clean = held.clean })
    | inr e ↦ rw e held
  ]

  pub observing-HeldAt :
      (epoch : String) (expected : Option String) (generations : List String) (s : TaskStorage)
      → HeldAt token k s
      → HeldAt token k (set_observed_broker_epoch epoch expected generations s).1
  unfolding set_observed_broker_epoch
  observing-HeldAt epoch expected generations s h = by_observed expected s.observed_broker_epoch
    where
      by_observed :
          (expected observed : Option String)
          → HeldAt token k (set_epoch epoch expected generations observed s).1
      by_observed (some e) none = h
      by_observed none none = record {
        row = in_epoch epoch h.row;
        here = get-assign_epoch epoch k s.rows h.row h.here;
        held = in_epoch-Held epoch h.row h.held;
      }
      by_observed expected (some observed) =
          elim (Bool-cases (same_option (some observed) expected)) [
            | inl e ↦ rw e (record { row = h.row; here = h.here; held = h.held })
            | inr e ↦ rw e h
          ]

  pub completing-HeldAt :
      (generation : String) (s : TaskStorage)
      → HeldAt token k s
      → HeldAt token k (complete_broker_cleanup generation s).1
  unfolding complete_broker_cleanup
  completing-HeldAt generation s h = elim (Bool-cases (has_active generation s.rows)) [
    | inl e ↦ rw e h
    | inr e ↦ rw e (record { row = h.row; here = h.here; held = h.held })
  ]
