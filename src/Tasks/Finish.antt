-- ===== src/Tasks/Finish.antt =====
-- The holder of a claim ends its task, and ends it once.
use short_form_studio.Prelude.{ℕ, String, ◌≡◌, refl, true, false, Option, none, some, eq_iff, arith}
use short_form_studio.Prelude.Dict
use short_form_studio.Prelude.Dict.{get-put}
use short_form_studio.Tasks.Row.{
  TaskRow, TaskStorage, row_id_of, is_text, write, guarded, guarded_celery,
}
use short_form_studio.Tasks.Storage.{released, ended}
use short_form_studio.Tasks.Claims.{is_claimed_by, finish_if_claimed}
use short_form_studio.Tasks.Fencing.{Held, HeldAt}

is_claimed_by-Held :
    (token : String) (row : TaskRow) → Held token row → is_claimed_by token row ≡ true
unfolding is_claimed_by is_text
is_claimed_by-Held token row h = rw (h.running, h.by_token, (eq_iff token token).1 refl)

module _ (token celery : String) (k now : ℕ) (status : String) (code message : Option String)
    (s : TaskStorage) (h : HeldAt token k s) (id : row_id_of celery s.by_celery ≡ some k) where
  abbrev done_row : TaskRow
  done_row = released (ended status (some now) code message h.row)

  ends :
      finish_if_claimed now celery token status code message s ≡ (some done_row, write k done_row s)
  unfolding finish_if_claimed guarded_celery guarded
  ends = rw (id, h.here, is_claimed_by-Held token h.row h.held)

  unclaimed : (row : TaskRow) → row.claim_token ≡ none → is_claimed_by token row ≡ false
  unfolding is_claimed_by is_text
  unclaimed row e = rw e (ground arith)

  second_end :
      (later : ℕ) (status' : String) (code' message' : Option String) (row : TaskRow)
      → row.claim_token ≡ none
      → finish_if_claimed later celery token status' code' message' (write k row s)
        ≡ (none, write k row s)
  unfolding finish_if_claimed guarded_celery guarded
  second_end later status' code' message' row e = rw (id, here, unclaimed row e)
    where
      here : Dict.get k (Dict.put k row s.rows) ≡ some row
      here = ground (arith, get-put k k row s.rows)

  -- The holder of a claim can end its task: the row gets the status given and loses the token. After that the
  -- same token ends the task no more, whatever the second status is.
  pub finish_if_claimed-once :
      (later : ℕ) (status' : String) (code' message' : Option String)
      → (row : TaskRow) × (finish_if_claimed now celery token status code message s
          ≡ (some row, write k row s))
        × (row.status ≡ status)
        × (row.claim_token ≡ none)
        × (finish_if_claimed later celery token status' code' message' (write k row s)
            ≡ (none, write k row s))
  unfolding ended
  finish_if_claimed-once later status' code' message' =
      (done_row, ends, refl, refl, second_end later status' code' message' done_row refl)
