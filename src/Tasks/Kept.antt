-- ===== src/Tasks/Kept.antt =====
-- What no operation on tasks changes: a row stays where it is, with its run, type and Celery id, and
-- a success is final.
use short_form_studio.Prelude.{
  ℕ, ◌==◌, ◌<◌, String, ◌≡◌, refl, sym, ◌∙◌, subst, Bool, true, Option, none, some, inl, inr, arith,
  Bool-cases, ==_iff, some-injective,
}
use short_form_studio.Prelude.Dict
use short_form_studio.Prelude.Dict.{get-put, put-cases}
use short_form_studio.Tasks.Row.{
  TaskRow, TaskStorage, row_id_of, write, guarded, guarded_row, guarded_id, guarded_celery,
}

pub record Keeps (row row' : TaskRow) : Type 0 where
  pub same_run : row'.run_id ≡ row.run_id
  pub same_type : row'.task_type ≡ row.task_type
  pub same_celery : row'.celery_task_id ≡ row.celery_task_id
  pub final : row.status ≡ "success" → row'.status ≡ "success"

pub Keeps-refl : (row : TaskRow) → Keeps row row
Keeps-refl row = record { same_run = refl; same_type = refl; same_celery = refl; final = λ h. h }

pub Keeps-trans : {a b c : TaskRow} → Keeps a b → Keeps b c → Keeps a c
Keeps-trans p q = record {
  same_run = q.same_run ∙ p.same_run;
  same_type = q.same_type ∙ p.same_type;
  same_celery = q.same_celery ∙ p.same_celery;
  final = λ h. q.final (p.final h);
}

-- each row of `s` has its successor in `s'`, and ids given are not given again
pub record Preserves (s s' : TaskStorage) : Type 0 where
  pub ids : (k : ℕ) → k < s.next_id → k < s'.next_id
  pub rows :
      (k : ℕ) (row : TaskRow)
      → Dict.get k s.rows ≡ some row
      → (row' : TaskRow) × (Dict.get k s'.rows ≡ some row') × Keeps row row'

-- only ids that were given have rows
abbrev pub Fresh : TaskStorage → Type 0
Fresh s = (k : ℕ) (row : TaskRow) → Dict.get k s.rows ≡ some row → k < s.next_id

-- a change that keeps the ids fresh
abbrev pub Safe : TaskStorage → TaskStorage → Type 0
Safe s s' = Fresh s → Fresh s' × Preserves s s'

pub Preserves-refl : (s : TaskStorage) → Preserves s s
Preserves-refl s = record { ids = λ k h. h; rows = λ k row h. (row, h, Keeps-refl row) }

pub Preserves-trans : {a b c : TaskStorage} → Preserves a b → Preserves b c → Preserves a c
Preserves-trans p q = record {
  ids = λ k h. q.ids k (p.ids k h);
  rows = λ k row h.
      let (mid, at, kept) = p.rows k row h in
      let (last, here, kept') = q.rows k mid at in (last, here, Keeps-trans kept kept');
}

pub unchanged : (s : TaskStorage) → Safe s s
unchanged s f = (f, Preserves-refl s)

-- a write on the row that is there
written :
    (k : ℕ) (row new : TaskRow) (s : TaskStorage)
    → Dict.get k s.rows ≡ some row
    → Keeps row new
    → Preserves s (write k new s)
written k row new s here kept = record {
  ids = λ j h. h;
  rows = λ j old h. elim (Bool-cases (k == j)) [
    | inl e ↦
        let same = (==_iff k j).0 e in
        (
          new,
          ground (arith, get-put k j new s.rows, e),
          subst (λ x. Keeps x new)
              (some-injective row old
                (sym here ∙ subst (λ i. Dict.get i s.rows ≡ some old) (sym same) h))
              kept,
        )
    | inr e ↦ (old, ground (arith, get-put k j new s.rows, e, h), Keeps-refl old)
  ];
}

written_Fresh :
    (k : ℕ) (row new : TaskRow) (s : TaskStorage)
    → Dict.get k s.rows ≡ some row
    → Fresh s
    → Fresh (write k new s)
written_Fresh k row new s here f j found h = elim (put-cases k j new found s.rows h) [
  | inl (e, same) ↦ subst (λ i. i < s.next_id) e (f k row here)
  | inr old ↦ f j found old
]

pub guarded-Safe :
    (k : ℕ) (test : TaskRow → Bool) (change : TaskRow → TaskRow) (s : TaskStorage)
    → ((row : TaskRow) → test row ≡ true → Keeps row (change row))
    → Safe s (guarded k test change s).1
unfolding guarded
guarded-Safe k test change s keeps = on_row (Dict.get k s.rows) refl
  where
    on_row : (m : Option TaskRow) → Dict.get k s.rows ≡ m → Safe s (guarded_row k test change m s).1
    on_row none e = unchanged s
    on_row (some row) e = elim (Bool-cases (test row)) [
      | inl t ↦ rw t (λ f.
          (written_Fresh k row (change row) s e f, written k row (change row) s e (keeps row t)))
      | inr t ↦ rw t (unchanged s)
    ]

pub guarded_id-Safe :
    (m : Option ℕ) (test : TaskRow → Bool) (change : TaskRow → TaskRow) (s : TaskStorage)
    → ((row : TaskRow) → test row ≡ true → Keeps row (change row))
    → Safe s (guarded_id m test change s).1
guarded_id-Safe none test change s keeps = unchanged s
guarded_id-Safe (some k) test change s keeps = guarded-Safe k test change s keeps

pub guarded_celery-Safe :
    (celery_task_id : String) (test : TaskRow → Bool) (change : TaskRow → TaskRow) (s : TaskStorage)
    → ((row : TaskRow) → test row ≡ true → Keeps row (change row))
    → Safe s (guarded_celery celery_task_id test change s).1
unfolding guarded_celery
guarded_celery-Safe celery_task_id test change s keeps =
    guarded_id-Safe (row_id_of celery_task_id s.by_celery) test change s keeps
