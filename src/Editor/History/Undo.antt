-- ===== src/Editor/History/Undo.antt =====
-- Undo and redo are inverse to each other, and undo takes back an accepted edit.
use short_form_studio.Prelude.{◌+◌, ◌≡◌, refl, List, [], ◌∷◌, arith}
use short_form_studio.Prelude.Checked.{Result, ok, err}
use short_form_studio.Errors.{Error}
use short_form_studio.Timeline.Segment.{Timeline}
use short_form_studio.Editor.Command.{EditorCommand}
use short_form_studio.Editor.History.Defs.{
  EditorHistory, snapshot, accept, finish, apply, apply_batch, apply_batch_if_generation, undo,
  redo, Call, do_apply, do_batch, do_proposal, do_undo, do_redo, call,
}

-- A redo after an undo that succeeds gives back the whole history that the undo started from, and
-- an undo after a redo that succeeds gives back the one that the redo started from.
pub undo-redo_inverse :
    (h : EditorHistory) (t : Timeline)
    → ((undo h).0 ≡ ok t → (redo (undo h).1).1 ≡ h) × ((redo h).0 ≡ ok t → (undo (redo h).1).1 ≡ h)
unfolding undo redo snapshot
undo-redo_inverse h t = (λ p. ground arith, λ p. ground arith)

finish_error_unchanged :
    (h : EditorHistory) (r : Result Error Timeline) (e : Error)
    → (finish h r).0 ≡ err e
    → (finish h r).1 ≡ h
finish_error_unchanged h (ok t) e p = cc
finish_error_unchanged h (err d) e p = refl

apply_batch_error_unchanged :
    (commands : List EditorCommand) (h : EditorHistory) (e : Error)
    → (apply_batch commands h).0 ≡ err e
    → (apply_batch commands h).1 ≡ h
unfolding apply_batch
apply_batch_error_unchanged [] h e p = refl
apply_batch_error_unchanged (c ∷ cs) h e p = finish_error_unchanged h _ e p

-- A call that raises, whichever it is and whatever its error, leaves the history as it was.
pub call_error_unchanged :
    (c : Call) (h : EditorHistory) (e : Error) → (call c h).0 ≡ err e → (call c h).1 ≡ h
unfolding call apply apply_batch_if_generation undo redo
call_error_unchanged (do_apply command) h e p = finish_error_unchanged h _ e p
call_error_unchanged (do_batch commands) h e p = apply_batch_error_unchanged commands h e p
call_error_unchanged (do_proposal commands generation) h e p =
    ground (arith, apply_batch_error_unchanged commands h e)
call_error_unchanged do_undo h e p = ground arith
call_error_unchanged do_redo h e p = ground arith

-- Undo after an accepted command returns the timeline, the generation and the past of before the
-- command; only the redo branch differs, and holds the edited state alone.
pub undo-apply :
    (command : EditorCommand) (h : EditorHistory) (t : Timeline)
    → (apply command h).0 ≡ ok t
    → undo (apply command h).1 ≡ (
      ok h.present,
      record h { future = record { timeline = t; generation = h.generation + 1 } ∷ [] },
    )
unfolding apply undo accept snapshot
undo-apply command h t p = ground arith

-- One accepted batch is one step for undo, however many commands it holds.
pub undo-apply_batch :
    (commands : List EditorCommand) (h : EditorHistory) (t : Timeline)
    → (apply_batch commands h).0 ≡ ok t
    → undo (apply_batch commands h).1 ≡ (
      ok h.present,
      record h { future = record { timeline = t; generation = h.generation + 1 } ∷ [] },
    )
unfolding apply_batch undo accept snapshot
undo-apply_batch [] h t p = cc
undo-apply_batch (c ∷ cs) h t p = ground arith
