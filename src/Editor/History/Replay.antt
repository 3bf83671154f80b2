-- ===== src/Editor/History/Replay.antt =====
-- Sequences of edits: undoing them all, batches against single commands, and generations.
use short_form_studio.Prelude.{
  ℕ, zero, suc, ◌+◌, ◌≡◌, ◌≢◌, refl, ap, List, [], ◌∷◌, arith, replicate, length, map, ◌==◌,
  Bool-cases, inl, inr,
}
use short_form_studio.Prelude.Checked.{Result, ok, err, bind-returns}
use short_form_studio.Errors.{Error, version_conflict}
use short_form_studio.Timeline.Segment.{Timeline}
use short_form_studio.Editor.Command.{EditorCommand}
use short_form_studio.Editor.Apply.{apply_editor_command}
use short_form_studio.Editor.History.Defs.{
  EditorHistory, snapshot, accept, finish, apply, fold_commands, apply_batch,
  apply_batch_if_generation, undo, Call, do_apply, do_undo, call, run,
}

-- the history after one command, or after one undo
abbrev pub applied : EditorCommand → EditorHistory → EditorHistory
applied command h = (apply command h).1

abbrev pub undone : EditorHistory → EditorHistory
undone h = (undo h).1

-- each command of the list is accepted, from `h` on
abbrev pub AllAccepted : List EditorCommand → EditorHistory → Type 0
AllAccepted [] h = Unit
AllAccepted (c ∷ cs) h = ((t : Timeline) × ((apply c h).0 ≡ ok t)) × AllAccepted cs (applied c h)

abbrev pub edits : List EditorCommand → List Call
edits = map do_apply

-- the same timeline, generation and undo stack
pub record SamePoint (h k : EditorHistory) : Type 0 where
  pub present : h.present ≡ k.present
  pub generation : h.generation ≡ k.generation
  pub past : h.past ≡ k.past

run-undo_last :
    (n : ℕ) (h : EditorHistory)
    → run (replicate (suc n) do_undo) h ≡ undone (run (replicate n do_undo) h)
unfolding run call
run-undo_last zero h = refl
run-undo_last (suc n) h = run-undo_last n (undone h)

finish-eq-accept :
    (h : EditorHistory) (r : Result Error Timeline) (t : Timeline)
    → (finish h r).0 ≡ ok t
    → finish h r ≡ (ok t, accept h t)
unfolding accept
finish-eq-accept h r t p = ground arith

apply-eq-accept :
    (c : EditorCommand) (h : EditorHistory) (t : Timeline)
    → (apply c h).0 ≡ ok t
    → apply c h ≡ (ok t, accept h t)
unfolding apply
apply-eq-accept c h t p = finish-eq-accept h _ t p

apply_batch-eq-accept :
    (cs : List EditorCommand) (h : EditorHistory) (t : Timeline)
    → (apply_batch cs h).0 ≡ ok t
    → apply_batch cs h ≡ (ok t, accept h t)
unfolding apply_batch
apply_batch-eq-accept [] h t p = cc
apply_batch-eq-accept (c ∷ cs) h t p = finish-eq-accept h _ t p

undone-applied :
    (c : EditorCommand) (h k : EditorHistory) (t : Timeline)
    → (apply c h).0 ≡ ok t
    → k.past ≡ (applied c h).past
    → SamePoint (undone k) h
unfolding apply accept undo snapshot
undone-applied c h k t p same = ground arith

-- However many commands are accepted, as many undos give back the timeline, the generation and the
-- undo stack of before the first.
pub run-undo_all :
    (cs : List EditorCommand) (h : EditorHistory)
    → AllAccepted cs h
    → SamePoint (run (replicate (length cs) do_undo) (run (edits cs) h)) h
unfolding run call
run-undo_all [] h all = record { present = refl; generation = refl; past = refl }
run-undo_all (c ∷ cs) h all =
    let later = run (edits cs) (applied c h) in
    let ih = run-undo_all cs (applied c h) all.1 in
    rw (run-undo_last (length cs) later)
      (undone-applied c h (run (replicate (length cs) do_undo) later) all.0.0 all.0.1 ih.past)

-- A proposal built against generation `g` is refused with the two generations, and changes
-- nothing, exactly if the history's generation is another; otherwise it is the batch.
pub apply_batch_if_generation_cases :
    (commands : List EditorCommand) (g : ℕ) (h : EditorHistory)
    → (g ≡ h.generation → apply_batch_if_generation commands g h ≡ apply_batch commands h)
      × (g ≢ h.generation
          → apply_batch_if_generation commands g h
            ≡ (err (version_conflict h.present.project_id g h.generation), h))
unfolding apply_batch_if_generation
apply_batch_if_generation_cases commands g h = (λ e. ground arith, λ ne. ground arith)

-- Of two proposals built against one generation, the second is refused as stale once the first
-- is accepted, and leaves the history that the first made.
pub second_proposal_stale :
    (first second : List EditorCommand) (g : ℕ) (h : EditorHistory) (t : Timeline)
    → (apply_batch_if_generation first g h).0 ≡ ok t
    → let h' = (apply_batch_if_generation first g h).1 in
      apply_batch_if_generation second g h' ≡ (err (version_conflict t.project_id g (g + 1)), h')
unfolding apply_batch_if_generation accept
second_proposal_stale first second g h t p = elim (Bool-cases (g == h.generation)) [
  | inl e ↦
      let accepted : (apply_batch first h).0 ≡ ok t = ground arith in
      let state = apply_batch-eq-accept first h t accepted in
      let whole : apply_batch_if_generation first g h ≡ (ok t, accept h t) =
        ground (arith, state) in
      rw whole (ground arith)
  | inr e ↦ absurd (ground arith)
]

generation-applied :
    (c : EditorCommand) (h : EditorHistory) (t : Timeline)
    → (apply c h).0 ≡ ok t
    → ((applied c h).generation ≡ h.generation + 1) × ((applied c h).present ≡ t)
unfolding accept
generation-applied c h t p = rw (apply-eq-accept c h t p, applied) (refl, refl)

generation-undone-applied :
    (c : EditorCommand) (h : EditorHistory) (t : Timeline)
    → (apply c h).0 ≡ ok t
    → (undone (applied c h)).generation ≡ h.generation
generation-undone-applied c h t p = (undone-applied c h (applied c h) t p refl).generation

-- After an edit, its undo and a different edit, the generation is that of the first edit again: a
-- proposal built against the undone state passes the check, and is applied to the other one.
pub generation_reused :
    (a b : EditorCommand) (h : EditorHistory) (t u : Timeline) (commands : List EditorCommand)
    → (apply a h).0 ≡ ok t
    → (apply b (undone (applied a h))).0 ≡ ok u
    → let built_on = applied a h in
      let diverged = applied b (undone (applied a h)) in
      (diverged.present ≡ u)
      × (apply_batch_if_generation commands built_on.generation diverged
          ≡ apply_batch commands diverged)
generation_reused a b h t u commands p q =
    let between = undone (applied a h) in
    let first = generation-applied a h t p in
    let second = generation-applied b between u q in
    let same : (applied a h).generation ≡ (applied b between).generation =
      omega (arith, first.0, second.0, generation-undone-applied a h t p) in
    (
      second.1,
      (apply_batch_if_generation_cases commands (applied a h).generation (applied b between)).0
          same,
    )

fold_commands-eq-edits :
    (cs : List EditorCommand) (h : EditorHistory) (t : Timeline)
    → fold_commands h.present cs h.workspace_id h.asset_lookup ≡ ok t
    → AllAccepted cs h × ((run (edits cs) h).present ≡ t)
unfolding fold_commands run call
fold_commands-eq-edits [] h t p = (tt, ground arith)
fold_commands-eq-edits (c ∷ cs) h t p =
    let (next, one, rest) =
      bind-returns
        (apply_editor_command h.present c h.workspace_id h.present.revision h.asset_lookup) _ p in
    let accepted : (apply c h).0 ≡ ok next = unfold apply in rw one in
    let state : applied c h ≡ accept h next = ap (λ r. r.1) (apply-eq-accept c h next accepted) in
    let ih = fold_commands-eq-edits cs (accept h next) t (unfold accept in rest) in
    let here : AllAccepted cs (applied c h) × ((run (edits cs) (applied c h)).present ≡ t) =
      rw state ih in
    (((next, accepted), here.0), here.1)

-- A batch that is accepted reaches the timeline that its commands reach one by one, and each of
-- these is accepted.
pub apply_batch-eq-edits :
    (cs : List EditorCommand) (h : EditorHistory) (t : Timeline)
    → (apply_batch cs h).0 ≡ ok t
    → AllAccepted cs h × ((run (edits cs) h).present ≡ t)
unfolding apply_batch
apply_batch-eq-edits [] h t p = cc
apply_batch-eq-edits (c ∷ cs) h t p = fold_commands-eq-edits (c ∷ cs) h t (ground arith)
