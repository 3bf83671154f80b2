-- ===== src/Run/Graph.antt =====
-- The graph of stages: what `transitions`, the roll-back tables and `advance` allow.
use short_form_studio.Prelude.{
  subst, sym, ap, ◌∙◌, eq_iff, Bool-cases, ◌≡◌, ◌≢◌, refl, Bool, true, false, none, some, List, [],
  ◌∷◌, ◌⊎◌, inl, inr, arith,
}
use short_form_studio.Prelude.Checked.{ok}
use short_form_studio.Run.Stage.{
  RunStage, idea_ready, script_generating, script_review, visual_plan_setup, visual_plan_generating,
  visual_plan_review, visual_asset_generating, visual_asset_review, audio_generating,
  subtitle_generating, timeline_review, render_generating, final_review, published, failed,
  stage_value, eqb_stage, mem_stage, parse_stage, transitions, generating_stages,
  stage_before_generating, can_transition, advance,
}

-- one permitted transition
infix 40 ◌⟶◌ ◌⟶*◌
abbrev pub ◌⟶◌ : RunStage → RunStage → Type 0
s ⟶ t = can_transition s t ≡ true

pub data ◌⟶*◌ : RunStage → RunStage → Type 0 where
  stay : {s : RunStage} → s ⟶* s
  go : {s t u : RunStage} → s ⟶ t → t ⟶* u → s ⟶* u

abbrev pub has_stop : RunStage → Bool
has_stop s = elim (stage_before_generating s) [ none ↦ false | some _ ↦ true ]

-- Parsing the value of a stage gives the stage back.
pub parse_stage-stage_value : (s : RunStage) → parse_stage (stage_value s) ≡ some s
unfolding parse_stage stage_value
parse_stage-stage_value idea_ready = refl
parse_stage-stage_value _ = refl

-- Each stage of the pipeline with all that lead from it to the end.
from_published : published ⟶* published
from_published = stay

from_final_review : final_review ⟶* published
unfolding can_transition
from_final_review = go {t = published} refl from_published

from_render_generating : render_generating ⟶* published
unfolding can_transition
from_render_generating = go {t = final_review} refl from_final_review

from_subtitle_generating : subtitle_generating ⟶* published
unfolding can_transition
from_subtitle_generating = go {t = render_generating} refl from_render_generating

from_audio_generating : audio_generating ⟶* published
unfolding can_transition
from_audio_generating = go {t = subtitle_generating} refl from_subtitle_generating

from_visual_asset_review : visual_asset_review ⟶* published
unfolding can_transition
from_visual_asset_review = go {t = audio_generating} refl from_audio_generating

from_visual_asset_generating : visual_asset_generating ⟶* published
unfolding can_transition
from_visual_asset_generating = go {t = visual_asset_review} refl from_visual_asset_review

from_visual_plan_review : visual_plan_review ⟶* published
unfolding can_transition
from_visual_plan_review = go {t = visual_asset_generating} refl from_visual_asset_generating

from_visual_plan_generating : visual_plan_generating ⟶* published
unfolding can_transition
from_visual_plan_generating = go {t = visual_plan_review} refl from_visual_plan_review

from_visual_plan_setup : visual_plan_setup ⟶* published
unfolding can_transition
from_visual_plan_setup = go {t = visual_plan_generating} refl from_visual_plan_generating

from_script_review : script_review ⟶* published
unfolding can_transition
from_script_review = go {t = visual_plan_setup} refl from_visual_plan_setup

from_script_generating : script_generating ⟶* published
unfolding can_transition
from_script_generating = go {t = script_review} refl from_script_review

from_idea_ready : idea_ready ⟶* published
unfolding can_transition
from_idea_ready = go {t = script_generating} refl from_script_generating

-- PUBLISHED can be reached from every stage by permitted transitions, from FAILED too.
pub ⟶*-published : (s : RunStage) → s ⟶* published
unfolding can_transition
⟶*-published idea_ready = from_idea_ready
⟶*-published script_generating = from_script_generating
⟶*-published script_review = from_script_review
⟶*-published visual_plan_setup = from_visual_plan_setup
⟶*-published visual_plan_generating = from_visual_plan_generating
⟶*-published visual_plan_review = from_visual_plan_review
⟶*-published visual_asset_generating = from_visual_asset_generating
⟶*-published visual_asset_review = from_visual_asset_review
⟶*-published audio_generating = from_audio_generating
⟶*-published subtitle_generating = from_subtitle_generating
⟶*-published render_generating = from_render_generating
⟶*-published final_review = from_final_review
⟶*-published published = from_published
⟶*-published timeline_review = go {t = render_generating} refl from_render_generating
⟶*-published failed = go {t = script_generating} refl from_script_generating

-- The generating stages are exactly those that may fail, exactly those that a failed run may be
-- restarted in, and exactly those that have a stage to return to on stop.
pub generating_stages_agree :
    (s : RunStage)
    → (can_transition s failed ≡ mem_stage s generating_stages)
      × (can_transition failed s ≡ mem_stage s generating_stages)
      × (has_stop s ≡ mem_stage s generating_stages)
unfolding can_transition stage_before_generating
generating_stages_agree idea_ready = (refl, refl, refl)
generating_stages_agree _ = (refl, refl, refl)

-- Stopping a generating stage leads to a stage that is not generating, from which permitted
-- transitions lead to the stopped stage again.
pub stage_before_generating_safe :
    (s t : RunStage)
    → stage_before_generating s ≡ some t
    → (mem_stage t generating_stages ≡ false) × (t ⟶* s)
unfolding stage_before_generating can_transition
stage_before_generating_safe script_generating t h =
    let same : idea_ready ≡ t = cc in
    subst (λ x. (mem_stage x generating_stages ≡ false) × (x ⟶* script_generating)) same
      (refl, go {t = script_generating} refl stay)
stage_before_generating_safe visual_plan_generating t h =
    let same : visual_plan_setup ≡ t = cc in
    subst (λ x. (mem_stage x generating_stages ≡ false) × (x ⟶* visual_plan_generating)) same
      (refl, go {t = visual_plan_generating} refl stay)
stage_before_generating_safe visual_asset_generating t h =
    let same : visual_plan_review ≡ t = cc in
    subst (λ x. (mem_stage x generating_stages ≡ false) × (x ⟶* visual_asset_generating)) same
      (refl, go {t = visual_asset_generating} refl stay)
stage_before_generating_safe audio_generating t h =
    let same : visual_asset_review ≡ t = cc in
    subst (λ x. (mem_stage x generating_stages ≡ false) × (x ⟶* audio_generating)) same
      (refl, go {t = audio_generating} refl stay)
stage_before_generating_safe subtitle_generating t h =
    let same : visual_asset_review ≡ t = cc in
    subst (λ x. (mem_stage x generating_stages ≡ false) × (x ⟶* subtitle_generating)) same
      (refl, go {t = audio_generating} refl (go {t = subtitle_generating} refl stay))
stage_before_generating_safe render_generating t h =
    let same : visual_asset_review ≡ t = cc in
    subst (λ x. (mem_stage x generating_stages ≡ false) × (x ⟶* render_generating)) same
      (
        refl,
        go {t = audio_generating} refl
            (go {t = subtitle_generating} refl (go {t = render_generating} refl stay)),
      )
stage_before_generating_safe _ t h = cc

pub eqb_stage→eq : (a b : RunStage) → eqb_stage a b ≡ true → a ≡ b
unfolding eqb_stage
eqb_stage→eq a b h =
    let same : stage_value a ≡ stage_value b = (eq_iff (stage_value a) (stage_value b)).0 h in
    some-injective'
      (sym (parse_stage-stage_value a) ∙ ap parse_stage same ∙ parse_stage-stage_value b)
  where
    some-injective' : some a ≡ some b → a ≡ b
    some-injective' e = cc

pub eqb_stage_refl : (a : RunStage) → eqb_stage a a ≡ true
unfolding eqb_stage
eqb_stage_refl a = (eq_iff (stage_value a) (stage_value a)).1 refl

-- `a` is one of the stages, with its place
abbrev pub OneOf : RunStage → List RunStage → Type 0
OneOf a [] = ⊥
OneOf a (b ∷ rest) = (a ≡ b) ⊎ OneOf a rest

pub mem_stage→OneOf :
    (a : RunStage) (stages : List RunStage) → mem_stage a stages ≡ true → OneOf a stages
unfolding mem_stage
mem_stage→OneOf a [] h = absurd (cc)
mem_stage→OneOf a (b ∷ rest) h = elim (Bool-cases (eqb_stage a b)) [
  | inl e ↦ inl (eqb_stage→eq a b e)
  | inr e ↦ inr (mem_stage→OneOf a rest (rw e at h))
]

pub OneOf→mem_stage :
    (a : RunStage) (stages : List RunStage) → OneOf a stages → mem_stage a stages ≡ true
unfolding mem_stage
OneOf→mem_stage a [] h = absurd h
OneOf→mem_stage a (b ∷ rest) (inl e) = rw (← e, eqb_stage_refl a)
OneOf→mem_stage a (b ∷ rest) (inr h) = ground (arith, OneOf→mem_stage a rest h)

advance_cases :
    (s t u : RunStage) → advance s ≡ ok t → OneOf u (transitions s) → (u ≡ failed) ⊎ (u ≡ t)
unfolding advance
advance_cases idea_ready t u h k = ground arith
advance_cases _ t u h k = ground arith

advance_permitted : (s t : RunStage) → advance s ≡ ok t → OneOf t (transitions s) × (t ≢ failed)
unfolding advance
advance_permitted idea_ready t h = (ground arith, λ e. cc)
advance_permitted _ t h = (ground arith, λ e. cc)

-- Where `advance` returns a stage, the transition to it is permitted, it is not FAILED, and any
-- permitted transition leads to FAILED or to it.
pub advance_unique :
    (s t u : RunStage)
    → advance s ≡ ok t
    → s ⟶ u
    → (s ⟶ t) × (t ≢ failed) × ((u ≡ failed) ⊎ (u ≡ t))
advance_unique s t u h step =
    let (permitted, proceeds) = advance_permitted s t h in
    (
      unfold can_transition in OneOf→mem_stage t (transitions s) permitted,
      proceeds,
      advance_cases s t u h (mem_stage→OneOf u (transitions s) (unfold can_transition in step)),
    )
