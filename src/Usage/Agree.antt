-- ===== src/Usage/Agree.antt =====
-- packages/creator-service/creator_service/usage_service.py: the summary that `check_quota` judges by and
-- the sums that the reservations are admitted by count the same.
use short_form_studio.Prelude.{
  ℕ, ◌+◌, String, ◌≡◌, refl, subst, ◌∙◌, ap, Bool, Option, none, some, List, [], ◌∷◌, inl, inr,
  Bool-cases, arith, ltb, str_eq, eq_iff, if◌then◌else◌,
}
use short_form_studio.Prelude.Keyed
use short_form_studio.Prelude.Keyed.{Key, nat_key, text_key, total, get-put_self, get-put_ne}
use short_form_studio.Usage.Rows.{
  Clock, Event, UsageStorage, llm_bucket, image_bucket, tts_bucket, is_audio,
}
use short_form_studio.Usage.Events.{
  comes_first, insert_event, sort_events, values_where, in_workspace_since, list_by_workspace,
}
use short_form_studio.Usage.Admit.{cost_of, image_units, event_units, used_since, settled_workspace}
use short_form_studio.Usage.Summary.{
  Summary, empty_summary, count_or_zero, add_at, count_event, summarise, get_monthly_summary,
  audio_count,
}
use short_form_studio.Run.Storage.{mem_text}

-- what is summed over a list of events
abbrev pub measure : (Event → ℕ) → List Event → ℕ
measure f [] = 0
measure f (a ∷ rest) = f a + measure f rest

measure-insert_event :
    (f : Event → ℕ) (a : Event) (rest : List Event)
    → measure f (insert_event a rest) ≡ f a + measure f rest
unfolding insert_event
measure-insert_event f a [] = refl
measure-insert_event f a (b ∷ rest) = elim (Bool-cases (comes_first a b)) [
  | inl e ↦ rw e refl
  | inr e ↦ rw e (omega (arith, measure-insert_event f a rest))
]

measure-sort_events : (f : Event → ℕ) (l : List Event) → measure f (sort_events l) ≡ measure f l
unfolding sort_events
measure-sort_events f [] = refl
measure-sort_events f (a ∷ rest) =
    omega (arith, measure-insert_event f a (sort_events rest), measure-sort_events f rest)

measure-values_where :
    (f : Event → ℕ) (test : Event → Bool) (d : List (ℕ × Event))
    → measure f (values_where test d) ≡ total (λ k a. if test a then f a else 0) d
unfolding values_where
measure-values_where f test [] = refl
measure-values_where f test ((k, a) ∷ rest) = elim (Bool-cases (test a)) [
  | inl e ↦ rw e (omega (arith, measure-values_where f test rest))
  | inr e ↦ rw e (omega (arith, measure-values_where f test rest))
]

pub measure-list_by_workspace :
    (f : Event → ℕ) (w since : ℕ) (s : UsageStorage)
    → measure f (list_by_workspace w since s)
      ≡ total (λ k a. if in_workspace_since w since a then f a else 0) s.events
unfolding list_by_workspace
measure-list_by_workspace f w since s =
    measure-sort_events f (values_where (in_workspace_since w since) s.events)
    ∙ measure-values_where f (in_workspace_since w since) s.events

-- a part of the summary that each event adds to
summarise-adds :
    (part : Summary → ℕ) (f : Event → ℕ)
    → ((a : Event) (t : Summary) → part (count_event a t) ≡ part t + f a)
    → (l : List Event) (t : Summary) → part (summarise l t) ≡ part t + measure f l
unfolding summarise
summarise-adds part f h [] t = omega arith
summarise-adds part f h (a ∷ rest) t =
    omega (arith, summarise-adds part f h rest (count_event a t), h a t)

summary-adds :
    (part : Summary → ℕ) (f : Event → ℕ)
    → ((a : Event) (t : Summary) → part (count_event a t) ≡ part t + f a)
    → part empty_summary ≡ 0
    → (c : Clock) (w : ℕ) (s : UsageStorage)
    → part (get_monthly_summary c w s)
      ≡ total (λ k a. if in_workspace_since w c.period_start a then f a else 0) s.events
unfolding get_monthly_summary
summary-adds part f h none_yet c w s = omega (
  arith,
  summarise-adds part f h (list_by_workspace w c.period_start s) empty_summary,
  none_yet,
  measure-list_by_workspace f w c.period_start s,
)

count-add_at :
    (k j : String) (n : ℕ) (d : List (String × ℕ))
    → count_or_zero (Keyed.get j (add_at k n d))
      ≡ count_or_zero (Keyed.get j d) + (if str_eq k j then n else 0)
unfolding add_at
count-add_at k j n d = elim (Bool-cases (str_eq k j)) [
  | inl e ↦
      let k_is_j : k ≡ j = (eq_iff k j).0 e in
      subst
        (λ i.
          count_or_zero (Keyed.get i (Keyed.put k (count_or_zero (Keyed.get k d) + n) d))
          ≡ count_or_zero (Keyed.get i d) + (if str_eq k j then n else 0))
        k_is_j (rw (get-put_self k (count_or_zero (Keyed.get k d) + n) d, e) refl)
  | inr e ↦ rw (get-put_ne k j (count_or_zero (Keyed.get k d) + n) d e, e) (omega arith)
]

llm-adds :
    (a : Event) (t : Summary)
    → (count_event a t).total_llm_calls ≡ t.total_llm_calls + event_units llm_bucket a
unfolding count_event event_units
llm-adds a t = ground arith

images-add :
    (a : Event) (t : Summary)
    → (count_event a t).total_image_generations
      ≡ t.total_image_generations + event_units image_bucket a
unfolding count_event event_units
images-add a t = elim (Bool-cases (str_eq a.entry.operation_type "image_gen")) [
  | inl e ↦ rw e (ap (◌+◌ t.total_image_generations) (at a.entry.image_count))
  | inr e ↦ rw e (omega arith)
]
  where
    at : (m : Option ℕ) → (if ltb 0 (count_or_zero m) then count_or_zero m else 1) ≡ image_units m
    at none = refl
    at (some n) = refl

-- an operation is at most one of the three
audio_units :
    (operation : String)
    → (if is_audio operation then 1 else 0)
      ≡ (if str_eq operation "tts" then 1 else 0)
        + (if str_eq operation "stt" then 1 else 0)
        + (if str_eq operation "render" then 1 else 0)
unfolding is_audio mem_text
audio_units operation = elim (Bool-cases (str_eq operation "tts")) [
  | inl e ↦ rw ((eq_iff operation "tts").0 e) refl
  | inr not_tts ↦ elim (Bool-cases (str_eq operation "stt")) [
    | inl e ↦ rw ((eq_iff operation "stt").0 e) refl
    | inr not_stt ↦ elim (Bool-cases (str_eq operation "render")) [
      | inl e ↦ rw ((eq_iff operation "render").0 e) refl
      | inr not_render ↦ rw (not_tts, not_stt, not_render) refl
    ]
  ]
]

audio-adds :
    (a : Event) (t : Summary)
    → audio_count (count_event a t) ≡ audio_count t + event_units tts_bucket a
unfolding count_event audio_count event_units
audio-adds a t = omega (
  arith,
  count-add_at a.entry.operation_type "tts" 1 t.by_operation,
  count-add_at a.entry.operation_type "stt" 1 t.by_operation,
  count-add_at a.entry.operation_type "render" 1 t.by_operation,
  audio_units a.entry.operation_type,
)

no_audio : audio_count empty_summary ≡ 0
unfolding audio_count
no_audio = refl

cost-adds :
    (a : Event) (t : Summary)
    → (count_event a t).total_estimated_cost_usd ≡ t.total_estimated_cost_usd + cost_of a
unfolding count_event
cost-adds a t = refl

-- Whatever events there are and in whatever order, the monthly summary of a workspace agrees with
-- the sums of the admissions: its cost is what `try_reserve_owned` takes as spent, and its calls, images
-- and audio requests are what `try_reserve_quota` takes as used of the three quotas.
pub get_monthly_summary-agrees :
    (c : Clock) (w : ℕ) (s : UsageStorage)
    → ((get_monthly_summary c w s).total_estimated_cost_usd ≡ settled_workspace w c.period_start s)
      × ((get_monthly_summary c w s).total_llm_calls ≡ used_since llm_bucket w c.period_start s)
      × ((get_monthly_summary c w s).total_image_generations
          ≡ used_since image_bucket w c.period_start s)
      × (audio_count (get_monthly_summary c w s) ≡ used_since tts_bucket w c.period_start s)
unfolding settled_workspace used_since
get_monthly_summary-agrees c w s = (
  summary-adds (λ t. t.total_estimated_cost_usd) cost_of cost-adds refl c w s,
  summary-adds (λ t. t.total_llm_calls) (event_units llm_bucket) llm-adds refl c w s,
  summary-adds (λ t. t.total_image_generations) (event_units image_bucket) images-add refl c w s,
  summary-adds audio_count (event_units tts_bucket) audio-adds no_audio c w s,
)
