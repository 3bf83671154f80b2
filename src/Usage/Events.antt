-- ===== src/Usage/Events.antt =====
-- packages/creator-service/creator_service/usage_service.py: the events and the quotas of
-- `InMemoryUsageStorage`.
use short_form_studio.Prelude.{
  ℕ, ◌+◌, ltb, leb, String, ◌==◌, Bool, false, ◌||◌, ◌&&◌, Option, none, some, List, [], ◌∷◌,
  if◌then◌else◌,
}
use short_form_studio.Prelude.Keyed
use short_form_studio.Prelude.Keyed.{Key, nat_key, text_key}
use short_form_studio.Usage.Rows.{Clock, Entry, Event, QuotaValues, Quota, UsageStorage}

-- `saved` with the key and the id that the storage gives
abbrev pub saved_event : Clock → Entry → UsageStorage → Event
saved_event c e s = record { id = s.next_event_id; created_at = c.now; entry = e }

abbrev pub by_key : Option String → Event → List (String × Event) → List (String × Event)
by_key none saved d = d
by_key (some key) saved d = Keyed.put key saved d

unfoldable pub existing_event : Option String → UsageStorage → Option Event
unfolding Keyed.get
existing_event none s = none
existing_event (some key) s = Keyed.get key s.events_by_idempotency_key

unfoldable pub add_event : Clock → Entry → UsageStorage → UsageStorage
unfolding Keyed.put
add_event c e s = record s {
  events = Keyed.put s.next_event_id (saved_event c e s) s.events;
  events_by_idempotency_key =
      by_key e.idempotency_key (saved_event c e s) s.events_by_idempotency_key;
  next_event_id = s.next_event_id + 1;
}

abbrev pub record_over : Option Event → Clock → Entry → UsageStorage → Event × UsageStorage
record_over none c e s = (saved_event c e s, add_event c e s)
record_over (some old) c e s = (old, s)

unfoldable pub record_event : Clock → Entry → UsageStorage → Event × UsageStorage
unfolding existing_event
record_event c e s = record_over (existing_event e.idempotency_key s) c e s

-- rows.sort(key=lambda row: (row["created_at"], row["id"]))
abbrev pub comes_first : Event → Event → Bool
comes_first a b = ltb a.created_at b.created_at || a.created_at == b.created_at && leb a.id b.id

unfoldable pub insert_event : Event → List Event → List Event
insert_event a [] = a ∷ []
insert_event a (b ∷ rest) =
    let after = insert_event a rest in if comes_first a b then a ∷ (b ∷ rest) else b ∷ after

unfoldable pub sort_events : List Event → List Event
unfolding insert_event
sort_events [] = []
sort_events (a ∷ rest) = insert_event a (sort_events rest)

-- the values of a dictionary that pass a test
unfoldable pub values_where : (Event → Bool) → List (ℕ × Event) → List Event
values_where test [] = []
values_where test ((k, a) ∷ rest) =
    let others = values_where test rest in if test a then a ∷ others else others

abbrev pub is_number : Option ℕ → ℕ → Bool
is_number none n = false
is_number (some m) n = m == n

abbrev pub in_workspace_since : ℕ → ℕ → Event → Bool
in_workspace_since workspace_id since a =
    is_number a.entry.workspace_id workspace_id && leb since a.created_at

unfoldable pub list_by_workspace : ℕ → ℕ → UsageStorage → List Event
unfolding sort_events values_where
list_by_workspace workspace_id since s =
    sort_events (values_where (in_workspace_since workspace_id since) s.events)

abbrev pub in_run : ℕ → Option ℕ → Event → Bool
in_run run_id none a = is_number a.entry.run_id run_id
in_run run_id (some workspace_id) a =
    is_number a.entry.run_id run_id && is_number a.entry.workspace_id workspace_id

unfoldable pub list_by_run : ℕ → Option ℕ → UsageStorage → List Event
unfolding sort_events values_where
list_by_run run_id workspace_id s = sort_events (values_where (in_run run_id workspace_id) s.events)

unfoldable pub get_workspace_quota : ℕ → UsageStorage → Option Quota
unfolding Keyed.get
get_workspace_quota workspace_id s = Keyed.get workspace_id s.quotas

abbrev pub saved_quota : Clock → ℕ → QuotaValues → Option Quota → UsageStorage → Quota
saved_quota c workspace_id values none s = record {
  id = s.next_quota_id;
  workspace_id = workspace_id;
  values = values;
  created_at = c.now;
  updated_at = c.now;
}
saved_quota c workspace_id values (some current) s = record {
  id = current.id;
  workspace_id = workspace_id;
  values = values;
  created_at = current.created_at;
  updated_at = c.now;
}

abbrev pub next_quota : Option Quota → ℕ → ℕ
next_quota none n = n + 1
next_quota (some current) n = n

unfoldable pub set_workspace_quota : Clock → ℕ → QuotaValues → UsageStorage → Quota × UsageStorage
unfolding Keyed.get Keyed.put
set_workspace_quota c workspace_id values s =
    let current = Keyed.get workspace_id s.quotas in
    let saved = saved_quota c workspace_id values current s in
    (
      saved,
      record s {
        quotas = Keyed.put workspace_id saved s.quotas;
        next_quota_id = next_quota current s.next_quota_id;
      },
    )

-- the quota of a workspace, or the default one, which is stored
abbrev pub quota_or_default :
    Clock → ℕ → QuotaValues → Option Quota → UsageStorage → Quota × UsageStorage
quota_or_default c workspace_id values none s = set_workspace_quota c workspace_id values s
quota_or_default c workspace_id values (some quota) s = (quota, s)
