-- ===== src/Store/Tests.antt =====
-- The slices of the store on small states.
use cont_ained.Store.Jobs.{
  IngestionJobResponse, IngestionState, adds_job, initial_ingestion, add_job, ingestion_step,
}
use cont_ained.Store.Jobs.Unique.{IsUnique, count_id, ingestion_step-IsUnique, add_job_lem}
use cont_ained.Store.Jobs.{job_has_id}
use cont_ained.Store.Panel.{initial_panel, set_selected_node_id, set_drawer_open}
use cont_ained.Store.Agents.{Agent, AgentState, removes_agent, agent_step}
use cont_ained.Store.Agents.Selection.{IsSelection, agent_step-IsSelection}
use cont_ained.Base.{
  ℕ, String, false, none, some, List, [], ◌∷◌, ◌==◌, ◌≡◌, ◌≢◌, refl, inr, filter, find,
  if◌then◌else◌, arith, ◌++◌,
}
use cont_ained.Base.Dict.{lookup, insert}
use cont_ained.Permissions.{owner}
use cont_ained.Routes.{HubType, agent, eval}
use cont_ained.Store.Hubs.{
  Hub, HubSliceState, initial_hubs, upsert_hub, remove_hub, upserts, sets_hubs, hub_step, set_hubs,
  index_hubs,
}
use cont_ained.Store.Hubs.Index.{hub_has_id, IsIndexed, set_hubs-IsIndexed}
use cont_ained.Store.Hubs.Calls.{hub_step-IsIndexed, remove_hub_lem, upsert_hub_stale}
use cont_ained.Store.Notifications.{
  NotificationCall, adds, marks, initial_notifications, notify, mark_read, notification_step,
  add_notification, info, error,
}
use cont_ained.Store.Notifications.Count.{IsCounted, notify-IsCounted, unread_with, mark_read_lem}
use cont_ained.Store.Metrics.{
  TelemetryMetrics, PartialMetrics, MetricsSlice, slice_last, receive, readings,
}
use cont_ained.Store.Metrics.Recent.{receive-telemetry_history}

abbrev hub : String → HubType → Hub
hub id t = record {
  id = id;
  slug = id;
  name = id;
  hub_type = t;
  description = none;
  accent = none;
  icon = none;
  owner_id = "u";
  is_archived = false;
  my_role = owner;
  resource_count = none;
  resource_counts = none;
  member_count = 1;
  last_activity_at = none;
  created_at = "";
  updated_at = "";
}

abbrev two_hubs : HubSliceState
two_hubs = hub_step (sets_hubs (hub "a" agent ∷ hub "b" eval ∷ [])) initial_hubs

two_hubs-IsIndexed : IsIndexed two_hubs
unfolding hub_step
two_hubs-IsIndexed =
    set_hubs-IsIndexed (hub "a" agent ∷ hub "b" eval ∷ []) initial_hubs ((refl, tt), (tt, tt))

a_stored : lookup "a" two_hubs.hubs_by_id ≡ some (hub "a" agent)
unfolding hub_step set_hubs index_hubs lookup insert
a_stored = refl

hub_step-IsIndexed_example : IsIndexed (hub_step (upserts (hub "a" agent)) two_hubs)
hub_step-IsIndexed_example =
    hub_step-IsIndexed (upserts (hub "a" agent)) two_hubs (inr (hub "a" agent, a_stored, refl))
      two_hubs-IsIndexed

remove_hub_lem_test :
    (lookup "a" (remove_hub "a" two_hubs).hubs_by_id ≡ none)
    × ((t : HubType) → filter (hub_has_id "a") ((remove_hub "a" two_hubs).hubs_by_type t) ≡ [])
    × ((j : String)
        → j ≢ "a"
        → (lookup j (remove_hub "a" two_hubs).hubs_by_id ≡ lookup j two_hubs.hubs_by_id)
          × ((t : HubType)
              → filter (hub_has_id j) ((remove_hub "a" two_hubs).hubs_by_type t)
                ≡ filter (hub_has_id j) (two_hubs.hubs_by_type t)))
remove_hub_lem_test = remove_hub_lem "a" two_hubs two_hubs-IsIndexed

agent-eval : agent ≢ eval
agent-eval e = cc

upsert_hub_stale_test :
    (filter (hub_has_id "a") ((upsert_hub (hub "a" eval) two_hubs).hubs_by_type agent)
      ≡ hub "a" agent ∷ [])
    × (lookup "a" (upsert_hub (hub "a" eval) two_hubs).hubs_by_id ≡ some (hub "a" eval))
upsert_hub_stale_test =
    upsert_hub_stale (hub "a" eval) (hub "a" agent) two_hubs two_hubs-IsIndexed a_stored agent-eval

abbrev calls : List NotificationCall
calls =
    adds "n1" 1 (record { kind = info; title = "One"; message = "first" })
    ∷ adds "n2" 2 (record { kind = error; title = "Two"; message = "second" })
    ∷ marks "n1"
    ∷ []

notify-IsCounted_test : IsCounted (notify calls initial_notifications)
notify-IsCounted_test =
    notify-IsCounted calls initial_notifications (record { counted = refl; capped = omega arith })

notify_test : (notify calls initial_notifications).unread_count ≡ 1
unfolding notify notification_step mark_read add_notification
notify_test = refl

abbrev idle_metrics : TelemetryMetrics ℕ
idle_metrics = record {
  cpu_usage_percent = 0;
  memory_usage_percent = 0;
  vram_usage_mb = 0;
  vram_total_mb = 16384;
  active_agents = 0;
  status = "connecting";
  timestamp = 0;
}

abbrev start_metrics : MetricsSlice ℕ
start_metrics = record {
  telemetry = idle_metrics;
  telemetry_history = [];
  is_connected = false;
  reconnect_attempts = 0;
  last_connected_at = none;
}

abbrev cpu : ℕ → PartialMetrics ℕ
cpu n = record {
  cpu_usage_percent = some n;
  memory_usage_percent = none;
  vram_usage_mb = none;
  vram_total_mb = none;
  active_agents = none;
  status = none;
  timestamp = none;
}

receive-telemetry_history_example :
    (receive (cpu 5 ∷ cpu 7 ∷ []) start_metrics).telemetry_history
    ≡ slice_last 60 ([] ++ readings (cpu 5 ∷ cpu 7 ∷ []) idle_metrics)
receive-telemetry_history_example =
    receive-telemetry_history (cpu 5 ∷ cpu 7 ∷ []) start_metrics (omega arith)

mark_read_lem_test :
    unread_with "n2" (mark_read "n2" (notify calls initial_notifications)).notifications ≡ (
      if "n2" == "n2"
      then []
      else unread_with "n2" (notify calls initial_notifications).notifications)
mark_read_lem_test = mark_read_lem "n2" "n2" (notify calls initial_notifications)

abbrev job : String → String → IngestionJobResponse ℕ
job id status = record {
  job_id = id;
  hub_id = "h";
  document_id = none;
  status = status;
  progress = 0;
  error_msg = none;
  created_at = none;
  updated_at = none;
}

abbrev one_job : IngestionState ℕ
one_job = record initial_ingestion { active_jobs = job "j1" "queued" ∷ [] }

one_job-IsUnique : IsUnique one_job
one_job-IsUnique id = ground arith

ingestion_step-IsUnique_test : IsUnique (ingestion_step (adds_job (job "j1" "done")) one_job)
ingestion_step-IsUnique_test =
    ingestion_step-IsUnique (adds_job (job "j1" "done")) one_job tt one_job-IsUnique

add_job_lem_test :
    (find (job_has_id "j1") (add_job (job "j1" "done") one_job).active_jobs
      ≡ some (job "j1" "done"))
    × ((id : String)
        → id ≢ "j1"
        → count_id id (add_job (job "j1" "done") one_job).active_jobs
          ≡ count_id id one_job.active_jobs)
add_job_lem_test = add_job_lem (job "j1" "done") one_job

abbrev helper : Agent ℕ
helper = record {
  id = "a1";
  name = "Helper";
  role = "assistant";
  system_prompt = "";
  model_id = "m";
  tools = [];
  temperature = 0;
  max_tokens = 100;
  is_active = none;
  endpoint_slug = none;
  created_at = none;
  updated_at = none;
}

abbrev chosen : AgentState ℕ
chosen = record { agents = helper ∷ []; selected_agent_id = some "a1" }

agent_step-IsSelection_test :
    IsSelection
      (agent_step (removes_agent "a1") chosen).agents
      (agent_step (removes_agent "a1") chosen).selected_agent_id
agent_step-IsSelection_test = agent_step-IsSelection (removes_agent "a1") chosen tt refl

panel_test :
    set_drawer_open false (set_selected_node_id (some "n") initial_panel)
    ≡ record { selected_node_id = some "n"; drawer_open = false }
unfolding set_drawer_open set_selected_node_id
panel_test = refl
