-- ===== src/Schedules/Dispatch.antt =====
-- `dispatch_due_schedules`. Times are microseconds. The id of a new run, the readiness of a project and
-- the classification of a prompt as read-only are arguments.
use pi_development_agent.Base.{
  ℕ, ◌+◌, ◌*◌, leb, ltb, Text, codes, ◌++◌, String, string_Eq, nat_Eq, ◌==◌, elem, Bool, true,
  false, not, ◌&&◌, ◌||◌, List, [], ◌∷◌, Option, none, some, find, filter, take, map, if◌then◌else◌,
}
use pi_development_agent.States.{RunStatus}
use pi_development_agent.Outbox.Model.{enqueue}
use pi_development_agent.Repair.Events.{emit}
use pi_development_agent.Runs.Model.{AgentRun}
use pi_development_agent.Schedules.Model.{AgentSchedule, Site, Readiness, Calendar}

abbrev pub seconds : ℕ → ℕ
seconds n = n * 1_000_000

abbrev is_due : ℕ → AgentSchedule → Bool
is_due now s = s.enabled && leb s.next_run_at now

-- earlier `next_run_at` first
unfoldable pub insert_due : AgentSchedule → List AgentSchedule → List AgentSchedule
insert_due s [] = s ∷ []
insert_due s (t ∷ ts) =
    let rest = insert_due s ts in if leb s.next_run_at t.next_run_at then s ∷ t ∷ ts else t ∷ rest

unfoldable pub in_order : List AgentSchedule → List AgentSchedule
in_order [] = []
in_order (s ∷ schedules) = insert_due s (in_order schedules)

unfoldable pub due : ℕ → List AgentSchedule → List AgentSchedule
due now schedules = take 20 (in_order (filter (is_due now) schedules))

abbrev pub is_active_status : RunStatus → Bool
is_active_status RunStatus.queued = true
is_active_status RunStatus.running = true
is_active_status RunStatus.awaiting_question = true
is_active_status RunStatus.awaiting_approval = true
is_active_status RunStatus.cancelling = true
is_active_status _ = false

-- the query for an active write run of a project
unfoldable pub is_active_write : ℕ → AgentRun → Bool
is_active_write project_id r =
    r.project_id == project_id && r.intent == "write" && is_active_status r.status

abbrev is_at_hand : Site → Bool
is_at_hand site = site.status == "ready" || site.status == "connected"

abbrev is_verified : Site → Bool
is_verified site =
    elem site.erp_type ("pri_erp" ∷ "pi_erp" ∷ [])
    || site.version == "19.0" && elem site.edition ("community" ∷ "enterprise" ∷ [])

abbrev has_money : Readiness → Bool
has_money ready = elim ready.budget [ none ↦ false | some budget ↦ ltb ready.spent budget ]

-- why an occurrence is deferred, where no run of the project is active
unfoldable pub obstacle : Readiness → Option Text
obstacle ready = elim ready.site [
  | none ↦ some (codes "Deferred: no active staging instance")
  | some site ↦
      if not (is_at_hand site)
      then some (codes "Deferred: no active staging instance")
      else if not ready.key_configured
      then some (codes "Deferred: no API key configured")
      else if not (has_money ready)
      then some (codes "Deferred: monthly agent budget is not configured or has been reached")
      else if not (is_verified site)
      then some (codes "Deferred: staging Odoo 19 version and edition are not verified")
      else none
]

-- the schedule with the id becomes this one
unfoldable pub write_schedule : AgentSchedule → List AgentSchedule → List AgentSchedule
write_schedule new schedules =
    map (λ (s : AgentSchedule). if s.id == new.id then new else s) schedules

abbrev pub scheduled_run : String → ℕ → Bool → AgentRun
scheduled_run id project_id read_only = record {
  id = id;
  project_id = project_id;
  intent = if read_only then "read_only" else "write";
  status = RunStatus.queued;
  attempt = 0;
  started_at = none;
  heartbeat_at = none;
  finished_at = none;
  task_graph = [];
  active_task_id = none;
  subtask_heartbeat_at = none;
  task_retries = [];
  retryable = false;
  error_category = none;
  error_message = none;
}

abbrev sooner : ℕ → ℕ → ℕ
sooner a b = if leb a b then a else b

-- what every due schedule gets first
abbrev pub claimed : ℕ → AgentSchedule → AgentSchedule
claimed now s = record s {
  next_run_at = now + seconds s.interval_seconds;
  last_run_at = some now;
  last_error = none;
}

abbrev deferred : AgentSchedule → Calendar → Calendar
deferred s c = record c { schedules = write_schedule s c.schedules }

-- the run of one occurrence
unfoldable pub launch_run : ℕ → String → Bool → AgentSchedule → Calendar → Calendar
launch_run now id read_only s c = record {
  schedules = write_schedule (record s { last_run_id = some id; retry_count = 0 }) c.schedules;
  runs = scheduled_run id s.project_id read_only ∷ c.runs;
  events = emit id "run.queued" none c.events;
  outbox = enqueue now "run.prepare" id none c.outbox;
}

unfoldable pub dispatch :
    ℕ
    → (AgentSchedule → String)
    → (ℕ → Readiness)
    → (Text → Bool)
    → AgentSchedule
    → Calendar
    → Calendar
dispatch now new_id readiness is_read_only s c =
    let own = claimed now s in
    elim (find (is_active_write s.project_id) c.runs) [
      | some active ↦
          deferred
            (record own {
              last_error =
                  some (codes "Deferred: project already has active run " ++ codes active.id);
              next_run_at = now + seconds (sooner s.interval_seconds 300);
            })
            c
      | none ↦ elim (obstacle (readiness s.project_id)) [
        | some reason ↦ deferred (record own { last_error = some reason }) c
        | none ↦ launch_run now (new_id s) (is_read_only s.prompt) own c
      ]
    ]

unfoldable pub dispatch_all :
    ℕ
    → (AgentSchedule → String)
    → (ℕ → Readiness)
    → (Text → Bool)
    → List AgentSchedule
    → Calendar
    → Calendar
dispatch_all now new_id readiness is_read_only [] c = c
dispatch_all now new_id readiness is_read_only (s ∷ schedules) c =
    dispatch_all now new_id readiness is_read_only schedules
      (dispatch now new_id readiness is_read_only s c)

unfoldable pub dispatch_due_schedules :
    ℕ → (AgentSchedule → String) → (ℕ → Readiness) → (Text → Bool) → Calendar → Calendar
dispatch_due_schedules now new_id readiness is_read_only c =
    dispatch_all now new_id readiness is_read_only (due now c.schedules) c
