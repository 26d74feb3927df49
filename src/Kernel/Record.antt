-- ===== src/Kernel/Record.antt =====
-- src/kernel/coordinator.py: the record of the transition log, what the log rebuilds (the ledger,
-- the log and the installed snapshots), and one table row applied to a request.
use absolute_zero.Prelude.{
  ℕ, ◌+◌, String, Bool, true, false, Option, none, some, List, [], ◌∷◌, ◌++◌, str_eq, if◌then◌else◌,
}
use absolute_zero.Prelude.Dict
use absolute_zero.Prelude.Dict.{Dict}
use absolute_zero.Value.{ℤ, eq_ℤ, Value}
use absolute_zero.Kernel.Config.{ConfigView, Row}
use absolute_zero.Kernel.Ledger.{RequestState, Ledger, store, evict}

-- The `info` of a record, its falsy values dropped; an empty one is left out of the record.
abbrev pub Info : Type 0
Info = Dict String

-- A record of the log. A request id or a state of "" stands for `None`, and `verdict` and
-- `snapshot` for keys that may be missing.
pub record LogRecord : Type 0 where
  pub request_id : String
  pub event_id : Option String
  pub sequence : ℕ
  pub prior_state : String
  pub event : String
  pub guard_result : Bool
  pub next_state : String
  pub config_version : ℤ
  pub emitted_events : List String
  pub info : Info
  pub verdict : Option String
  pub snapshot : Option Value

-- `self._configs`, by version.
abbrev pub Configs : Type 0
Configs = List (ℤ × ConfigView)

unfoldable pub get_config : ℤ → Configs → Option ConfigView
get_config v [] = none
get_config v ((w, cfg) ∷ cs) = if eq_ℤ w v then some cfg else get_config v cs

unfoldable pub put_config : ConfigView → Configs → Configs
put_config cfg [] = (cfg.version, cfg) ∷ []
put_config cfg ((w, old) ∷ cs) =
    if eq_ℤ w cfg.version then (w, cfg) ∷ cs else (w, old) ∷ put_config cfg cs

-- The state of the coordinator that recovery rebuilds.
pub record Core : Type 0 where
  pub ledger : Ledger
  pub log : List LogRecord
  pub configs : Configs
  pub config : ConfigView

abbrev pub append_log : LogRecord → Core → Core
append_log r s = record s { log = s.log ++ r ∷ [] }

-- `_install` of a view.
abbrev pub install : ConfigView → Core → Core
install cfg s = record s { configs = put_config cfg s.configs; config = cfg }

-- `{key: value for key, value in info.items() if value}`
unfoldable pub kept : List (String × Option String) → Info
kept [] = []
kept ((key, none) ∷ more) = kept more
kept ((key, some v) ∷ more) = let rest = kept more in if str_eq v "" then rest else (key, v) ∷ rest

-- `_do_action`
unfoldable pub do_action : String → RequestState → String → Info → RequestState
unfolding Dict.put Dict.get
do_action action entry event info =
    if str_eq action "record_verdict"
    then record entry {
      recorded_verdicts =
          Dict.put "verification" (str_eq event "verify.passed") entry.recorded_verdicts;
    }
    else if str_eq action "increment_replan"
    then record entry { replan_count = entry.replan_count + 1 }
    else if str_eq action "set_cancel_flag"
    then record entry { cancellation_flag = true }
    else if str_eq action "set_routing_target"
    then record entry { routing_target = Dict.get "routing_target" info }
    else entry

unfoldable pub do_actions : List String → RequestState → String → Info → RequestState
unfolding do_action
do_actions [] entry event info = entry
do_actions (a ∷ actions) entry event info =
    do_actions actions (do_action a entry event info) event info

-- The record that `_transition` logs, from the entry before the row is applied.
abbrev pub record_of :
    RequestState → String → Option String → Row → Bool → ConfigView → Info → LogRecord
record_of entry event event_id row guard cfg info = record {
  request_id = entry.request_id;
  event_id = event_id;
  sequence = entry.transition_sequence + 1;
  prior_state = entry.lifecycle_state;
  event = event;
  guard_result = guard;
  next_state = row.next;
  config_version = cfg.version;
  emitted_events = row.emit;
  info = info;
  verdict = none;
  snapshot = none;
}

-- The entry after the row: its actions, then the new state and sequence number.
abbrev pub moved : RequestState → String → Option String → Row → Info → RequestState
moved entry event event_id row info =
    let after = do_actions row.actions entry event info in
    record {
      request_id = after.request_id;
      declared_type = after.declared_type;
      lifecycle_state = row.next;
      config_version = after.config_version;
      recorded_verdicts = after.recorded_verdicts;
      routing_target = after.routing_target;
      cancellation_flag = after.cancellation_flag;
      transition_sequence = after.transition_sequence + 1;
      last_applied_event_id = event_id;
      replan_count = after.replan_count;
    }

-- What `_transition` does to the ledger and the log.
abbrev pub advance : RequestState → String → String → Row → Bool → ConfigView → Info → Core → Core
advance entry event event_id row guard cfg info s = record s {
  ledger = store (moved entry event (some event_id) row info) s.ledger;
  log = s.log ++ record_of entry event (some event_id) row guard cfg info ∷ [];
}

-- The record that `_handle_session` logs for an evicted request.
abbrev pub cleanup_record : String → RequestState → LogRecord
cleanup_record rid entry = record {
  request_id = rid;
  event_id = none;
  sequence = entry.transition_sequence + 1;
  prior_state = entry.lifecycle_state;
  event = "__cleanup__";
  guard_result = true;
  next_state = "cleanup";
  config_version = entry.config_version;
  emitted_events = [];
  info = [];
  verdict = none;
  snapshot = none;
}

abbrev pub clean_up : String → RequestState → Core → Core
clean_up rid entry s = record s {
  ledger = evict rid s.ledger;
  log = s.log ++ cleanup_record rid entry ∷ [];
}

-- The record of a session event, or of an installed snapshot.
abbrev pub boundary_record : String → ℤ → Option Value → LogRecord
boundary_record event version snapshot = record {
  request_id = "";
  event_id = none;
  sequence = 0;
  prior_state = "";
  event = event;
  guard_result = true;
  next_state = "";
  config_version = version;
  emitted_events = [];
  info = [];
  verdict = none;
  snapshot = snapshot;
}

-- The record of a duplicate delivery.
abbrev pub noop_record : RequestState → String → String → String → LogRecord
noop_record entry event_id event verdict = record {
  request_id = entry.request_id;
  event_id = some event_id;
  sequence = entry.transition_sequence;
  prior_state = entry.lifecycle_state;
  event = event;
  guard_result = false;
  next_state = entry.lifecycle_state;
  config_version = entry.config_version;
  emitted_events = [];
  info = [];
  verdict = some verdict;
  snapshot = none;
}
