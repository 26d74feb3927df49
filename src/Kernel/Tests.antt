-- ===== src/Kernel/Tests.antt =====
-- Runs of the kernel on concrete envelopes, and the theorems at concrete inputs.
use mathlib.Core.Bool.{false≢true}
use absolute_zero.Prelude.{
  ℕ, ◌≤◌, arith, String, ◌≡◌, refl, true, false, none, some, List, [], ◌∷◌, map, All,
}
use absolute_zero.Prelude.Dict
use absolute_zero.Value.{Value, int, pos, str, dict, obj, find, decimal, strings_of}
use absolute_zero.Kernel.Config.{read}
use absolute_zero.Kernel.Default.{default}
use absolute_zero.Kernel.Config
use absolute_zero.Kernel.Config.{ConfigView, Row, rows, last_row}
use absolute_zero.Kernel.Ledger
use absolute_zero.Kernel.Ledger.{RequestState, new_request, active_count, store, evict}
use absolute_zero.Kernel.Envelope
use absolute_zero.Kernel.Gates.{decide, evaluate, route}
use absolute_zero.Kernel.Record.{
  LogRecord, Core, moved, advance, do_actions, put_config, get_config, kept,
}
use absolute_zero.Kernel.Telemetry.{Outside, fault, write_log, publish_row}
use absolute_zero.Kernel.Coordinator.{handle, run, pick_row, guard_holds}
use absolute_zero.Kernel.Coordinator.Handling.{Installs}
use absolute_zero.Kernel.Recovery.{
  recover, replay, replay_transition, replay_entry, replay_row, same_record, start,
}
use absolute_zero.Kernel.Recovery.Table.{is_replayable, IsReplayable}
use absolute_zero.Kernel.Safety.{is_gated, replans_are_counted, IsGated}
use absolute_zero.Kernel.Safety.Replans.{IsCounted, replan_count-bounded}
use absolute_zero.Kernel.Safety.Completion.{completed-IsVerified}
use absolute_zero.Kernel.Recovery.Soundness.{Agrees, replay-Agrees, Ended, recover-Ended}
use absolute_zero.Kernel.Recovery.RoundTrip.{recover-run}

-- A bus that takes everything, and one that is always down.
abbrev up : Outside
up = record { World = ℕ; publish = λ topic message w. (w, true); now = λ w. w; render = λ v. "?" }

abbrev down : Outside
down = record {
  World = ℕ;
  publish = λ topic message w. (w, false);
  now = λ w. w;
  render = λ v. "?";
}

abbrev envelope : String → String → Value → List (String × Value) → Value
envelope id name rid payload = dict (
    obj (
      ("event_id", str id)
      ∷ ("event_name", str name)
      ∷ ("request_id", rid)
      ∷ ("timestamp", int (pos 0))
      ∷ ("payload", dict (obj payload))
      ∷ []))

abbrev session : List Value
session =
    envelope "e1" "request.received" (str "r1") (("declared_type", str "type.alpha") ∷ [])
    ∷ envelope "e2" "plan.created" (str "r1") []
    ∷ envelope "e3" "verify.passed" (str "r1") []
    ∷ envelope "e4" "task.completed" (str "r1") []
    ∷ envelope "e4" "task.completed" (str "r1") []
    ∷ envelope "e5" "plan.created" (str "r2") []
    ∷ []

abbrev states : List (String × RequestState) → List (String × String)
states l = map (λ e. (e.0, e.1.lifecycle_state)) l

-- The line opens all that a run computes with.
simulate : List Value → List (String × String)
unfolding run handle Envelope.validate find read Ledger.get Dict.get rows decide active_count store
    do_actions put_config get_config pick_row guard_holds evaluate route kept fault write_log
    publish_row decimal last_row strings_of Config.validate evict Dict.keys
simulate envs = states (run up envs (start up default 0)).1.ledger

-- The request completes; the duplicate is a no-op and the unknown request a fault.
run_completes : simulate session ≡ ("r1", "completed") ∷ []
unfolding simulate
run_completes = refl

-- No envelope of the session installs a snapshot.
quiet : (Q : ConfigView → Type 0) → All (Installs Q) session
unfolding find
quiet Q = (still, (still, (still, (still, (still, (still, tt))))))
  where
    still : {A : Type 0} → false ≡ true → A
    still e = absurd (false≢true e)

recover-run_example :
    let s = (run up session (start up default 0)).1 in
    let (ok, s') = recover down s.log (some []) (start down default 7) in
    (ok ≡ true) × (s'.core ≡ s.core)
unfolding simulate is_replayable
recover-run_example =
    recover-run up down default 0 7 session (some []) refl (quiet IsReplayable) refl

-- The request at the end of the session.
abbrev finished : RequestState
finished = record {
  request_id = "r1";
  declared_type = "type.alpha";
  lifecycle_state = "completed";
  config_version = pos 1;
  recorded_verdicts = ("verification", true) ∷ [];
  routing_target = some "planning";
  cancellation_flag = false;
  transition_sequence = 5;
  last_applied_event_id = some "e4";
  replan_count = 0;
}

completed-IsVerified_example : Dict.get "verification" finished.recorded_verdicts ≡ some true
unfolding simulate is_gated
completed-IsVerified_example =
    completed-IsVerified up default 0 session "r1" finished refl (quiet IsGated) refl refl refl

-- The record of a birth, and the state that it is replayed in.
abbrev birth : LogRecord
birth = record {
  request_id = "r1";
  event_id = some "e1";
  sequence = 1;
  prior_state = "created";
  event = "request.received";
  guard_result = true;
  next_state = "initialized";
  config_version = pos 1;
  emitted_events = "request.admitted" ∷ "gate.enforced" ∷ [];
  info = ("declared_type", "type.alpha") ∷ [];
  verdict = none;
  snapshot = none;
}

-- The same record with another next state.
abbrev tampered : LogRecord
tampered = record birth { next_state = "completed" }

abbrev birth_row : Row
birth_row = record {
  when = some "admission_ok";
  next = "initialized";
  emit = "request.admitted" ∷ "gate.enforced" ∷ [];
  gate = some "admission";
  decision = none;
  actions = [];
  chain = some "__routing__";
}

abbrev begin : Core
begin = (start up default 0).core

abbrev born : RequestState
born =
    moved (new_request "r1" "type.alpha" (pos 1)) "request.received" (some "e1") birth_row
      birth.info

replay-Agrees_example : Agrees birth born birth_row begin.config begin.configs (
    advance
      (new_request "r1" "type.alpha" (pos 1))
      "request.received"
      "e1"
      birth_row
      true
      begin.config
      birth.info
      begin)
unfolding simulate replay replay_transition replay_entry replay_row same_record
replay-Agrees_example = replay-Agrees birth born birth_row begin.config begin _ refl

recover-Ended_example :
    Ended up none []
      (birth ∷ tampered ∷ [])
      (recover up (birth ∷ tampered ∷ []) none (start up default 0))
recover-Ended_example = recover-Ended up none (birth ∷ tampered ∷ []) (start up default 0)

-- A request whose task fails, and what is left of it.
abbrev failing_session : List Value
failing_session =
    envelope "e1" "request.received" (str "r1") (("declared_type", str "type.alpha") ∷ [])
    ∷ envelope "e2" "plan.created" (str "r1") []
    ∷ envelope "e3" "task.failed" (str "r1") []
    ∷ []

abbrev replanned : RequestState
replanned = record finished {
  lifecycle_state = "scheduled";
  recorded_verdicts = [];
  transition_sequence = 4;
  last_applied_event_id = some "e3";
  replan_count = 1;
}

no_install : All (Installs (IsCounted 2)) failing_session
unfolding find
no_install = (still, (still, (still, tt)))
  where
    still : {A : Type 0} → false ≡ true → A
    still e = absurd (false≢true e)

replan_count-bounded_example : replanned.replan_count ≤ 2
unfolding simulate is_gated replans_are_counted
replan_count-bounded_example =
    replan_count-bounded 2 up default 0 failing_session "r1" replanned (refl, refl, omega arith)
      no_install refl refl
