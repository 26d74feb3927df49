-- ===== src/Ws/Tests.antt =====
-- A run of a workflow of two units, and the theorem at that run.
use absolute_zero.Prelude.{ℕ, String, ◌≡◌, refl, true, none, some, List, [], ◌∷◌}
use absolute_zero.Ws.Runtime.{
  Workflow, UnitSpec, Outside, Rec, activated, dispatched, exec_result, verdict, terminal,
  succeeded, Call, activation, dispatching, verdict_on, perform_all, perform, new_run, replay,
}
use absolute_zero.Ws.Runtime.Ordered.{preds_done}
use absolute_zero.Ws.Runtime.Order.{started-preds_done}
use absolute_zero.Ws.Runtime.Replay.{replay-journal}

abbrev plain : String → UnitSpec
plain band = record { priority_band = band; group_id = none }

abbrev chain : Workflow
chain = record {
  workflow_id = "wf-1";
  units = ("a", plain "CRITICAL") ∷ ("b", plain "OPTIONAL") ∷ [];
  edges = ("a", "b") ∷ [];
  canonical_order = "a" ∷ "b" ∷ [];
  groups = [];
  content_hash = "h";
}

-- Every event is taken, and every execution completes.
abbrev good : Outside
good = record {
  World = ℕ;
  publish = λ name unit payload w. (w, true);
  bound = true;
  execute = λ unit w. (w, some true);
}

abbrev calls : List Call
calls = activation ∷ dispatching ∷ verdict_on "a" true ∷ []

abbrev calls_on_both : List Call
calls_on_both = activation ∷ dispatching ∷ verdict_on "a" true ∷ dispatching ∷ []

abbrev journal : List Rec
journal =
    activated
    ∷ dispatched "a"
    ∷ exec_result "a" true
    ∷ verdict "a" true
    ∷ terminal "a" succeeded
    ∷ []

replay-journal_example :
    replay chain journal ≡ (perform_all good chain calls (new_run good chain 0)).progress
unfolding perform_all perform new_run
replay-journal_example = replay-journal good chain calls 0 journal refl

-- The second unit is executing, so the first has succeeded.
started-preds_done_example :
    preds_done chain (perform_all good chain calls_on_both (new_run good chain 0)).progress "b"
    ≡ true
unfolding perform_all perform new_run
started-preds_done_example = started-preds_done good chain calls_on_both 0 "b" refl
