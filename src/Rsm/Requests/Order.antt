-- ===== src/Rsm/Requests/Order.antt =====
-- src/rsm/store.py and src/rsm/ingest.py: the order of the materialization states.
use absolute_zero.Prelude.{ℕ, ◌≤◌, String, inl, inr, List, arith}
use absolute_zero.Rsm.Transitions.{State, absent, active, terminal, persisted, retained, evicted}
use absolute_zero.Rsm.Store.{state_of}
use absolute_zero.Rsm.Ingest.{Ingest, Outcome}
use absolute_zero.Rsm.Requests.{View, view}
use absolute_zero.Rsm.Requests.Accepted.{Accepted, unmoved, births, folds, serve-keeps}
use absolute_zero.Rsm.Requests.Steps.{
  Step, served, moved, persists, evicts, stays, Call, perform_all, perform_all-keeps,
}

-- The place of a state on the way of a request.
abbrev pub rank : State → ℕ
rank absent = 0
rank active = 1
rank terminal = 2
rank persisted = 3
rank retained = 4
rank evicted = 5

Accepted-rank :
    (r e : String) (v : View) (out : View × Outcome)
    → Accepted r e v out
    → rank v.state ≤ rank out.0.state
Accepted-rank r e v _ (unmoved o h) = ground arith
Accepted-rank r e v _ (births fields fresh unborn) = ground arith
Accepted-rank r e v _ (folds family f event current new s fresh found live c (inl same)) =
    ground arith
Accepted-rank r e v _ (folds family f event current new s fresh found live c (inr ends)) =
    ground arith

Step-rank : (q : String) (v w : View) → Step q v w → rank v.state ≤ rank w.state
Step-rank q v _ (served event _) =
    serve-keeps q event v (λ w. rank v.state ≤ rank w.state) (ground arith)
      (λ e family out named way. Accepted-rank q e v out way)
Step-rank q v _ (moved _ _ (persists _ over)) = ground arith
Step-rank q v _ (moved _ _ (evicts _ over)) = ground arith
Step-rank q v _ (moved _ _ (stays _)) = ground arith

-- Over any calls of the pipeline and of the store, the state of a request only advances in the
-- order absent, active, terminal, persisted, retained, evicted.
pub state-advances :
    (cs : List Call) (i : Ingest) (q : String)
    → rank (state_of q i.store) ≤ rank (state_of q (perform_all cs i).store)
unfolding view
state-advances cs i q =
    perform_all-keeps q (λ v. rank (state_of q i.store) ≤ rank v.state)
      (λ v w step h. omega (arith, Step-rank q v w step)) cs i (ground arith)
