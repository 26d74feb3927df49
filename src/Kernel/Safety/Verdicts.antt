-- ===== src/Kernel/Safety/Verdicts.antt =====
-- What the actions of a row do to the recorded verdict, and what the completion gate reads.
use absolute_zero.Prelude.{
  String, ◌≡◌, ◌∙◌, ap, sym, refl, if◌then◌else◌, inl, inr, Bool, true, false, Option, none, some,
  List, [], ◌∷◌, elem, arith, or_else, str_eq, eq_iff, Bool-cases,
}
use absolute_zero.Prelude.Dict
use absolute_zero.Prelude.Dict.{get-put}
use absolute_zero.Value.{Value, str, Fields, end, find}
use absolute_zero.Kernel.Config.{ConfigView}
use absolute_zero.Kernel.Ledger.{RequestState}
use absolute_zero.Kernel.Gates.{evaluate, verdict_true}
use absolute_zero.Kernel.Record.{Info, do_action, do_actions}
use absolute_zero.Kernel.Coordinator.{guard_holds}
use absolute_zero.Kernel.Safety.{completion_gate}

-- A `verify.passed` has been recorded, and no verdict after it.
abbrev pub IsVerified : RequestState → Type 0
IsVerified entry = Dict.get "verification" entry.recorded_verdicts ≡ some true

module _ (event : String) (info : Info) where
  verdicts-do_action :
      (a : String) (entry : RequestState)
      → str_eq "record_verdict" a ≡ false
      → (do_action a entry event info).recorded_verdicts ≡ entry.recorded_verdicts
  unfolding do_action
  verdicts-do_action a entry h =
      ground (arith, eq_iff a "record_verdict", eq_iff "record_verdict" a)

  -- Without `record_verdict` the verdicts stay as they are.
  pub verdicts-do_actions :
      (as' : List String) (entry : RequestState)
      → elem "record_verdict" as' ≡ false
      → (do_actions as' entry event info).recorded_verdicts ≡ entry.recorded_verdicts
  unfolding do_actions
  verdicts-do_actions [] entry h = refl
  verdicts-do_actions (a ∷ as') entry h =
      verdicts-do_actions as' _ (ground arith) ∙ verdicts-do_action a entry (ground arith)

  do_action-IsVerified :
      (a : String) (entry : RequestState)
      → str_eq event "verify.passed" ≡ true
      → IsVerified entry
      → IsVerified (do_action a entry event info)
  unfolding do_action
  do_action-IsVerified a entry pass h =
      ground (arith, get-put "verification" "verification" true entry.recorded_verdicts)

  do_actions-IsVerified :
      (as' : List String) (entry : RequestState)
      → str_eq event "verify.passed" ≡ true
      → IsVerified entry
      → IsVerified (do_actions as' entry event info)
  unfolding do_actions
  do_actions-IsVerified [] entry pass h = h
  do_actions-IsVerified (a ∷ as') entry pass h =
      do_actions-IsVerified as' _ pass (do_action-IsVerified a entry pass h)

  do_action-records :
      (a : String) (entry : RequestState)
      → str_eq event "verify.passed" ≡ true
      → str_eq "record_verdict" a ≡ true
      → IsVerified (do_action a entry event info)
  unfolding do_action
  do_action-records a entry pass h = ground (
    arith,
    eq_iff a "record_verdict",
    eq_iff "record_verdict" a,
    get-put "verification" "verification" true entry.recorded_verdicts,
  )

  -- `record_verdict` on `verify.passed` leaves the request verified.
  pub do_actions-records :
      (as' : List String) (entry : RequestState)
      → str_eq event "verify.passed" ≡ true
      → elem "record_verdict" as' ≡ true
      → IsVerified (do_actions as' entry event info)
  unfolding do_actions
  do_actions-records [] entry pass h = ground arith
  do_actions-records (a ∷ as') entry pass h = elim (Bool-cases (str_eq "record_verdict" a)) [
    | inl now ↦ do_actions-IsVerified as' _ pass (do_action-records a entry pass now)
    | inr later ↦ do_actions-records as' _ pass (ground arith)
  ]

or_else-true : (v : Option Bool) → or_else v false ≡ true → v ≡ some true
or_else-true none e = absurd (cc e)
or_else-true (some b) e = ap some e

permits :
    (check : Option Value) (b : Bool)
    → elim check [ some (str s) ↦ if str_eq s "verdict_true" then b else false | _ ↦ false ] ≡ true
    → b ≡ true
permits (some (str s)) b e = ground arith
permits _ b e = ground arith

verdict_true-IsVerified :
    (entry : RequestState) (gate : Fields)
    → completion_gate (some gate) ≡ true
    → verdict_true entry gate ≡ true
    → IsVerified entry
unfolding verdict_true find
verdict_true-IsVerified entry gate h e = go (find "verdict" gate) h e
  where
    go :
        (v : Option Value)
        → elim v [ some (str s) ↦ str_eq s "verification" | some w ↦ false | none ↦ true ] ≡ true
        → or_else
            (Dict.get
              (elim v [ some (str s) ↦ s | some w ↦ "" | none ↦ "verification" ])
              entry.recorded_verdicts)
            false
          ≡ true
        → IsVerified entry
    go none h e = or_else-true _ e
    go (some (str s)) h e =
        let name : s ≡ "verification" = ground (arith, eq_iff s "verification") in
        ap (λ (k : String). Dict.get k entry.recorded_verdicts) (sym name) ∙ or_else-true _ e
    go (some w) h e = absurd (cc h)

evaluate-IsVerified :
    (entry : RequestState) (found : Option Fields)
    → completion_gate found ≡ true
    → evaluate entry (or_else found end) ≡ true
    → IsVerified entry
unfolding evaluate find
evaluate-IsVerified entry none h e = ground arith
evaluate-IsVerified entry (some gate) h e =
    verdict_true-IsVerified entry gate h (permits (find "check" gate) (verdict_true entry gate) e)

-- The completion gate permits only a verified request.
pub gate-IsVerified :
    (entry : RequestState) (cfg : ConfigView)
    → completion_gate (Dict.get "completion" cfg.gates) ≡ true
    → guard_holds "gate:completion" entry cfg ≡ true
    → IsVerified entry
unfolding guard_holds
gate-IsVerified entry cfg h e = evaluate-IsVerified entry (Dict.get "completion" cfg.gates) h e
