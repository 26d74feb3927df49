-- ===== src/Kernel/Default.antt =====
-- src/kernel/default_config.py: the default snapshot, as the data that it is.
use absolute_zero.Prelude.{String, ◌≡◌, refl, Option, none, some, List, [], ◌∷◌, ◌++◌, map}
use absolute_zero.Value.{find, Value, int, pos, str, dict, list, obj, arr, texts, str_or_null}
use absolute_zero.Kernel.Config
use absolute_zero.Kernel.Config.{key_of}
use absolute_zero.Kernel.Ledger.{non_terminal_states, terminal_states}

-- A row; a key that the source leaves out is left out.
abbrev given : String → Option String → List (String × Value) → List (String × Value)
given key none more = more
given key (some v) more = (key, str v) ∷ more

abbrev acting : List String → List (String × Value) → List (String × Value)
acting [] more = more
acting actions more = ("actions", texts actions) ∷ more

abbrev row :
    Option String
    → String
    → List String
    → Option String
    → Option String
    → List String
    → Option String
    → Value
row when next emit gate decision actions chain = dict (
    obj (
      ("when", str_or_null when)
      ∷ ("next", str next)
      ∷ ("emit", texts emit)
      ∷ given "gate" gate (given "decision" decision (acting actions (given "chain" chain [])))))

abbrev entry : String → List Value → String × Value
entry key rows = (key, list (arr rows))

-- Cancellation is legal from every non-terminal state, and a no-op in a terminal one.
abbrev cancel_row : String → String × Value
cancel_row state = entry (key_of state "request.cancelled") (
    row none "cancelled" ("request.cancelled" ∷ "gate.enforced" ∷ []) (some "cancellation") none
      ("set_cancel_flag" ∷ []) none
    ∷ [])

abbrev keep_row : String → String × Value
keep_row state = entry (key_of state "request.cancelled") (row none state [] none none [] none ∷ [])

abbrev transitions : List (String × Value)
transitions =
    entry "created|request.received" (
      row (some "admission_ok") "initialized" ("request.admitted" ∷ "gate.enforced" ∷ [])
        (some "admission") none [] (some "__routing__")
      ∷ row none "failed" ("request.rejected" ∷ "gate.enforced" ∷ []) (some "admission")
          (some "block") [] none
      ∷ [])
    ∷ entry "initialized|__routing__" (
        row (some "routing_ok") "scheduled" ("routing.directive" ∷ []) (some "routing") none
          ("set_routing_target" ∷ []) none
        ∷ row none "failed" ("request.rejected" ∷ "gate.enforced" ∷ []) (some "routing")
            (some "block") [] none
        ∷ [])
    ∷ entry "scheduled|plan.created" (row none "executing" [] none none [] none ∷ [])
    ∷ entry "scheduled|plan.rejected" (row none "scheduled" [] none none [] none ∷ [])
    ∷ entry "executing|verify.passed"
        (row none "executing" [] none none ("record_verdict" ∷ []) none ∷ [])
    ∷ entry "executing|verify.failed"
        (row none "executing" [] none none ("record_verdict" ∷ []) none ∷ [])
    ∷ entry "executing|task.completed" (
        row (some "gate:completion") "completed" ("request.completed" ∷ "gate.enforced" ∷ [])
          (some "completion") none [] none
        ∷ row none "verifying" ("gate.enforced" ∷ []) (some "completion") (some "block") [] none
        ∷ [])
    ∷ entry "executing|task.failed" (
        row (some "replans_remaining") "scheduled" [] none none ("increment_replan" ∷ []) none
        ∷ row none "failed" ("request.failed" ∷ []) none (some "block") [] none
        ∷ [])
    ∷ entry "verifying|verify.passed" (
        row none "completed" ("request.completed" ∷ "gate.enforced" ∷ []) (some "completion") none
          ("record_verdict" ∷ []) none
        ∷ [])
    ∷ entry "verifying|verify.failed" (
        row none "scheduled" ("gate.enforced" ∷ []) (some "completion") (some "block")
          ("record_verdict" ∷ []) none
        ∷ [])
    ∷ (map cancel_row non_terminal_states ++ map keep_row terminal_states)

-- `DEFAULT`
abbrev pub default : Value
default = dict (
    obj (
      ("version", int (pos 1))
      ∷ (
        "inbound_events",
        texts (
            "request.received" ∷ "request.cancelled" ∷ "plan.created" ∷ "plan.rejected"
            ∷ "task.completed" ∷ "task.failed" ∷ "verify.passed" ∷ "verify.failed"
            ∷ "config.changed" ∷ "session.wake" ∷ "session.sleep" ∷ []),
      )
      ∷ (
        "envelope_schemas",
        dict (
            obj (
              ("request.received", texts ("declared_type" ∷ []))
              ∷ ("config.changed", texts ("snapshot" ∷ []))
              ∷ [])),
      )
      ∷ (
        "routing_table",
        dict (obj (("type.alpha", str "planning") ∷ ("type.beta", str "scheduling") ∷ [])),
      )
      ∷ (
        "gates",
        dict (
            obj (
              (
                "completion",
                dict (obj (("check", str "verdict_true") ∷ ("verdict", str "verification") ∷ [])),
              )
              ∷ [])),
      )
      ∷ ("transitions", dict (obj transitions))
      ∷ (
        "fault_policy",
        dict (obj (("max_replans", int (pos 2)) ∷ ("max_active_requests", int (pos 1000)) ∷ [])),
      )
      ∷ []))

default_is_valid : Config.validate default ≡ none
unfolding Config.validate find
default_is_valid = refl
