-- ===== src/Kernel/Steps.antt =====
-- The coordinator as a relation: each step appends one record to the log, and changes the ledger
-- or the installed snapshots as that record says.
pub mod Sound
use absolute_zero.Prelude.{
  String, ◌≡◌, Bool, true, false, Option, none, some, List, [], elem, or_else, str_eq,
}
use absolute_zero.Prelude.Dict
use absolute_zero.Value.{ℤ, Value}
use absolute_zero.Kernel.Config
use absolute_zero.Kernel.Config.{ConfigView, Row, Rows, rows, read}
use absolute_zero.Kernel.Ledger.{RequestState, new_request, terminal_states, store}
use absolute_zero.Kernel.Record.{
  Info, Core, get_config, install, append_log, advance, clean_up, boundary_record, noop_record,
}
use absolute_zero.Kernel.Coordinator.{pick_row, choose, session_events}

-- An inbound event that is about a request.
pub record IsRequestEvent (s : Core) (event : String) : Type 0 where
  pub inbound : elem event s.config.inbound_events ≡ true
  pub no_config : str_eq event "config.changed" ≡ false
  pub no_session : elem event session_events ≡ false

-- One record's worth of work. `Q` holds of every snapshot that a step installs.
pub data Step (Q : ConfigView → Type 0) (s t : Core) : Type 0 where
  work :
      (entry : RequestState) (event event_id : String) (rs : Rows) (row : Row) (guard : Bool)
      (cfg : ConfigView)
      → IsRequestEvent s event
      → str_eq event "request.received" ≡ false
      → Dict.get entry.request_id s.ledger ≡ some entry
      → get_config cfg.version s.configs ≡ some cfg
      → rows cfg entry.lifecycle_state event ≡ some rs
      → pick_row rs entry cfg ≡ some (row, guard)
      → t ≡ advance entry event event_id row guard cfg [] s
      → Step Q s t
  birth :
      (rid declared event_id : String) (info : Info) (rs : Rows) (guard : Bool) (cfg : ConfigView)
      → or_else (Dict.get "declared_type" info) "" ≡ declared
      → Dict.get rid s.ledger ≡ none
      → get_config cfg.version s.configs ≡ some cfg
      → rows cfg "created" "request.received" ≡ some rs
      → t
        ≡ advance
            (new_request rid declared cfg.version)
            "request.received"
            event_id
            (choose rs guard)
            guard
            cfg
            info
            (record s { ledger = store (new_request rid declared cfg.version) s.ledger })
      → Step Q s t
  chained :
      (entry : RequestState) (event event_id : String) (info : Info) (from rs : Rows)
      (permitted guard : Bool) (cfg : ConfigView)
      → Dict.get entry.request_id s.ledger ≡ some entry
      → get_config cfg.version s.configs ≡ some cfg
      → rows cfg "created" "request.received" ≡ some from
      → (choose from permitted).chain ≡ some event
      → str_eq event "" ≡ false
      → rows cfg entry.lifecycle_state event ≡ some rs
      → t ≡ advance entry event event_id (choose rs guard) guard cfg info s
      → Step Q s t
  installed :
      (snap : Value)
      → Config.validate snap ≡ none
      → Q (read snap)
      → t
        ≡ append_log
            (boundary_record "config.changed" (read snap).version (some snap))
            (install (read snap) s)
      → Step Q s t
  duplicate :
      (entry : RequestState) (event_id event : String)
      → IsRequestEvent s event
      → t ≡ append_log (noop_record entry event_id event "duplicate") s
      → Step Q s t
  session :
      (name : String) (v : ℤ)
      → elem name session_events ≡ true
      → str_eq name "config.changed" ≡ false
      → t ≡ append_log (boundary_record name v none) s
      → Step Q s t
  cleaned :
      (rid : String) (entry : RequestState)
      → Dict.get rid s.ledger ≡ some entry
      → elem entry.lifecycle_state terminal_states ≡ true
      → t ≡ clean_up rid entry s
      → Step Q s t

pub data Reach (Q : ConfigView → Type 0) (s : Core) : Core → Type 0 where
  here : Reach Q s s
  next : {t u : Core} → Reach Q s t → Step Q t u → Reach Q s u

pub Reach-trans : {Q : ConfigView → Type 0} {s t u : Core} → Reach Q s t → Reach Q t u → Reach Q s u
Reach-trans a here = a
Reach-trans a (next b st) = next (Reach-trans a b) st
