-- ===== src/Kernel/Recovery/Steps.antt =====
-- src/kernel/coordinator.py: the replay of the records that rows of the table make.
use absolute_zero.Prelude.{
  ℕ, String, ◌≡◌, refl, ◌∙◌, Bool, true, false, Option, none, some, List, [], ◌∷◌, elem, or_else,
  arith, eq_refl, ◌==◌,
}
use absolute_zero.Prelude.Dict
use absolute_zero.Value.{eq_ℤ-refl}
use absolute_zero.Kernel.Config.{ConfigView, Row, Rows, rows}
use absolute_zero.Kernel.Ledger.{RequestState, new_request, store}
use absolute_zero.Kernel.Record.{
  Info, LogRecord, Core, get_config, do_action, do_actions, record_of, advance,
}
use absolute_zero.Kernel.Coordinator.{choose}
use absolute_zero.Kernel.Recovery.{
  Replayed, deviation, skipped, applied, eq_strings, eq_info, eq_bool, same_record, replay_entry,
  replay_row, replay_transition, replay,
}
use absolute_zero.Kernel.Recovery.Table.{reserved_events}

-- The state after a record that replay accepts.
abbrev pub accepted : Replayed → Option Core
accepted (deviation s) = none
accepted (skipped s) = some s
accepted (applied entry row cfg s) = some s

eq_strings_refl : (xs : List String) → eq_strings xs xs ≡ true
unfolding eq_strings
eq_strings_refl [] = refl
eq_strings_refl (x ∷ xs) = ground (arith, eq_refl x, eq_strings_refl xs)

eq_info_refl : (xs : Info) → eq_info xs xs ≡ true
unfolding eq_info
eq_info_refl [] = refl
eq_info_refl ((k, v) ∷ xs) = ground (arith, eq_refl k, eq_refl v, eq_info_refl xs)

eq_bool_refl : (b : Bool) → eq_bool b b ≡ true
unfolding eq_bool
eq_bool_refl true = refl
eq_bool_refl false = refl

number_eq_refl : (n : ℕ) → (n == n) ≡ true
number_eq_refl n = ground arith

module _ (entry : RequestState) (event : String) (event_id : String) (row : Row) (guard : Bool)
    (cfg : ConfigView) (info : Info) where
  abbrev rec : LogRecord
  rec = record_of entry event (some event_id) row guard cfg info

  same_record_refl : same_record rec rec ≡ true
  unfolding same_record
  same_record_refl = ground (
    arith,
    eq_refl entry.request_id,
    eq_refl event_id,
    eq_refl entry.lifecycle_state,
    eq_refl event,
    eq_bool_refl guard,
    eq_refl row.next,
    eq_ℤ-refl cfg.version,
    eq_strings_refl row.emit,
    eq_info_refl info,
  )

request_id-do_action :
    (a : String) (e : RequestState) (event : String) (info : Info)
    → (do_action a e event info).request_id ≡ e.request_id
unfolding do_action
request_id-do_action a e event info = ground arith

sequence-do_action :
    (a : String) (e : RequestState) (event : String) (info : Info)
    → (do_action a e event info).transition_sequence ≡ e.transition_sequence
unfolding do_action
sequence-do_action a e event info = ground arith

module _ (event : String) (info : Info) where
  pub request_id-do_actions :
      (as' : List String) (e : RequestState)
      → (do_actions as' e event info).request_id ≡ e.request_id
  unfolding do_actions
  request_id-do_actions [] e = refl
  request_id-do_actions (a ∷ as') e =
      request_id-do_actions as' _ ∙ request_id-do_action a e event info

  pub sequence-do_actions :
      (as' : List String) (e : RequestState)
      → (do_actions as' e event info).transition_sequence ≡ e.transition_sequence
  unfolding do_actions
  sequence-do_actions [] e = refl
  sequence-do_actions (a ∷ as') e = sequence-do_actions as' _ ∙ sequence-do_action a e event info

module _ (entry : RequestState) (event : String) (event_id : String) (row : Row) (guard : Bool)
    (cfg : ConfigView) (info : Info) (s : Core) (rs : Rows)
    (tabled : rows cfg entry.lifecycle_state event ≡ some rs) (chosen : row ≡ choose rs guard) where
  abbrev logged : LogRecord
  logged = record_of entry event (some event_id) row guard cfg info

  accepted-replay_row :
      accepted (replay_row logged entry cfg s)
      ≡ some (advance entry event event_id row guard cfg info s)
  unfolding replay_row
  accepted-replay_row = ground (
    arith,
    tabled,
    chosen,
    eq_refl entry.lifecycle_state,
    same_record_refl entry event event_id row guard cfg info,
    sequence-do_actions event info row.actions entry,
  )

  -- A transition that the table allows replays to the transition.
  pub accepted-replay :
      get_config cfg.version s.configs ≡ some cfg
      → elem event reserved_events ≡ false
      → Dict.get entry.request_id s.ledger ≡ some entry
      → accepted (replay logged s) ≡ some (advance entry event event_id row guard cfg info s)
  unfolding replay replay_transition
  accepted-replay installed free known = ground (arith, accepted-replay_row)

-- The first transition of a request replays from a ledger that does not have it yet.
module _ (rid declared event_id : String) (row : Row) (guard : Bool) (cfg : ConfigView)
    (info : Info) (s : Core) (rs : Rows) (tabled : rows cfg "created" "request.received" ≡ some rs)
    (chosen : row ≡ choose rs guard) where
  abbrev born : RequestState
  born = new_request rid declared cfg.version

  pub accepted-replay_birth :
      get_config cfg.version s.configs ≡ some cfg
      → Dict.get rid s.ledger ≡ none
      → or_else (Dict.get "declared_type" info) "" ≡ declared
      → accepted (replay (record_of born "request.received" (some event_id) row guard cfg info) s)
        ≡ some (
            advance born "request.received" event_id row guard cfg info
              (record s { ledger = store born s.ledger }))
  unfolding replay replay_transition replay_entry
  accepted-replay_birth installed fresh named = ground (
    arith,
    installed,
    fresh,
    named,
    accepted-replay_row born "request.received" event_id row guard cfg info
        (record s { ledger = store born s.ledger }) rs tabled chosen,
  )
