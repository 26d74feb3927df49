-- ===== src/Kernel/Recovery/Boundaries.antt =====
-- The records that no table row makes: duplicates, session events, snapshots and cleanups.
use absolute_zero.Prelude.{String, ◌≡◌, refl, true, false, none, some, elem, arith, str_eq}
use absolute_zero.Value.{ℤ, Value}
use absolute_zero.Kernel.Config
use absolute_zero.Kernel.Config.{read}
use absolute_zero.Kernel.Ledger.{RequestState}
use absolute_zero.Kernel.Record.{
  Core, install, append_log, boundary_record, noop_record, clean_up, cleanup_record,
}
use absolute_zero.Kernel.Coordinator.{session_events}
use absolute_zero.Kernel.Recovery.{replay}
use absolute_zero.Kernel.Recovery.Table.{reserved_events}
use absolute_zero.Kernel.Recovery.Steps.{accepted}

pub accepted-replay_noop :
    (entry : RequestState) (event_id event verdict : String) (s : Core)
    → elem event reserved_events ≡ false
    → accepted (replay (noop_record entry event_id event verdict) s)
      ≡ some (append_log (noop_record entry event_id event verdict) s)
unfolding replay
accepted-replay_noop entry event_id event verdict s free = ground arith

pub accepted-replay_session :
    (event : String) (v : ℤ) (s : Core)
    → elem event session_events ≡ true
    → str_eq event "config.changed" ≡ false
    → accepted (replay (boundary_record event v none) s)
      ≡ some (append_log (boundary_record event v none) s)
unfolding replay
accepted-replay_session event v s h k = ground arith

pub accepted-replay_config :
    (snap : Value) (v : ℤ) (s : Core)
    → Config.validate snap ≡ none
    → accepted (replay (boundary_record "config.changed" v (some snap)) s)
      ≡ some (append_log (boundary_record "config.changed" v (some snap)) (install (read snap) s))
unfolding replay
accepted-replay_config snap v s h = rw h

pub accepted-replay_cleanup :
    (rid : String) (entry : RequestState) (s : Core)
    → accepted (replay (cleanup_record rid entry) s) ≡ some (clean_up rid entry s)
unfolding replay
accepted-replay_cleanup rid entry s = refl
