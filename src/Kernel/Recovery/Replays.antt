-- ===== src/Kernel/Recovery/Replays.antt =====
-- src/kernel/coordinator.py: the replay of the record of each step.
use absolute_zero.Prelude.{
  String, ◌≡◌, refl, true, false, none, some, List, [], ◌∷◌, elem, arith, str_eq, eq_iff,
}
use absolute_zero.Kernel.Config.{read}
use absolute_zero.Kernel.Ledger.{new_request}
use absolute_zero.Kernel.Record.{
  LogRecord, Core, record_of, boundary_record, noop_record, cleanup_record,
}
use absolute_zero.Kernel.Coordinator.{choose}
use absolute_zero.Kernel.Steps.{
  IsRequestEvent, Step, work, birth, chained, installed, duplicate, session, cleaned,
}
use absolute_zero.Kernel.Steps.Sound.{IsSound}
use absolute_zero.Kernel.Recovery.{replay}
use absolute_zero.Kernel.Recovery.Table.{
  IsReplayable, reserved_events, picked-choose, chain-free, inbound-free,
}
use absolute_zero.Kernel.Recovery.Steps.{accepted, accepted-replay, accepted-replay_birth}
use absolute_zero.Kernel.Recovery.Boundaries.{
  accepted-replay_noop, accepted-replay_session, accepted-replay_config, accepted-replay_cleanup,
}

-- A name that the list has is not one that it lacks.
elem-ne :
    (a b : String) (xs : List String) → elem a xs ≡ true → elem b xs ≡ false → str_eq a b ≡ false
elem-ne a b [] h k = ground arith
elem-ne a b (x ∷ xs) h k = ground (arith, eq_iff a x, eq_iff b x, eq_iff a b, elem-ne a b xs)

free_event :
    {s : Core} (event : String)
    → IsSound IsReplayable s
    → IsRequestEvent s event
    → elem event reserved_events ≡ false
free_event {s} event h asked = ground (
  arith,
  asked.no_config,
  asked.no_session,
  elem-ne event "__cleanup__" s.config.inbound_events asked.inbound
      (inbound-free s.config (h.checked s.config.version s.config h.current)),
)

-- The record that a step logs.
abbrev pub Replays : Core → Core → Type 0
Replays s t = (r : LogRecord) × (accepted (replay r s) ≡ some t)

pub Step-Replays : {s t : Core} → Step IsReplayable s t → IsSound IsReplayable s → Replays s t
Step-Replays {s}
      (work entry event eid rs row guard cfg asked other known at_version tabled picked e) h =
    (
      record_of entry event (some eid) row guard cfg [],
      rw e (
          accepted-replay entry event eid row guard cfg [] s rs tabled
            (picked-choose cfg entry.lifecycle_state event rs entry row guard
              (h.checked cfg.version cfg at_version) tabled picked)
            at_version (free_event event h asked) known),
    )
Step-Replays {s} (birth rid declared eid info rs guard cfg named fresh at_version tabled e) h = (
  record_of (new_request rid declared cfg.version) "request.received" (some eid) (choose rs guard)
      guard cfg info,
  rw e (
      accepted-replay_birth rid declared eid (choose rs guard) guard cfg info s rs tabled refl
        at_version fresh named),
)
Step-Replays {s}
      (chained entry event eid info from rs permitted guard cfg known at_version birth_rows link
        named tabled e)
      h =
    (
      record_of entry event (some eid) (choose rs guard) guard cfg info,
      rw e (
          accepted-replay entry event eid (choose rs guard) guard cfg info s rs tabled refl
            at_version
            (chain-free cfg "created" "request.received" from permitted event
              (h.checked cfg.version cfg at_version) birth_rows link)
            known),
    )
Step-Replays {s} (installed snap valid q e) h = (
  boundary_record "config.changed" (read snap).version (some snap),
  rw e (accepted-replay_config snap _ s valid),
)
Step-Replays {s} (duplicate entry eid event asked e) h = (
  noop_record entry eid event "duplicate",
  rw e (accepted-replay_noop entry eid event "duplicate" s (free_event event h asked)),
)
Step-Replays {s} (session name v boundary other e) h =
    (boundary_record name v none, rw e (accepted-replay_session name v s boundary other))
Step-Replays {s} (cleaned rid entry known ended e) h =
    (cleanup_record rid entry, rw e (accepted-replay_cleanup rid entry s))
