-- ===== src/Kernel/Coordinator/Effects.antt =====
-- What the steps of the coordinator do to the ledger and the log, whatever is published.
use absolute_zero.Prelude.{◌≡◌, ◌∙◌, String, Bool}
use absolute_zero.Kernel.Config.{ConfigView, Row}
use absolute_zero.Kernel.Ledger.{RequestState}
use absolute_zero.Kernel.Record.{Info, advance}
use absolute_zero.Kernel.Telemetry.{Outside}
use absolute_zero.Kernel.Telemetry.Silent.{core-write_log, core-publish_row}
use absolute_zero.Kernel.Coordinator.{C, transition}

module _ (o : Outside) where
  pub core-transition :
      (entry : RequestState) (event event_id : String) (row : Row) (guard : Bool) (cfg : ConfigView)
      (info : Info) (c : C o)
      → (transition o entry event event_id row guard cfg info c).core
        ≡ advance entry event event_id row guard cfg info c.core
  unfolding transition
  core-transition entry event event_id row guard cfg info c =
      core-publish_row o _ row _ cfg info _ ∙ core-write_log o _ _
