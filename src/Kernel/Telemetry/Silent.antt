-- ===== src/Kernel/Telemetry/Silent.antt =====
-- src/kernel/coordinator.py: what publishing does to the state that recovery rebuilds.
use absolute_zero.Prelude.{
  ℕ, ◌+◌, String, ◌≡◌, refl, ◌∙◌, true, Option, none, some, List, [], ◌∷◌, arith,
}
use absolute_zero.Value.{Value, Fields}
use absolute_zero.Kernel.Config.{ConfigView, Row}
use absolute_zero.Kernel.Ledger.{RequestState}
use absolute_zero.Kernel.Record.{Info, LogRecord, append_log}
use absolute_zero.Kernel.Telemetry.{
  Message, Outside, C, safe_publish, emit, fault, write_log, outbound_id, publish_from, publish_row,
}

module _ (o : Outside) where
  core-safe_publish :
      (topic : String) (m : Message) (c : C o) → (safe_publish o topic m c).core ≡ c.core
  unfolding safe_publish
  core-safe_publish topic m c = ground arith

  core-emit :
      (name : String) (rid : Value) (payload : Fields) (cfg : ConfigView) (id : Option String)
      (c : C o)
      → (emit o name rid payload cfg id c).core ≡ c.core
  unfolding emit
  core-emit name rid payload cfg none c = ground arith
  core-emit name rid payload cfg (some id) c = ground arith

  pub core-fault :
      (reason : String) (env : Option Fields) (c : C o) → (fault o reason env c).core ≡ c.core
  unfolding fault
  core-fault reason none c = ground arith
  core-fault reason (some env) c = ground arith

  pub halted-fault :
      (reason : String) (env : Option Fields) (c : C o)
      → c.halted ≡ true
      → (fault o reason env c).halted ≡ true
  unfolding fault
  halted-fault reason none c h = ground arith
  halted-fault reason (some env) c h = ground arith

  pub core-write_log : (r : LogRecord) (c : C o) → (write_log o r c).core ≡ append_log r c.core
  unfolding write_log
  core-write_log r c = ground arith

  core-publish_from :
      (index : ℕ) (names : List String) (entry : RequestState) (row : Row) (decision : String)
      (cfg : ConfigView) (info : Info) (c : C o)
      → (publish_from o index names entry row decision cfg info c).core ≡ c.core
  unfolding publish_from
  core-publish_from index [] entry row decision cfg info c = refl
  core-publish_from index (name ∷ names) entry row decision cfg info c =
      core-publish_from (index + 1) names entry row decision cfg info _
      ∙ core-emit name _ _ cfg (some (outbound_id o entry index)) c

  pub core-publish_row :
      (entry : RequestState) (row : Row) (decision : String) (cfg : ConfigView) (info : Info)
      (c : C o)
      → (publish_row o entry row decision cfg info c).core ≡ c.core
  unfolding publish_row
  core-publish_row entry row = core-publish_from 0 row.emit entry row
