-- ===== src/Kernel/Recovery/Start.antt =====
-- src/kernel/coordinator.py: the state of a coordinator that has just started.
use mathlib.Core.Path.{subst}
use absolute_zero.Prelude.{◌≡◌, arith, inl, inr, Bool-cases}
use absolute_zero.Prelude.Dict
use absolute_zero.Value.{Value, eq_ℤ, eq_ℤ-refl, eq_ℤ-sound}
use absolute_zero.Kernel.Config.{ConfigView, read}
use absolute_zero.Kernel.Record.{get_config}
use absolute_zero.Kernel.Telemetry.{Outside}
use absolute_zero.Kernel.Recovery.{start}
use absolute_zero.Kernel.Steps.Sound.{IsSound}

pub start-IsSound :
    {Q : ConfigView → Type 0} (o : Outside) (snap : Value) (w : o.World)
    → Q (read snap)
    → IsSound Q (start o snap w).core
unfolding get_config Dict.get
start-IsSound {Q} o snap w fit = record {
  keyed = λ rid entry e. cc;
  current = ground (arith, eq_ℤ-refl (read snap).version);
  versions = λ v cfg e. ground (arith, eq_ℤ-sound (read snap).version v);
  checked = λ v cfg e. elim (Bool-cases (eq_ℤ (read snap).version v)) [
    | inl same ↦ let found : read snap ≡ cfg = ground arith in subst Q found fit
    | inr other ↦ absurd (ground arith)
  ];
}
