-- ===== src/Kernel/Coordinator/Picking.antt =====
-- src/kernel/coordinator.py: the row that `_pick_row` returns.
use absolute_zero.Prelude.{
  ◌≡◌, inl, inr, Bool, true, some, List, [], ◌∷◌, ◌&&◌, all_of, arith, Bool-cases,
}
use absolute_zero.Kernel.Config.{ConfigView, Row, Rows}
use absolute_zero.Kernel.Ledger.{RequestState}
use absolute_zero.Kernel.Coordinator.{row_applies, pick_other, pick_row}

module _ (p : Row → Bool) (entry : RequestState) (cfg : ConfigView) (row : Row) (guard : Bool) where
  abbrev Passes : Type 0
  Passes = (p row ≡ true) × (row_applies row entry cfg ≡ true)

  pick_other-Passes :
      (rs : List Row) → all_of p rs ≡ true → pick_other rs entry cfg ≡ some (row, guard) → Passes
  unfolding pick_other
  pick_other-Passes [] h e = absurd (cc e)
  pick_other-Passes (r ∷ rs) h e = elim (Bool-cases (row_applies r entry cfg)) [
    | inl here ↦ ground arith
    | inr there ↦ pick_other-Passes rs (ground arith) (ground arith)
  ]

  pub pick_row-Passes :
      (rs : Rows)
      → (p rs.first && all_of p rs.others) ≡ true
      → pick_row rs entry cfg ≡ some (row, guard)
      → Passes
  unfolding pick_row
  pick_row-Passes rs h e = elim (Bool-cases (row_applies rs.first entry cfg)) [
    | inl here ↦ ground arith
    | inr there ↦ pick_other-Passes rs.others (ground arith) (ground arith)
  ]
