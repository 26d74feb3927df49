-- ===== src/Ws/Runtime/Acts.antt =====
-- Invariants of the pieces that the methods of src/ws/runtime.py are made of.
use absolute_zero.Prelude.{String, ◌≡◌, refl, ◌⊎◌, inl, inr}
use absolute_zero.Ws.Runtime.{Workflow, Outside, Outcome, done, raised, R, Act, ◌then◌}

out-cases : (x : Outcome) → (x ≡ done) ⊎ ((e : String) × (x ≡ raised e))
out-cases done = inl refl
out-cases (raised e) = inr (e, refl)

module _ (o : Outside) (wf : Workflow) (P : R o wf → Type 0) where
  abbrev pub Keeps : Act o wf → Type 0
  Keeps a = (r : R o wf) → P r → P (a r).1

  pub then-Keeps : (a b : Act o wf) → Keeps a → Keeps b → Keeps (◌then◌ o wf a b)
  unfolding ◌then◌
  then-Keeps a b ka kb r h = elim (out-cases (a r).0) [
    | inl fine ↦ rw (fine, ◌then◌) (kb (a r).1 (ka r h))
    | inr (e, bad) ↦ rw (bad, ◌then◌) (ka r h)
  ]
