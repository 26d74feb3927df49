-- ===== src/Rsm/Query/Honest.antt =====
-- src/rsm/query.py: the reads of a store that the pipeline has made.
use absolute_zero.Prelude.{
  String, ◌≡◌, refl, sym, ap, ◌∙◌, inl, inr, true, false, Option, none, some, List, is_some, arith,
  Bool-cases, Option-cases, if◌then◌else◌,
}
use absolute_zero.Rsm.Transitions.{State}
use absolute_zero.Rsm.Journal.{ids}
use absolute_zero.Rsm.Store.{Store, state_of, get_record}
use absolute_zero.Rsm.Telemetry.{Telemetry}
use absolute_zero.Rsm.Requests.{view}
use absolute_zero.Rsm.Requests.Kept.{is_live, started, requests-IsKept}
use absolute_zero.Rsm.Requests.Steps.{Call, perform_all}
use absolute_zero.Rsm.Query.{is_hidden, snapshot, budget, failures, journal_read}

hidden-live : (s : State) → is_live s ≡ (if is_hidden s then false else true)
hidden-live s = ground arith

none_of : {A : Type 0} (o : Option A) → is_some o ≡ false → none ≡ o
none_of none h = refl
none_of (some a) h = absurd (cc h)

snapshot-record :
    (s : Store) (r : String)
    → is_some (get_record r s) ≡ (if is_hidden (state_of r s) then false else true)
    → snapshot s r ≡ get_record r s
unfolding snapshot
snapshot-record s r there = elim (Bool-cases (is_hidden (state_of r s))) [
  | inl off ↦
      rw (off, snapshot)
        (none_of (get_record r s) (there ∙ ap (λ b. if b then false else true) off))
  | inr on ↦ rw (on, snapshot) refl
]

budget-shown : (s : Store) (r : String) → is_some (budget s r) ≡ is_some (snapshot s r)
unfolding budget
budget-shown s r = elim (Option-cases (snapshot s r)) [
  | inl gone ↦ rw (gone, budget) refl
  | inr (c, here) ↦ rw (here, budget) refl
]

failures-shown : (s : Store) (r : String) → is_some (failures s r) ≡ is_some (snapshot s r)
unfolding failures
failures-shown s r = elim (Option-cases (snapshot s r)) [
  | inl gone ↦ rw (gone, failures) refl
  | inr (c, here) ↦ rw (here, failures) refl
]

-- After any calls, `snapshot`, `budget`, `failures` and `journal_read` answer nothing exactly for
-- the requests that are absent or evicted; `snapshot` is what the store holds, and what
-- `journal_read` answers are the ids that the journal has seen.
pub reads-honest :
    (cs : List Call) (t : Option Telemetry) (r : String)
    → let i = perform_all cs (started t) in
      let shown = if is_hidden (state_of r i.store) then false else true in
      (is_some (snapshot i.store r) ≡ shown)
      × (is_some (budget i.store r) ≡ shown)
      × (is_some (failures i.store r) ≡ shown)
      × (snapshot i.store r ≡ get_record r i.store)
      × (journal_read i.journal i.store r
          ≡ (if is_hidden (state_of r i.store) then none else some (ids r i.journal)))
unfolding journal_read view
reads-honest cs t r =
    let i = perform_all cs (started t) in
    let kept = requests-IsKept cs t r in
    let there = kept.materialized ∙ hidden-live (state_of r i.store) in
    let same = snapshot-record i.store r there in
    let shown = ap is_some same ∙ there in
    (
      shown,
      budget-shown i.store r ∙ shown,
      failures-shown i.store r ∙ shown,
      same,
      ap (λ ids'. if is_hidden (state_of r i.store) then none else some ids') (sym kept.named),
    )
