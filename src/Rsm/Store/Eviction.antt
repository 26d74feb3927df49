-- ===== src/Rsm/Store/Eviction.antt =====
-- src/rsm/store.py: the gate of the eviction, and what is left of an evicted request.
use absolute_zero.Prelude.{
  ℕ, ◌+◌, ◌≤◌, String, ◌≡◌, ◌≢◌, ◌↔◌, refl, sym, ap, ◌∙◌, inl, inr, true, false, none, some, List,
  arith, eq_refl, leb, leb→le, Bool-cases, Option-cases,
}
use absolute_zero.Prelude.Dict
use absolute_zero.Rsm.Transitions.{evicted, is_terminal_like}
use absolute_zero.Rsm.Reducers.{Event}
use absolute_zero.Rsm.Store.{Store, state_of, get_record, evict_gate, mark_evicted}
use absolute_zero.Rsm.Ingest.{Ingest, Outcome, applied, names_of, process}
use absolute_zero.Rsm.Requests.{View, view, accept}
use absolute_zero.Rsm.Requests.Accepted.{
  Accepted, unmoved, births, folds, accept-Accepted, serve-keeps,
}
use absolute_zero.Rsm.Requests.Steps.{
  Step, served, moved, persists, evicts, stays, Call, evicting, perform, perform_all,
  perform_all-keeps, evicted_view,
}
use absolute_zero.Rsm.Requests.Views.{process_named-Serves}

-- The gate opens exactly if the request is terminal, was persisted at some time, and the retention
-- window has passed since then; if it does not open, the store stays as it is.
pub evict_gate_iff :
    (r : String) (now window : ℕ) (s : Store)
    → (((evict_gate r now window s).0 ≡ true) ↔ (
        (is_terminal_like (state_of r s) ≡ true)
        × ((at : ℕ) × (Dict.get r s.persisted_at ≡ some at) × (at + window ≤ now))))
      × ((evict_gate r now window s).0 ≡ false → (evict_gate r now window s).1 ≡ s)
unfolding evict_gate
evict_gate_iff r now window s = elim (Option-cases (Dict.get r s.persisted_at)) [
  | inl never ↦ ((λ h. absurd (ground arith), λ h. absurd (ground arith)), λ h. ground arith)
  | inr (at, found) ↦ elim (Bool-cases (leb (at + window) now)) [
    | inl late ↦ (
      (λ h. (ground arith, (at, found, leb→le (at + window) now late)), λ h. ground arith),
      λ h. ground arith,
    )
    | inr early ↦ ((λ h. absurd (ground arith), λ h. absurd (ground arith)), λ h. ground arith)
  ]
]

-- An evicted request, with no record.
abbrev Gone : View → Type 0
Gone v = (v.state ≡ evicted) × (v.current ≡ none)

Accepted-Gone :
    (r e : String) (v : View) (out : View × Outcome)
    → Gone v
    → Accepted r e v out
    → Gone out.0 × (out.1 ≢ applied)
Accepted-Gone r e v _ gone (unmoved o h) = (gone, h)
Accepted-Gone r e v _ gone (births fields fresh unborn) = absurd (ground arith)
Accepted-Gone r e v _ gone (folds family f event current new s fresh found live c next) =
    absurd (cc (sym gone.1 ∙ live))

Step-Gone : (r : String) (v w : View) → Step r v w → Gone v → Gone w
Step-Gone r v _ (served event _) gone =
    serve-keeps r event v Gone gone (λ e family out named way. (Accepted-Gone r e v out gone way).0)
Step-Gone r v _ (moved _ _ (persists _ over)) gone = absurd (ground arith)
Step-Gone r v _ (moved _ _ (evicts _ over)) gone = (refl, refl)
Step-Gone r v _ (moved _ _ (stays _)) gone = gone

pub evicting-Gone :
    (r : String) (now window : ℕ) (i : Ingest)
    → (evict_gate r now window i.store).0 ≡ true
    → Gone (view r (perform (evicting r now window) i))
unfolding evict_gate perform
evicting-Gone r now window i gone =
    let same : (evict_gate r now window i.store).1 ≡ mark_evicted r i.store = ground arith in
    let seen : view r (perform (evicting r now window) i)
        ≡ record (view r i) { state = evicted; current = none } =
      ap (λ s. view r (record i { store = s })) same ∙ rw (evicted_view r r i, eq_refl r) refl in
    (ap (λ v. v.state) seen, ap (λ v. v.current) seen)

-- Once the gate has evicted a request, it stays evicted and without a record over any calls, and
-- no event of it is ever applied again, the birth included.
pub eviction-final :
    (r : String) (now window : ℕ) (cs : List Call) (i : Ingest)
    → (evict_gate r now window i.store).0 ≡ true
    → let i' = perform_all cs (perform (evicting r now window) i) in
      (state_of r i'.store ≡ evicted)
      × (get_record r i'.store ≡ none)
      × ((later : ℕ) (event : Event) (e family : String)
          → names_of event ≡ some (r, e, family)
          → (process later event i').1 ≢ applied)
unfolding process view
eviction-final r now window cs i gone =
    let i' = perform_all cs (perform (evicting r now window) i) in
    let left =
      perform_all-keeps r Gone (Step-Gone r) cs (perform (evicting r now window) i)
        (evicting-Gone r now window i gone) in
    (
      left.0,
      left.1,
      λ later event e family named.
          let outcome : (process later event i').1 ≡ (accept r e family event (view r i')).1 =
            rw (named, process) (process_named-Serves r e family event later i').1 in
          λ on.
            (Accepted-Gone r e (view r i') _ left (accept-Accepted r e family event (view r i'))).1
              (sym outcome ∙ on),
    )
