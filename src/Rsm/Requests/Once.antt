-- ===== src/Rsm/Requests/Once.antt =====
-- src/rsm/ingest.py and src/rsm/dedup.py: events that are delivered again.
use absolute_zero.Prelude.{
  ℕ, String, ◌≡◌, refl, sym, ap, ◌∙◌, true, some, List, elem, elem-snoc, arith, eq_refl,
}
use absolute_zero.Rsm.Reducers.{Event}
use absolute_zero.Rsm.Journal.{has}
use absolute_zero.Rsm.Ingest.{Ingest, Outcome, applied, dropped, names_of, process, process_named}
use absolute_zero.Rsm.Requests.{View, view, accept}
use absolute_zero.Rsm.Requests.Accepted.{
  Accepted, unmoved, births, folds, accept-Accepted, serve-keeps,
}
use absolute_zero.Rsm.Requests.Views.{process_named-Serves}
use absolute_zero.Rsm.Requests.Steps.{
  Step, served, moved, persists, evicts, stays, Call, perform_all, perform_all-keeps,
}

Accepted-seen :
    (q e d : String) (v : View) (out : View × Outcome)
    → Accepted q e v out
    → elem d v.seen ≡ true
    → elem d out.0.seen ≡ true
Accepted-seen q e d v _ (unmoved o h) old = old
Accepted-seen q e d v _ (births fields fresh unborn) old = ground (arith, elem-snoc d e v.seen)
Accepted-seen q e d v _ (folds family f event current new s fresh found live c next) old =
    ground (arith, elem-snoc d e v.seen)

Step-seen : (q d : String) (v w : View) → Step q v w → elem d v.seen ≡ true → elem d w.seen ≡ true
Step-seen q d v _ (served event _) old =
    serve-keeps q event v (λ w. elem d w.seen ≡ true) old
      (λ e family out named way. Accepted-seen q e d v out way old)
Step-seen q d v _ (moved _ _ (persists _ over)) old = old
Step-seen q d v _ (moved _ _ (evicts _ over)) old = old
Step-seen q d v _ (moved _ _ (stays _)) old = old

-- An event that was applied has been seen.
applied-seen :
    (now : ℕ) (event : Event) (i : Ingest) (r e family : String)
    → names_of event ≡ some (r, e, family)
    → (process now event i).1 ≡ applied
    → elem e (view r (process now event i).0).seen ≡ true
unfolding process
applied-seen now event i r e family named done =
    let (here, outcome, _) = process_named-Serves r e family event now i in
    let same : process now event i ≡ process_named r e family event now i =
      rw (named, process) refl in
    rw (same, here)
      (now_seen (accept r e family event (view r i)) (accept-Accepted r e family event (view r i))
        (sym outcome ∙ ap (λ o. o.1) (sym same) ∙ done))
  where
    now_seen :
        (out : View × Outcome)
        → Accepted r e (view r i) out
        → out.1 ≡ applied
        → elem e out.0.seen ≡ true
    now_seen _ (unmoved o refused) h = absurd (refused h)
    now_seen _ (births fields fresh unborn) h =
        ground (arith, elem-snoc e e (view r i).seen, eq_refl e)
    now_seen _ (folds family' f event' current new s fresh found live c next) h =
        ground (arith, elem-snoc e e (view r i).seen, eq_refl e)

-- The store and the journal of a pipeline.
abbrev pub SameState : Ingest → Ingest → Type 0
SameState i j = (i.store ≡ j.store) × (i.journal ≡ j.journal)

-- Once an event has been applied, it is never applied again: after any calls, an event with the
-- same request id and event id, whatever its family and payload, is dropped, with the store and
-- the journal as they were.
pub applied-once :
    (now later : ℕ) (event again : Event) (cs : List Call) (i : Ingest)
    (r e family family' : String)
    → names_of event ≡ some (r, e, family)
    → names_of again ≡ some (r, e, family')
    → (process now event i).1 ≡ applied
    → ((process later again (perform_all cs (process now event i).0)).1 ≡ dropped)
      × SameState
          (process later again (perform_all cs (process now event i).0)).0
          (perform_all cs (process now event i).0)
unfolding process process_named view has
applied-once now later event again cs i r e family family' named named' done =
    let known : has r e (perform_all cs (process now event i).0).journal ≡ true =
      perform_all-keeps r (λ v. elem e v.seen ≡ true) (Step-seen r e) cs (process now event i).0
        (applied-seen now event i r e family named done) in
    rw (named', process, process_named, known) (refl, (refl, refl))
