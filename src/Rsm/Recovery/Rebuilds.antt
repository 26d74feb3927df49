-- ===== src/Rsm/Recovery/Rebuilds.antt =====
-- src/rsm/recovery.py: the applied events of a request, processed again.
use mathlib.Core.Path.{subst}
use absolute_zero.Prelude.{
  ℕ, String, ◌≡◌, ◌⊎◌, refl, sym, ap, ◌∙◌, inl, inr, Bool, true, false, Option, none, some, List,
  [], ◌∷◌, ◌++◌, ◌&&◌, arith, str_eq, eq_iff, eq_refl, Bool-cases, Option-cases, if◌then◌else◌,
}
use absolute_zero.Rsm.Transitions.{State, terminal}
use absolute_zero.Rsm.Reducers.{Event}
use absolute_zero.Rsm.Store.{is_terminal}
use absolute_zero.Rsm.Ingest.{Ingest, Outcome, applied, names_of, process}
use absolute_zero.Rsm.Requests.{View, view, serve, accept}
use absolute_zero.Rsm.Requests.Accepted.{Accepted, unmoved, births, folds, accept-Accepted}
use absolute_zero.Rsm.Requests.Views.{process_named-Serves, process-view}
use absolute_zero.Rsm.Requests.Steps.{
  Move, persists, evicts, stays, persisting-Move, evicting-Move, Call, processing, persisting,
  evicting, perform, perform_all,
}
use absolute_zero.Rsm.Recovery.Mirrors.{Mirrors, accept-Mirrors}

-- The request of an event, if its envelope is complete, and its id.
abbrev names : String → Option (String × String × String) → Bool
names r none = false
names r (some (q, e, family)) = str_eq q r

abbrev pub is_of : String → Event → Bool
is_of r event = names r (names_of event)

abbrev pub is_applied : Outcome → Bool
is_applied applied = true
is_applied _ = false

-- The events of `r` that are applied in some calls, in order.
abbrev pub applied_in : String → Call → Ingest → List Event
applied_in r (processing now event) i =
    if is_applied (process now event i).1 && is_of r event then event ∷ [] else []
applied_in r _ i = []

unfoldable pub applied_events : String → List Call → Ingest → List Event
unfolding process perform
applied_events r [] i = []
applied_events r (c ∷ cs) i = applied_in r c i ++ applied_events r cs (perform c i)

unfoldable pub process_events : List Event → Ingest → Ingest
unfolding process
process_events [] i = i
process_events (event ∷ more) i = process_events more (process 0 event i).0

process_events-append :
    (xs ys : List Event) (i : Ingest)
    → process_events (xs ++ ys) i ≡ process_events ys (process_events xs i)
unfolding process_events
process_events-append [] ys i = refl
process_events-append (x ∷ xs) ys i = process_events-append xs ys (process 0 x i).0

pub is_of-none :
    (r : String) (event : Event) (v : View) → is_of r event ≡ false → serve r event v ≡ v
unfolding serve
is_of-none r event v other = elim (Option-cases (names_of event)) [
  | inl unnamed ↦ rw (unnamed, serve) refl
  | inr ((q, e, family), named) ↦
      let different : str_eq q r ≡ false = sym (ap (names r) named) ∙ other in
      rw (named, serve, different) refl
]

pub is_of-some :
    (r : String) (event : Event)
    → is_of r event ≡ true
    → (e : String) × (family : String) × (names_of event ≡ some (r, e, family))
is_of-some r event here = elim (Option-cases (names_of event)) [
  | inl unnamed ↦ absurd (ground arith)
  | inr ((q, e, family), named) ↦
      let same : str_eq q r ≡ true = sym (ap (names r) named) ∙ here in
      (e, family, subst (λ p. names_of event ≡ some (p, e, family)) ((eq_iff q r).0 same) named)
]

pub serve-of :
    (r e family : String) (event : Event) (v : View)
    → names_of event ≡ some (r, e, family)
    → serve r event v ≡ (accept r e family event v).0
unfolding serve
serve-of r e family event v named = rw (named, serve, eq_refl r) refl

pub process-outcome :
    (now : ℕ) (r e family : String) (event : Event) (i : Ingest)
    → names_of event ≡ some (r, e, family)
    → (process now event i).1 ≡ (accept r e family event (view r i)).1
unfolding process
process-outcome now r e family event i named =
    rw (named, process) (process_named-Serves r e family event now i).1

pub unapplied :
    (r e : String) (v : View) (out : View × Outcome)
    → Accepted r e v out
    → is_applied out.1 ≡ false
    → out.0 ≡ v
unapplied r e v _ (unmoved o h) off = refl
unapplied r e v _ (births fields fresh unborn) off = absurd (cc off)
unapplied r e v _ (folds family f event current new s fresh found live c next) off = absurd (cc off)

-- Either the event is not applied to `r` and leaves its view, or it is and is accepted.
pub processing-cases :
    (r : String) (now : ℕ) (event : Event) (i : Ingest)
    → ((applied_in r (processing now event) i ≡ []) × (view r (process now event i).0 ≡ view r i))
      ⊎ ((e : String) × (family : String) × (names_of event ≡ some (r, e, family))
          × (applied_in r (processing now event) i ≡ event ∷ [])
          × (is_applied (accept r e family event (view r i)).1 ≡ true))
processing-cases r now event i = elim (Bool-cases (is_of r event)) [
  | inr other ↦
      inl (not_here other, process-view now event i r ∙ is_of-none r event (view r i) other)
  | inl here ↦
      let (e, family, named) = is_of-some r event here in
      let outcome = ap is_applied (process-outcome now r e family event i named) in
      elim (Bool-cases (is_applied (process now event i).1)) [
        | inl on ↦ inr (e, family, named, both on here, sym outcome ∙ on)
        | inr off ↦ inl (
          not_on off,
          process-view now event i r
              ∙ serve-of r e family event (view r i) named
              ∙ unapplied r e (view r i) (accept r e family event (view r i))
                  (accept-Accepted r e family event (view r i)) (sym outcome ∙ off),
        )
      ]
]
  where
    not_here : is_of r event ≡ false → applied_in r (processing now event) i ≡ []
    not_here other = ground arith

    not_on : is_applied (process now event i).1 ≡ false → applied_in r (processing now event) i ≡ []
    not_on off = rw off refl

    both :
        is_applied (process now event i).1 ≡ true
        → is_of r event ≡ true
        → applied_in r (processing now event) i ≡ event ∷ []
    both on here = rw (on, here) refl

processing-Mirrors :
    (r : String) (now : ℕ) (event : Event) (i j : Ingest)
    → Mirrors (view r i) (view r j)
    → Mirrors
        (view r (process now event i).0)
        (view r (process_events (applied_in r (processing now event) i) j))
unfolding process_events
processing-Mirrors r now event i j m = elim (processing-cases r now event i) [
  | inl (nothing, same) ↦ rw (nothing, same) m
  | inr (e, family, named, one, on) ↦
      rw
        (
          one,
          process_events,
          process-view now event i r,
          process-view 0 event j r,
          serve-of r e family event (view r i) named,
          serve-of r e family event (view r j) named,
        )
        (accept-Mirrors r e family event (view r i) (view r j) m)
]

is_terminal_sound : (s : State) → is_terminal s ≡ true → s ≡ terminal
is_terminal_sound s over = ground arith

Move-Mirrors : (v w rep : View) → Move v w → Mirrors v rep → Mirrors w rep
Move-Mirrors v _ rep (stays _) m = m
Move-Mirrors v _ rep (evicts _ over) m = inr (inr refl)
Move-Mirrors v _ rep (persists _ over) (inl same) =
    inr (inl (refl, same ∙ ap (λ s. record v { state = s }) (is_terminal_sound v.state over)))
Move-Mirrors v _ rep (persists _ over) (inr (inl (p, same))) = inr (inl (refl, same))
Move-Mirrors v _ rep (persists _ over) (inr (inr gone)) = absurd (ground arith)

perform-Mirrors :
    (r : String) (c : Call) (i j : Ingest)
    → Mirrors (view r i) (view r j)
    → Mirrors (view r (perform c i)) (view r (process_events (applied_in r c i) j))
unfolding perform process_events
perform-Mirrors r (processing now event) i j m = processing-Mirrors r now event i j m
perform-Mirrors r (persisting q now) i j m = Move-Mirrors _ _ _ (persisting-Move q r now i) m
perform-Mirrors r (evicting q now window) i j m =
    Move-Mirrors _ _ _ (evicting-Move q r now window i) m

pub perform_all-Mirrors :
    (r : String) (cs : List Call) (i j : Ingest)
    → Mirrors (view r i) (view r j)
    → Mirrors (view r (perform_all cs i)) (view r (process_events (applied_events r cs i) j))
unfolding perform_all applied_events process_events
perform_all-Mirrors r [] i j m = m
perform_all-Mirrors r (c ∷ cs) i j m =
    rw (process_events-append (applied_in r c i) (applied_events r cs (perform c i)) j) (
      perform_all-Mirrors r cs (perform c i) (process_events (applied_in r c i) j)
        (perform-Mirrors r c i j m))
