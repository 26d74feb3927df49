-- ===== src/Prt/Loading/Shown.antt =====
-- src/prt/load_policy.py: which requests are enacted, and what the events show.
use mathlib.Core.Path.{subst}
use absolute_zero.Prelude.{
  String, ◌≡◌, refl, sym, ap, ◌∙◌, inl, inr, Bool, true, false, not, ◌&&◌, ◌||◌, Option, none, some,
  List, [], ◌∷◌, ◌++◌, str_eq, eq_refl, or_else, Bool-cases, arith, if◌then◌else◌,
}
use absolute_zero.Prelude.Dict
use absolute_zero.Prelude.Dict.{get-put}
use absolute_zero.Prt.Loading.{
  LoadState, not_loaded, loading, prepared, loaded, released, unavailable, transitions,
  load_transitions, is_among, ask, LoadEvent, LoadStateTracker, load_state, announce,
  request_transition,
}

abbrev differ : Bool → Bool → Bool
differ true b = not b
differ false b = b

-- The two tables are the same.
transitions-load_transitions : (s t : LoadState) → transitions s t ≡ load_transitions s t
transitions-load_transitions not_loaded not_loaded = refl
transitions-load_transitions not_loaded loading = refl
transitions-load_transitions not_loaded prepared = refl
transitions-load_transitions not_loaded loaded = refl
transitions-load_transitions not_loaded released = refl
transitions-load_transitions not_loaded unavailable = refl
transitions-load_transitions loading not_loaded = refl
transitions-load_transitions loading loading = refl
transitions-load_transitions loading prepared = refl
transitions-load_transitions loading loaded = refl
transitions-load_transitions loading released = refl
transitions-load_transitions loading unavailable = refl
transitions-load_transitions prepared not_loaded = refl
transitions-load_transitions prepared loading = refl
transitions-load_transitions prepared prepared = refl
transitions-load_transitions prepared loaded = refl
transitions-load_transitions prepared released = refl
transitions-load_transitions prepared unavailable = refl
transitions-load_transitions loaded not_loaded = refl
transitions-load_transitions loaded loading = refl
transitions-load_transitions loaded prepared = refl
transitions-load_transitions loaded loaded = refl
transitions-load_transitions loaded released = refl
transitions-load_transitions loaded unavailable = refl
transitions-load_transitions released not_loaded = refl
transitions-load_transitions released loading = refl
transitions-load_transitions released prepared = refl
transitions-load_transitions released loaded = refl
transitions-load_transitions released released = refl
transitions-load_transitions released unavailable = refl
transitions-load_transitions unavailable not_loaded = refl
transitions-load_transitions unavailable loading = refl
transitions-load_transitions unavailable prepared = refl
transitions-load_transitions unavailable loaded = refl
transitions-load_transitions unavailable released = refl
transitions-load_transitions unavailable unavailable = refl

-- The tracker when a request is granted.
abbrev pub enacted : String → LoadState → LoadStateTracker → LoadStateTracker
enacted p t tr = record {
  is_legal =
      (ask (record { subject_id = p; from_state = load_state p tr; to_state = t }) tr.is_legal).0;
  bus = announce p (load_state p tr) t tr.bus;
  states = Dict.put p t tr.states;
}

pub refused-same :
    (p : String) (t : LoadState) (tr : LoadStateTracker)
    → transitions (load_state p tr) t ≡ false
    → request_transition p t tr ≡ (false, tr)
unfolding request_transition
refused-same p t tr no_edge = rw no_edge refl

pub granted-enacted :
    (p : String) (t : LoadState) (tr : LoadStateTracker)
    → transitions (load_state p tr) t ≡ true
    → request_transition p t tr ≡ (true, enacted p t tr)
unfolding request_transition ask
granted-enacted p t tr edge =
    let table = sym (transitions-load_transitions (load_state p tr) t) ∙ edge in
    rw
      (
        edge,
        granted
            (is_among (record { subject_id = p; from_state = load_state p tr; to_state = t })
              tr.is_legal.overrides)
            (load_transitions (load_state p tr) t) table,
      )
      refl
  where
    granted : (a b : Bool) → b ≡ true → (a || b) ≡ true
    granted a b h = ground arith

pub load_state-put :
    (p q : String) (t : LoadState) (tr : LoadStateTracker)
    → load_state q (enacted p t tr) ≡ (if str_eq p q then t else load_state q tr)
unfolding load_state
load_state-put p q t tr = elim (Bool-cases (str_eq p q)) [
  | inl mine ↦ rw mine (ap (λ o. or_else o not_loaded) (get-put p q t tr.states ∙ mine_then mine))
  | inr other ↦
      rw other (ap (λ o. or_else o not_loaded) (get-put p q t tr.states ∙ other_then other))
]
  where
    mine_then : str_eq p q ≡ true → (if str_eq p q then some t else Dict.get q tr.states) ≡ some t
    mine_then mine = rw mine refl

    other_then :
        str_eq p q ≡ false
        → (if str_eq p q then some t else Dict.get q tr.states) ≡ Dict.get q tr.states
    other_then other = rw other refl

-- A request is granted exactly along an edge of the table, whatever overrides the legality was
-- given before: then the state of that provider is the requested one, and otherwise no state changes.
pub request_transition-edges :
    (p q : String) (t : LoadState) (tr : LoadStateTracker)
    → let (ok, tr') = request_transition p t tr in
      (ok ≡ transitions (load_state p tr) t)
      × (load_state q tr' ≡ (if ok && str_eq p q then t else load_state q tr))
request_transition-edges p q t tr = elim (Bool-cases (transitions (load_state p tr) t)) [
  | inl edge ↦
      let done = granted-enacted p t tr edge in
      subst
        (λ r.
          (r.0 ≡ transitions (load_state p tr) t)
          × (load_state q r.1 ≡ (if r.0 && str_eq p q then t else load_state q tr)))
        (sym done) (sym edge, load_state-put p q t tr)
  | inr no_edge ↦
      let stays = refused-same p t tr no_edge in
      subst
        (λ r.
          (r.0 ≡ transitions (load_state p tr) t)
          × (load_state q r.1 ≡ (if r.0 && str_eq p q then t else load_state q tr)))
        (sym stays) (sym no_edge, refl)
]

-- Whether a provider is loaded, as its events show it; `none` if they do not alternate.
unfoldable pub shown : String → Bool → List LoadEvent → Option Bool
shown p b [] = some b
shown p b (e ∷ es) =
    let on = shown p e.is_loaded es in
    let past = shown p b es in
    if str_eq e.provider_id p then (if differ e.is_loaded b then on else none) else past

pub shown-snoc :
    (p : String) (b c : Bool) (es : List LoadEvent)
    → shown p b es ≡ some c
    → shown p b (es ++ record { provider_id = p; is_loaded = not c } ∷ []) ≡ some (not c)
unfolding shown
shown-snoc p b c [] h =
    subst (λ x. shown p x (record { provider_id = p; is_loaded = not c } ∷ []) ≡ some (not c))
      (sym (ap (λ o. or_else o b) h)) (rw (eq_refl p, differ_not c) refl)
  where
    differ_not : (d : Bool) → differ (not d) d ≡ true
    differ_not true = refl
    differ_not false = refl
shown-snoc p b c (e ∷ es) h = elim (Bool-cases (str_eq e.provider_id p)) [
  | inl mine ↦ elim (Bool-cases (differ e.is_loaded b)) [
    | inl goes ↦ rw (mine, goes) (shown-snoc p e.is_loaded c es (sym (goes_on mine goes) ∙ h))
    | inr breaks ↦ absurd (cc (sym (breaks_off mine breaks) ∙ h))
  ]
  | inr other ↦ rw other (shown-snoc p b c es (rw other at h))
]
  where
    goes_on :
        str_eq e.provider_id p ≡ true
        → differ e.is_loaded b ≡ true
        → shown p b (e ∷ es) ≡ shown p e.is_loaded es
    goes_on mine goes = rw (mine, goes) refl

    breaks_off :
        str_eq e.provider_id p ≡ true → differ e.is_loaded b ≡ false → shown p b (e ∷ es) ≡ none
    breaks_off mine breaks = rw (mine, breaks) refl

pub shown-other :
    (p : String) (b : Bool) (c : LoadEvent) (es : List LoadEvent)
    → str_eq c.provider_id p ≡ false
    → shown p b (es ++ c ∷ []) ≡ shown p b es
unfolding shown
shown-other p b c [] other = rw other refl
shown-other p b c (e ∷ es) other =
    ground (arith, shown-other p b c es other, shown-other p e.is_loaded c es other)
