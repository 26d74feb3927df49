-- ===== src/Rsm/Telemetry/Spacing.antt =====
-- src/rsm/telemetry.py: the cadence of the coalesced emissions.
use mathlib.Core.Path.{subst}
use absolute_zero.Prelude.{
  ℕ, suc, ◌+◌, ◌≤◌, String, ◌≡◌, refl, sym, ◌∙◌, inl, inr, false, Option, none, some, List, [], ◌∷◌,
  ◌++◌, append-nil, append_assoc, length, arith, str_eq, eq_iff, Bool-cases, if◌then◌else◌,
}
use absolute_zero.Prelude.Dict
use absolute_zero.Prelude.Dict.{Dict, get-put}
use absolute_zero.Rsm.Telemetry.{
  Telemetry, Emission, state_updated_event, state_evicted_event, fault_recorded_event,
  is_suppressed, emit_update, state_updated,
}

-- A change that is coalesced: the request, the family and the time.
abbrev pub Change : Type 0
Change = String × String × ℕ

unfoldable pub update_all : List Change → Telemetry → Telemetry
unfolding state_updated
update_all [] t = t
update_all ((r, family, now) ∷ more) t = update_all more (state_updated r family false now t).1

-- The times at which a change of `r` was published.
unfoldable pub times_of : String → List Emission → List ℕ
times_of r [] = []
times_of r (state_updated_event q family at ∷ more) =
    let rest = times_of r more in if str_eq q r then at ∷ rest else rest
times_of r (state_evicted_event q at ∷ more) = times_of r more
times_of r (fault_recorded_event q family reason at ∷ more) = times_of r more

-- Each time is at least `interval` after the one before, and the first after `last`.
abbrev pub Spaced : ℕ → Option ℕ → List ℕ → Type 0
Spaced interval last [] = Unit
Spaced interval none (at ∷ more) = Spaced interval (some at) more
Spaced interval (some last) (at ∷ more) = (last + interval ≤ at) × Spaced interval (some at) more

-- What a run of changes adds to a telemetry.
pub record Paced (n : ℕ) (t t' : Telemetry) : Type 0 where
  pub emitted : List Emission
  pub published : t'.published ≡ t.published ++ emitted
  pub spaced :
      (r : String) → Spaced t.coalescing_interval (Dict.get r t.last_emit) (times_of r emitted)
  pub counted : t'.updates + t'.coalescing_backlog ≡ t.updates + t.coalescing_backlog + n

Spaced-first :
    (interval at : ℕ) (last : Option ℕ) (more : List ℕ)
    → is_suppressed last at interval ≡ false
    → Spaced interval (some at) more
    → Spaced interval last (at ∷ more)
Spaced-first interval at none more fine h = h
Spaced-first interval at (some last) more fine h = (ground arith, h)

Spaced-put :
    (interval now : ℕ) (q r : String) (d : Dict ℕ) (more : List ℕ)
    → is_suppressed (Dict.get q d) now interval ≡ false
    → Spaced interval (Dict.get r (Dict.put q now d)) more
    → Spaced interval (Dict.get r d) (if str_eq q r then now ∷ more else more)
Spaced-put interval now q r d more fine h = elim (Bool-cases (str_eq q r)) [
  | inl same ↦
      let here : Dict.get r (Dict.put q now d) ≡ some now = rw (get-put q r now d, same) refl in
      let first : is_suppressed (Dict.get r d) now interval ≡ false =
        subst (λ p. is_suppressed (Dict.get p d) now interval ≡ false) ((eq_iff q r).0 same) fine in
      rw same (
        Spaced-first interval now (Dict.get r d) more first
          (subst (λ o. Spaced interval o more) here h))
  | inr other ↦
      let there : Dict.get r (Dict.put q now d) ≡ Dict.get r d =
        rw (get-put q r now d, other) refl in
      rw other (subst (λ o. Spaced interval o more) there h)
]

-- In any run of coalesced changes, of any requests, on any telemetry: the emissions for a request
-- are at least the interval apart, the first one from the last emission before the run; and every
-- change is counted, as an update that was published or in the backlog.
pub update_all-Paced :
    (changes : List Change) (t : Telemetry) → Paced (length changes) t (update_all changes t)
unfolding update_all state_updated times_of
update_all-Paced [] t = record {
  emitted = [];
  published = sym (append-nil t.published);
  spaced = λ r. tt;
  counted = omega arith;
}
update_all-Paced ((q, family, now) ∷ more) t =
    elim (Bool-cases (is_suppressed (Dict.get q t.last_emit) now t.coalescing_interval)) [
      | inl off ↦
          let t' : Telemetry = record t { coalescing_backlog = suc t.coalescing_backlog } in
          let rest = update_all-Paced more t' in
          rw (off, update_all, state_updated)
            (record {
              emitted = rest.emitted;
              published = rest.published;
              spaced = rest.spaced;
              counted = omega (arith, rest.counted);
            })
      | inr on ↦
          let t' = emit_update q family now t in
          let rest = update_all-Paced more t' in
          rw (on, update_all, state_updated)
            (record {
              emitted = state_updated_event q family now ∷ rest.emitted;
              published =
                  rest.published
                  ∙ append_assoc t.published (state_updated_event q family now ∷ []) rest.emitted;
              spaced = λ r.
                  Spaced-put t.coalescing_interval now q r t.last_emit (times_of r rest.emitted) on
                    (rest.spaced r);
              counted = omega (arith, rest.counted);
            })
    ]
