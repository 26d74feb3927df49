-- ===== src/Rsm/Requests/Steps.antt =====
-- src/rsm/ingest.py and src/rsm/store.py: the steps that a request can make.
use mathlib.Core.Path.{subst}
use absolute_zero.Prelude.{
  ℕ, String, ◌≡◌, sym, inl, inr, Bool, true, none, List, [], ◌∷◌, arith, str_eq, eq_iff, or_else,
  is_some, Bool-cases, if◌then◌else◌,
}
use absolute_zero.Prelude.Dict
use absolute_zero.Prelude.Dict.{get-put, get-remove}
use absolute_zero.Rsm.Transitions.{persisted, evicted, is_terminal_like}
use absolute_zero.Rsm.Reducers.{Event}
use absolute_zero.Rsm.Store.{
  state_of, get_record, is_terminal, eviction_allowed, retention_elapsed, mark_persisted,
  mark_evicted, evict_gate,
}
use absolute_zero.Rsm.Ingest.{Ingest, process}
use absolute_zero.Rsm.Requests.{View, view, serve}
use absolute_zero.Rsm.Requests.Views.{process-view}

-- A call that changes the store or the journal; the times are the clock's.
pub data Call : Type 0 where
  processing : ℕ → Event → Call
  persisting : String → ℕ → Call
  evicting : String → ℕ → ℕ → Call

-- A call that raises leaves the store.
unfoldable pub perform : Call → Ingest → Ingest
unfolding process mark_persisted evict_gate
perform (processing now event) i = (process now event i).0
perform (persisting r now) i = record i { store = or_else (mark_persisted r now i.store) i.store }
perform (evicting r now window) i = record i { store = (evict_gate r now window i.store).1 }

unfoldable pub perform_all : List Call → Ingest → Ingest
unfolding perform
perform_all [] i = i
perform_all (c ∷ cs) i = perform_all cs (perform c i)

-- What the store by itself does to a request.
pub data Move : View → View → Type 0 where
  persists : (v : View) → is_terminal v.state ≡ true → Move v (record v { state = persisted })
  evicts :
      (v : View)
      → is_terminal_like v.state ≡ true
      → Move v (record v { state = evicted; current = none })
  stays : (v : View) → Move v v

-- The steps of a request `q`.
pub data Step (q : String) : View → View → Type 0 where
  served : (event : Event) (v : View) → Step q v (serve q event v)
  moved : (v w : View) → Move v w → Step q v w

persisted_view :
    (r q : String) (now : ℕ) (i : Ingest)
    → is_terminal (state_of r i.store) ≡ true
    → view q (perform (persisting r now) i)
      ≡ (if str_eq r q then record (view q i) { state = persisted } else view q i)
unfolding perform mark_persisted view state_of get_record
persisted_view r q now i over = ground (arith, eq_iff r q, get-put r q persisted i.store.states)

pub persisting-Move :
    (r q : String) (now : ℕ) (i : Ingest) → Move (view q i) (view q (perform (persisting r now) i))
unfolding perform mark_persisted view
persisting-Move r q now i = elim (Bool-cases (is_terminal (state_of r i.store))) [
  | inr open' ↦ rw (open', perform, mark_persisted) (stays (view q i))
  | inl over ↦ subst (Move (view q i)) (sym (persisted_view r q now i over)) (either over)
]
  where
    either :
        is_terminal (state_of r i.store) ≡ true
        → Move (view q i) (if str_eq r q then record (view q i) { state = persisted } else view q i)
    either over = elim (Bool-cases (str_eq r q)) [
      | inl same ↦ rw same (
          persists (view q i)
            (subst (λ p. is_terminal (state_of p i.store) ≡ true) ((eq_iff r q).0 same) over))
      | inr other ↦ rw other (stays (view q i))
    ]

pub evicted_view :
    (r q : String) (i : Ingest)
    → view q (record i { store = mark_evicted r i.store })
      ≡ (if str_eq r q then record (view q i) { state = evicted; current = none } else view q i)
unfolding mark_evicted view state_of get_record
evicted_view r q i = ground (
  arith,
  eq_iff r q,
  eq_iff q r,
  get-remove r q i.store.states,
  get-remove r q i.store.active_records,
  get-remove r q i.store.retained_records,
)

pub evicting-Move :
    (r q : String) (now window : ℕ) (i : Ingest)
    → Move (view q i) (view q (perform (evicting r now window) i))
unfolding perform evict_gate view
evicting-Move r q now window i = elim (Bool-cases ready) [
  | inr kept ↦ rw (kept, perform, evict_gate) (stays (view q i))
  | inl gone ↦
      rw (gone, perform, evict_gate)
        (subst (Move (view q i)) (sym (evicted_view r q i)) (either (ground arith)))
]
  where
    ready : Bool
    ready =
        eviction_allowed (is_terminal_like (state_of r i.store))
          (is_some (Dict.get r i.store.persisted_at))
          (retention_elapsed (Dict.get r i.store.persisted_at) now window)

    either :
        is_terminal_like (state_of r i.store) ≡ true
        → Move
            (view q i)
            (if str_eq r q then record (view q i) { state = evicted; current = none } else view q i)
    either over = elim (Bool-cases (str_eq r q)) [
      | inl same ↦ rw same (
          evicts (view q i)
            (subst (λ p. is_terminal_like (state_of p i.store) ≡ true) ((eq_iff r q).0 same) over))
      | inr other ↦ rw other (stays (view q i))
    ]

-- Every call of the store or of the pipeline is, for every request, one of its steps: an event
-- served, persisting from the terminal state, eviction from a terminal, persisted or retained
-- state, or none.
pub perform-Step : (c : Call) (i : Ingest) (q : String) → Step q (view q i) (view q (perform c i))
unfolding perform
perform-Step (processing now event) i q =
    subst (Step q (view q i)) (sym (process-view now event i q)) (served event (view q i))
perform-Step (persisting r now) i q = moved _ _ (persisting-Move r q now i)
perform-Step (evicting r now window) i q = moved _ _ (evicting-Move r q now window i)

-- What every step of `q` keeps holds after all calls.
pub perform_all-keeps :
    (q : String) (P : View → Type 0)
    → ((v w : View) → Step q v w → P v → P w)
    → (cs : List Call) (i : Ingest) → P (view q i)
    → P (view q (perform_all cs i))
unfolding perform_all
perform_all-keeps q P keeps [] i h = h
perform_all-keeps q P keeps (c ∷ cs) i h =
    perform_all-keeps q P keeps cs (perform c i) (keeps _ _ (perform-Step c i q) h)
