-- ===== src/Rsm/Requests/Kept.antt =====
-- src/rsm/journal.py and src/rsm/record.py: what holds of every request between two calls.
use mathlib.Core.Path.{subst}
use absolute_zero.Prelude.{
  ℕ, suc, ◌+◌, String, ◌≡◌, ◌⊎◌, refl, sym, ap, ◌∙◌, inl, inr, Bool, true, false, not, Option, some,
  List, [], ◌∷◌, ◌++◌, ◌&&◌, ◌||◌, map, elem, elem-snoc, length, arith, eq_iff, is_some, or_else,
  length-append,
}
use absolute_zero.Rsm.Transitions.{State, active, terminal, is_terminal_like}
use absolute_zero.Rsm.Reducers.{Event}
use absolute_zero.Rsm.Record.{RequestRecord, birth}
use absolute_zero.Rsm.Evolution.{AppendsFailure, reducer-evolves}
use absolute_zero.Rsm.Journal.{Entry, new_journal}
use absolute_zero.Rsm.Store.{is_absent, is_active, new_store}
use absolute_zero.Rsm.Ingest.{Ingest, Outcome, new_ingest}
use absolute_zero.Rsm.Telemetry.{Telemetry}
use absolute_zero.Rsm.Requests.{View, view, grown}
use absolute_zero.Rsm.Requests.Accepted.{Accepted, unmoved, births, folds, serve-keeps}
use absolute_zero.Rsm.Requests.Steps.{
  Step, served, moved, persists, evicts, stays, Call, perform_all, perform_all-keeps,
}

-- Consecutive numbers from `n` on.
abbrev pub Numbered : ℕ → List ℕ → Type 0
Numbered n [] = Unit
Numbered n (m ∷ ms) = (m ≡ n) × Numbered (suc n) ms

Numbered-snoc :
    (n : ℕ) (ms : List ℕ) (m : ℕ) → Numbered n ms → m ≡ n + length ms → Numbered n (ms ++ m ∷ [])
Numbered-snoc n [] m h e = (omega arith, tt)
Numbered-snoc n (k ∷ ms) m h e = (h.0, Numbered-snoc (suc n) ms m h.1 (omega arith))

abbrev pub distinct : List String → Bool
distinct [] = true
distinct (x ∷ xs) = not (elem x xs) && distinct xs

distinct-snoc :
    (e : String) (xs : List String)
    → distinct xs ≡ true
    → elem e xs ≡ false
    → distinct (xs ++ e ∷ []) ≡ true
distinct-snoc e [] d fresh = refl
distinct-snoc e (x ∷ xs) d fresh =
    ground (arith, elem-snoc x e xs, distinct-snoc e xs, eq_iff x e, eq_iff e x)

map-snoc :
    {A B : Type 0} (f : A → B) (xs : List A) (x : A) → map f (xs ++ x ∷ []) ≡ map f xs ++ f x ∷ []
map-snoc f [] x = refl
map-snoc f (y ∷ xs) x = ap (λ z. f y ∷ z) (map-snoc f xs x)

pub length-map : {A B : Type 0} (f : A → B) (xs : List A) → length (map f xs) ≡ length xs
length-map f [] = refl
length-map f (x ∷ xs) = ap suc (length-map f xs)

abbrev pub is_live : State → Bool
is_live s = is_active s || is_terminal_like s

-- A record of the request: its version counts the events that were applied after its birth.
pub record IsRecord (r : String) (log : List Entry) (c : RequestRecord) : Type 0 where
  pub owned : c.request_id ≡ r
  pub versioned : suc c.version ≡ length log
  pub failures_numbered : Numbered 0 (map (λ x. x.seq) c.failure)

pub record IsKept (r : String) (v : View) : Type 0 where
  pub named : v.seen ≡ map (λ x. x.event_id) v.log
  pub numbered : Numbered 0 (map (λ x. x.seq) v.log)
  pub once : distinct v.seen ≡ true
  pub unborn : is_absent v.state ≡ true → v.log ≡ []
  pub materialized : is_some v.current ≡ is_live v.state
  pub of_request : (c : RequestRecord) → v.current ≡ some c → IsRecord r v.log c

-- A pipeline as it starts.
abbrev pub started : Option Telemetry → Ingest
started t = new_ingest new_store new_journal t

new-IsKept : (r : String) (t : Option Telemetry) → IsKept r (view r (started t))
unfolding view
new-IsKept r t = record {
  named = refl;
  numbered = tt;
  once = refl;
  unborn = λ h. refl;
  materialized = refl;
  of_request = λ c h. absurd (cc h);
}

-- A journal with one entry more.
grown-IsKept :
    (r e : String) (s : State) (new : RequestRecord) (v : View)
    → IsKept r v
    → elem e v.seen ≡ false
    → is_live s ≡ true
    → IsRecord r (grown e s new v).log new
    → IsKept r (grown e s new v)
grown-IsKept r e s new v kept fresh live good =
    let entry : Entry = record { event_id = e; seq = length v.log; reducer_version = 1 } in
    record {
      named = ap (λ xs. xs ++ e ∷ []) kept.named ∙ sym (map-snoc (λ x. x.event_id) v.log entry);
      numbered = subst (Numbered 0) (sym (map-snoc (λ x. x.seq) v.log entry)) (
          Numbered-snoc 0 (map (λ x. x.seq) v.log) (length v.log) kept.numbered
            (omega (arith, length-map (λ x. x.seq) v.log)));
      once = distinct-snoc e v.seen kept.once fresh;
      unborn = λ h. absurd (ground arith);
      materialized = sym live;
      of_request = λ c h. subst (IsRecord r (grown e s new v).log) (some_inj new c h) good;
    }
  where
    some_inj : (a b : RequestRecord) → some a ≡ some b → a ≡ b
    some_inj a b p = ap (λ o. or_else o a) p

failures_up :
    (r : RequestRecord) (event : Event) (new : RequestRecord)
    → Numbered 0 (map (λ x. x.seq) r.failure)
    → AppendsFailure r event new
    → Numbered 0 (map (λ x. x.seq) new.failure)
failures_up r event new h (inl same) = rw same h
failures_up r event new h (inr (entry, up, numbered, _)) =
    rw (up, map-snoc (λ x. x.seq) r.failure entry)
      (Numbered-snoc 0 (map (λ x. x.seq) r.failure) entry.seq h
        (omega (arith, numbered, length-map (λ x. x.seq) r.failure)))

Accepted-IsKept :
    (r e : String) (v : View) (out : View × Outcome)
    → IsKept r v
    → Accepted r e v out
    → IsKept r out.0
unfolding birth
Accepted-IsKept r e v _ kept (unmoved o h) = kept
Accepted-IsKept r e v _ kept (births fields fresh unborn) =
    let entry : Entry = record { event_id = e; seq = length v.log; reducer_version = 1 } in
    grown-IsKept r e active (birth r fields) v kept fresh refl (record {
      owned = refl;
      versioned = omega (arith, length-append v.log (entry ∷ []), ap length (kept.unborn unborn));
      failures_numbered = tt;
    })
Accepted-IsKept r e v _ kept (folds family f event current new s fresh found live c next) =
    let entry : Entry = record { event_id = e; seq = length v.log; reducer_version = 1 } in
    let old = kept.of_request current live in
    let up = reducer-evolves family f current event new found c in
    grown-IsKept r e s new v kept fresh (next_live next) (record {
      owned = up.same_request ∙ old.owned;
      versioned = omega (arith, length-append v.log (entry ∷ []), old.versioned, up.version_up);
      failures_numbered = failures_up current event new old.failures_numbered up.failure_up;
    })
  where
    next_live : (s ≡ v.state) ⊎ ((is_active v.state ≡ true) × (s ≡ terminal)) → is_live s ≡ true
    next_live (inl same) = rw (same, sym kept.materialized, live) refl
    next_live (inr (going, ends)) = rw ends refl

pub Step-IsKept : (r : String) (v w : View) → Step r v w → IsKept r v → IsKept r w
Step-IsKept r v _ (served event _) kept =
    serve-keeps r event v (IsKept r) kept
      (λ e family out named way. Accepted-IsKept r e v out kept way)
Step-IsKept r v _ (moved _ _ (persists _ over)) kept = record {
  named = kept.named;
  numbered = kept.numbered;
  once = kept.once;
  unborn = λ h. absurd (cc h);
  materialized = ground (arith, kept.materialized);
  of_request = λ c h. kept.of_request c h;
}
Step-IsKept r v _ (moved _ _ (evicts _ over)) kept = record {
  named = kept.named;
  numbered = kept.numbered;
  once = kept.once;
  unborn = λ h. absurd (cc h);
  materialized = refl;
  of_request = λ c h. absurd (cc h);
}
Step-IsKept r v _ (moved _ _ (stays _)) kept = kept

-- After any calls on a new store and a new journal, for every request: the journal holds the
-- events that were seen, in order and numbered from 0, none of them twice; it is empty as long as
-- the request is absent; there is a record exactly in the states active, terminal, persisted and
-- retained; and the record is of the request, its version is the number of events applied after
-- the birth, and the entries of its Failure block are numbered from 0.
pub requests-IsKept :
    (cs : List Call) (t : Option Telemetry) (r : String)
    → IsKept r (view r (perform_all cs (started t)))
requests-IsKept cs t r =
    perform_all-keeps r (IsKept r) (Step-IsKept r) cs (started t) (new-IsKept r t)
