-- ===== src/Execution/Script.antt =====
-- src/execution/engine.py: a run against a script of what the attempts end with.
use absolute_zero.Prelude.{
  ℕ, zero, suc, ◌≡◌, refl, ap, ◌∙◌, inl, inr, Bool, true, none, some, List, [], ◌∷◌, ◌++◌, map,
  append_assoc, Bool-cases, if◌then◌else◌,
}
use absolute_zero.Value.{pos, eq_ℤ}
use absolute_zero.Execution.{
  pending, running, completed, failed, timeout, Attempt, timed_out, exited, Result, Handle, Rec,
  attempt_record, terminal_record, Event, started, ended, Outside, done, run, try_all, try_once,
  judge, stopped, retryable, at_attempt, conclude, finish,
}
use absolute_zero.Execution.Runs.{run-pending}

-- The number of the next attempt, and what was recorded and published.
pub record Trail : Type 0 where
  pub next : ℕ
  pub records : List Rec
  pub events : List Event

-- A storage and a bus that keep everything, and a runner that follows a script and does not raise.
abbrev pub scripted : (ℕ → Attempt) → Outside
scripted script = record {
  World = Trail;
  run_command = λ s w. (some (script w.next), record w { next = suc w.next });
  write_record = λ n r w. (record w { records = w.records ++ r ∷ [] }, true);
  publish = λ n e w. (record w { events = w.events ++ e ∷ [] }, true);
}

-- A timeout or the exit code 0: no attempt is made after it.
abbrev pub is_last : Attempt → Bool
is_last timed_out = true
is_last (exited code) = eq_ℤ code (pos 0)

abbrev pub result_of : Attempt → Result
result_of timed_out = record { state = timeout; exit_code = none }
result_of (exited code) = record {
  state = if eq_ℤ code (pos 0) then completed else failed;
  exit_code = some code;
}

-- The attempts from `n` on, with `left` more at most: up to the first that is last.
unfoldable pub made : (ℕ → Attempt) → ℕ → ℕ → List ℕ
made script zero n = n ∷ []
made script (suc left) n =
    let rest = made script left (suc n) in if is_last (script n) then n ∷ [] else n ∷ rest

-- The number of the last of them.
unfoldable pub final : (ℕ → Attempt) → ℕ → ℕ → ℕ
final script zero n = n
final script (suc left) n =
    let rest = final script left (suc n) in if is_last (script n) then n else rest

module _ (script : ℕ → Attempt) where
  abbrev after : ℕ → ℕ → Trail → Trail
  after left n w = record {
    next = suc (final script left n);
    records = w.records ++ map attempt_record (made script left n);
    events = w.events ++ map started (made script left n);
  }

  abbrev once : ℕ → Trail → Trail
  once n w = record {
    next = suc n;
    records = w.records ++ attempt_record n ∷ [];
    events = w.events ++ started n ∷ [];
  }

  judge-last :
      (a : Attempt) (w : Trail)
      → judge (scripted script) (some a, w)
        ≡ (if is_last a then stopped (result_of a) w else retryable (result_of a) w)
  unfolding judge
  judge-last timed_out w = refl
  judge-last (exited code) w = elim (Bool-cases (eq_ℤ code (pos 0))) [
    | inl zero_code ↦ rw (zero_code, judge) refl
    | inr other ↦ rw (other, judge) refl
  ]

  try_once-last :
      (n : ℕ) (h : Handle) (w : Trail)
      → w.next ≡ n
      → try_once (scripted script) (at_attempt (scripted script) n h) w ≡ (
          if is_last (script n)
          then stopped (result_of (script n)) (once n w)
          else retryable (result_of (script n)) (once n w))
  unfolding try_once
  try_once-last n h w at =
      ap (λ k. judge (scripted script) (some (script k), record (once n w) { next = suc k })) at
      ∙ judge-last (script n) (once n w)

  try_all-made :
      (left n : ℕ) (h : Handle) (w : Trail)
      → w.next ≡ n
      → try_all (scripted script) left n h w ≡ (
        some (result_of (script (final script left n))),
        record h { attempts = final script left n },
        after left n w,
      )
  unfolding try_all made final
  try_all-made zero n h w at = elim (Bool-cases (is_last (script n))) [
    | inl last ↦
        let step : try_once (scripted script) (at_attempt (scripted script) n h) w
            ≡ stopped (result_of (script n)) (once n w) =
          rw (try_once-last n h w at, last) refl in
        rw (step, try_all) refl
    | inr goes ↦
        let step : try_once (scripted script) (at_attempt (scripted script) n h) w
            ≡ retryable (result_of (script n)) (once n w) =
          rw (try_once-last n h w at, goes) refl in
        rw (step, try_all) refl
  ]
  try_all-made (suc left) n h w at = elim (Bool-cases (is_last (script n))) [
    | inl last ↦
        let step : try_once (scripted script) (at_attempt (scripted script) n h) w
            ≡ stopped (result_of (script n)) (once n w) =
          rw (try_once-last n h w at, last) refl in
        rw (step, try_all, last, made, final) refl
    | inr goes ↦
        let step : try_once (scripted script) (at_attempt (scripted script) n h) w
            ≡ retryable (result_of (script n)) (once n w) =
          rw (try_once-last n h w at, goes) refl in
        rw (step, try_all, goes, made, final)
          (try_all-made left (suc n) (at_attempt (scripted script) n h) (once n w) refl
            ∙ rw
                (
                  append_assoc w.records (attempt_record n ∷ [])
                      (map attempt_record (made script left (suc n))),
                  append_assoc w.events (started n ∷ []) (map started (made script left (suc n))),
                )
                refl)
  ]

  -- A run of a pending handle against a script of attempts makes the attempts from 1 on up to the
  -- first that times out or exits with 0, and `max_retries + 1` at most; it returns the result of
  -- the last one, and has recorded and published each attempt once, in order, and then exactly one
  -- terminal record and one terminal event.
  pub run-script :
      (h : Handle) (w : Trail)
      → h.state ≡ pending
      → w.next ≡ 1
      → let m = final script h.spec.max_retries 1 in
        let r = result_of (script m) in
        run (scripted script) h w ≡ (
          done r,
          record h { state = r.state; attempts = m; result = some r },
          record {
            next = suc m;
            records =
                (w.records ++ map attempt_record (made script h.spec.max_retries 1))
                ++ terminal_record r m ∷ [];
            events =
                (w.events ++ map started (made script h.spec.max_retries 1))
                ++ ended r.state m ∷ [];
          },
        )
  unfolding finish conclude
  run-script h w ready at =
      run-pending (scripted script) h w ready
      ∙ ap (finish (scripted script))
          (try_all-made h.spec.max_retries 1 (record h { state = running }) w at)
