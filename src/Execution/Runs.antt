-- ===== src/Execution/Runs.antt =====
-- src/execution/engine.py: what a run comes to.
use mathlib.Core.Path.{subst}
use absolute_zero.Prelude.{
  ℕ, zero, suc, ◌+◌, ◌≤◌, ◌≡◌, ◌≢◌, ◌⊎◌, refl, sym, ap, ◌∙◌, inl, inr, true, Option, none, some,
  or_else, arith, Bool-cases,
}
use absolute_zero.Value.{pos, eq_ℤ}
use absolute_zero.Execution.{
  pending, running, is_terminal, is_pending, Attempt, timed_out, exited, Result, Handle, Rec,
  attempt_record, terminal_record, Event, started, ended, Outside, done, raised, Answer, run,
  try_all, try_once, judge, Tried, broken, stopped, retryable, at_attempt, conclude, finish,
}

module _ (o : Outside) where
  open o use {World, run_command, write_record, publish}

  -- A storage and a bus that take everything.
  abbrev pub Accepts : Type 0
  Accepts =
      ((n : ℕ) (r : Rec) (w : World) → (write_record n r w).1 ≡ true)
      × ((n : ℕ) (e : Event) (w : World) → (publish n e w).1 ≡ true)

  -- At some point the runner has raised on the spec.
  abbrev pub Crashed : Handle → Type 0
  Crashed h = (w : World) × ((run_command h.spec w).0 ≡ none)

  -- A loop that ends with a terminal result.
  abbrev HasResult : Option Result × Handle × World → Type 0
  HasResult out = (r : Result) × (out.0 ≡ some r) × (is_terminal r.state ≡ true)

  -- A loop that the runner has left by an exception.
  abbrev HasRaised : Handle → Option Result × Handle × World → Type 0
  HasRaised h out = Crashed h × (out.0 ≡ none) × (out.1.state ≡ h.state) × (out.1.result ≡ h.result)

  -- One of the two, after between `n` and `n + left` attempts.
  abbrev Ends : ℕ → ℕ → Handle → Option Result × Handle × World → Type 0
  Ends left n h out =
      (HasResult out ⊎ HasRaised h out) × (n ≤ out.1.attempts) × (out.1.attempts ≤ n + left)

  try_once-judge :
      Accepts
      → (h : Handle) (w : World) → (w2 : World) × (try_once o h w ≡ judge o (run_command h.spec w2))
  unfolding try_once
  try_once-judge ok h w =
      let w1 = (write_record h.number (attempt_record h.attempts) w).0 in
      let w2 = (publish h.number (started h.attempts) w1).0 in
      (
        w2,
        rw
            (
              ok.0 h.number (attempt_record h.attempts) w,
              ok.1 h.number (started h.attempts) w1,
              try_once,
            )
            refl,
      )

  abbrev Good : Handle → Tried o → Type 0
  Good h (broken w) = Crashed h
  Good h (stopped r w) = is_terminal r.state ≡ true
  Good h (retryable r w) = is_terminal r.state ≡ true

  judge-Good :
      (h : Handle) (a : Option Attempt × World) → (a.0 ≡ none → Crashed h) → Good h (judge o a)
  unfolding judge
  judge-Good h (none, w) crash = crash refl
  judge-Good h (some timed_out, w) crash = refl
  judge-Good h (some (exited code), w) crash = elim (Bool-cases (eq_ℤ code (pos 0))) [
    | inl zero_code ↦ rw (zero_code, judge) refl
    | inr other ↦ rw (other, judge) refl
  ]

  data Cases (h : Handle) (t : Tried o) : Type 0 where
    breaks : (w : World) → t ≡ broken w → Crashed h → Cases h t
    stops : (r : Result) (w : World) → t ≡ stopped r w → is_terminal r.state ≡ true → Cases h t
    retries : (r : Result) (w : World) → t ≡ retryable r w → is_terminal r.state ≡ true → Cases h t

  Good-Cases : (h : Handle) (t : Tried o) → Good h t → Cases h t
  Good-Cases h (broken w) g = breaks w refl g
  Good-Cases h (stopped r w) g = stops r w refl g
  Good-Cases h (retryable r w) g = retries r w refl g

  try_once-Cases : Accepts → (h : Handle) (w : World) → Cases h (try_once o h w)
  try_once-Cases ok h w =
      let (w2, same) = try_once-judge ok h w in
      Good-Cases h (try_once o h w)
        (subst (Good h) (sym same) (judge-Good h (run_command h.spec w2) (λ e. (w2, e))))

  try_all-Ends :
      Accepts → (left n : ℕ) (h : Handle) (w : World) → Ends left n h (try_all o left n h w)
  unfolding try_all
  try_all-Ends ok zero n h w = elim (try_once-Cases ok (at_attempt o n h) w) [
    | breaks w' e c ↦ rw (e, try_all) (inr (c, refl, refl, refl), omega arith, omega arith)
    | stops r w' e g ↦ rw (e, try_all) (inl (r, refl, g), omega arith, omega arith)
    | retries r w' e g ↦ rw (e, try_all) (inl (r, refl, g), omega arith, omega arith)
  ]
  try_all-Ends ok (suc left) n h w = elim (try_once-Cases ok (at_attempt o n h) w) [
    | breaks w' e c ↦ rw (e, try_all) (inr (c, refl, refl, refl), omega arith, omega arith)
    | stops r w' e g ↦ rw (e, try_all) (inl (r, refl, g), omega arith, omega arith)
    | retries r w' e g ↦
        let (way, low, high) = try_all-Ends ok left (suc n) (at_attempt o n h) w' in
        rw (e, try_all) (way, omega (arith, low), omega (arith, high))
  ]

  finish-ends :
      Accepts
      → (t : Option Result × Handle × World) (r : Result) → t.0 ≡ some r
      → ((finish o t).0 ≡ done r)
        × ((finish o t).1.state ≡ r.state)
        × ((finish o t).1.result ≡ some r)
        × ((finish o t).1.attempts ≡ t.1.attempts)
  unfolding finish conclude
  finish-ends ok (none, h, w) r found = absurd (cc found)
  finish-ends ok (some r', h, w) r found =
      let h' = record h { state = r'.state; result = some r' } in
      let w1 = (write_record h.number (terminal_record r' h.attempts) w).0 in
      let same : r' ≡ r = ap (λ x. or_else x r') found in
      (
        rw
            (
              ok.0 h.number (terminal_record r' h.attempts) w,
              ok.1 h.number (ended r'.state h.attempts) w1,
              finish,
              conclude,
            )
            (ap done same),
        ap (λ x. x.state) same,
        found,
        refl,
      )

  pub run-pending :
      (h : Handle) (w : World)
      → h.state ≡ pending
      → run o h w ≡ finish o (try_all o h.spec.max_retries 1 (record h { state = running }) w)
  unfolding run
  run-pending h w ready = rw (ap is_pending ready, run) refl

  finish-raises :
      (t : Option Result × Handle × World) → t.0 ≡ none → finish o t ≡ (raised, t.1, t.2)
  unfolding finish
  finish-raises (none, h, w) e = refl
  finish-raises (some r, h, w) e = absurd (cc e)

  -- A run that has returned a result, which is terminal and is kept with its state by the handle.
  abbrev pub Returned : Answer o → Type 0
  Returned out =
      (r : Result) × (out.0 ≡ done r)
      × (is_terminal r.state ≡ true)
      × (out.1.state ≡ r.state)
      × (out.1.result ≡ some r)

  -- A run that an exception of the runner has left: the handle stays in RUNNING with the result that
  -- it had.
  abbrev pub LeftRunning : Handle → Answer o → Type 0
  LeftRunning h out =
      Crashed h × (out.0 ≡ raised) × (out.1.state ≡ running) × (out.1.result ≡ h.result)

  -- With a storage and a bus that take everything, a run of a pending handle makes at least one and
  -- at most `max_retries + 1` attempts, and then it has returned a terminal result, which the handle
  -- keeps with its state; or it raises, which happens only if the runner has raised on the spec, and
  -- leaves the handle in RUNNING without a new result.
  pub run-settles :
      Accepts
      → (h : Handle) (w : World) → h.state ≡ pending
      → let out = run o h w in
        (Returned out ⊎ LeftRunning h out)
        × (1 ≤ out.1.attempts)
        × (out.1.attempts ≤ h.spec.max_retries + 1)
  run-settles ok h w ready =
      let tried = try_all o h.spec.max_retries 1 (record h { state = running }) w in
      let (way, low, high) =
        try_all-Ends ok h.spec.max_retries 1 (record h { state = running }) w in
      let same = run-pending h w ready in
      elim way [
        | inl (r, found, over) ↦
            let (answers, state, result, attempts) = finish-ends ok tried r found in
            (
              inl (
                r,
                ap (λ x. x.0) same ∙ answers,
                over,
                ap (λ x. x.1.state) same ∙ state,
                ap (λ x. x.1.result) same ∙ result,
              ),
              omega (arith, low, attempts, ap (λ x. x.1.attempts) same),
              omega (arith, high, attempts, ap (λ x. x.1.attempts) same),
            )
        | inr (crash, nothing, state, result) ↦
            let left = same ∙ finish-raises tried nothing in
            (
              inr (
                crash,
                ap (λ x. x.0) left,
                ap (λ x. x.1.state) left ∙ state,
                ap (λ x. x.1.result) left ∙ result,
              ),
              omega (arith, low, ap (λ x. x.1.attempts) left),
              omega (arith, high, ap (λ x. x.1.attempts) left),
            )
      ]

  -- With a storage and a bus that take everything, and a runner that does not raise on the spec, a
  -- run of a pending handle always comes to an end: it returns a result, completed, failed or timed
  -- out, which is the state of the handle, after at least one and at most `max_retries + 1` attempts.
  pub run-ends :
      Accepts
      → (h : Handle) (w : World) → ((w' : World) → (run_command h.spec w').0 ≢ none)
      → h.state ≡ pending
      → let out = run o h w in
        Returned out × (1 ≤ out.1.attempts) × (out.1.attempts ≤ h.spec.max_retries + 1)
  run-ends ok h w contains ready =
      let (way, low, high) = run-settles ok h w ready in
      elim way [
        | inl returned ↦ (returned, low, high)
        | inr ((w', crash), raises, state, result) ↦ absurd (contains w' crash)
      ]
