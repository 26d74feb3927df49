-- ===== src/Execution/Once.antt =====
-- src/execution/engine.py: a handle ends at most once.
use absolute_zero.Prelude.{
  ℕ, zero, suc, ◌≡◌, refl, inl, inr, Bool, true, false, not, Option, none, some, Bool-cases,
  if◌then◌else◌,
}
use absolute_zero.Value.{pos, eq_ℤ}
use absolute_zero.Execution.{
  running, is_pending, Attempt, timed_out, exited, Result, Handle, attempt_record, started, Outside,
  illegal, Answer, cancel, run, try_all, try_once, judge, Tried, broken, stopped, retryable,
  at_attempt, finish,
}

module _ (o : Outside) where
  open o use {World, run_command, write_record, publish}

  -- Not pending any more.
  abbrev Moved : Answer o → Type 0
  Moved out = is_pending out.1.state ≡ false

  abbrev Fine : Tried o → Type 0
  Fine (broken w) = Unit
  Fine (stopped r w) = is_pending r.state ≡ false
  Fine (retryable r w) = is_pending r.state ≡ false

  judge-Fine : (a : Option Attempt × World) → Fine (judge o a)
  unfolding judge
  judge-Fine (none, w) = tt
  judge-Fine (some timed_out, w) = refl
  judge-Fine (some (exited code), w) = elim (Bool-cases (eq_ℤ code (pos 0))) [
    | inl zero_code ↦ rw (zero_code, judge) refl
    | inr other ↦ rw (other, judge) refl
  ]

  try_once-Fine : (h : Handle) (w : World) → Fine (try_once o h w)
  unfolding try_once
  try_once-Fine h w =
      let (w1, written) = write_record h.number (attempt_record h.attempts) w in
      let (w2, told) = publish h.number (started h.attempts) w1 in by_answers w1 w2 written told
    where
      by_answers :
          (w1 w2 : World) (written told : Bool)
          → Fine (
              if not written
              then broken w1
              else if not told
              then broken w2
              else judge o (run_command h.spec w2))
      by_answers w1 w2 false told = tt
      by_answers w1 w2 true false = tt
      by_answers w1 w2 true true = judge-Fine (run_command h.spec w2)

  -- The loop leaves a running handle, or a result that is not pending.
  abbrev Settled : Option Result × Handle × World → Type 0
  Settled (none, h, w) = is_pending h.state ≡ false
  Settled (some r, h, w) = is_pending r.state ≡ false

  data Cases (t : Tried o) : Type 0 where
    breaks : (w : World) → t ≡ broken w → Cases t
    stops : (r : Result) (w : World) → t ≡ stopped r w → is_pending r.state ≡ false → Cases t
    retries : (r : Result) (w : World) → t ≡ retryable r w → is_pending r.state ≡ false → Cases t

  Fine-Cases : (t : Tried o) → Fine t → Cases t
  Fine-Cases (broken w) f = breaks w refl
  Fine-Cases (stopped r w) f = stops r w refl f
  Fine-Cases (retryable r w) f = retries r w refl f

  try_all-Settled :
      (left n : ℕ) (h : Handle) (w : World)
      → is_pending h.state ≡ false
      → Settled (try_all o left n h w)
  unfolding try_all
  try_all-Settled zero n h w going = elim (Fine-Cases _ (try_once-Fine (at_attempt o n h) w)) [
    | breaks w' e ↦ rw (e, try_all) going
    | stops r w' e f ↦ rw (e, try_all) f
    | retries r w' e f ↦ rw (e, try_all) f
  ]
  try_all-Settled (suc left) n h w going =
      elim (Fine-Cases _ (try_once-Fine (at_attempt o n h) w)) [
        | breaks w' e ↦ rw (e, try_all) going
        | stops r w' e f ↦ rw (e, try_all) f
        | retries r w' e f ↦
            rw (e, try_all) (try_all-Settled left (suc n) (at_attempt o n h) w' going)
      ]

  finish-Moved : (t : Option Result × Handle × World) → Settled t → Moved (finish o t)
  unfolding finish
  finish-Moved (none, h, w) s = s
  finish-Moved (some r, h, w) s = s

  run-Moved : (h : Handle) (w : World) → Moved (run o h w)
  unfolding run
  run-Moved h w = elim (Bool-cases (is_pending h.state)) [
    | inr moved ↦ rw (moved, run) moved
    | inl ready ↦
        rw (ready, run)
          (finish-Moved _
            (try_all-Settled h.spec.max_retries 1 (record h { state = running }) w refl))
  ]

  cancel-Moved : (h : Handle) (w : World) → Moved (cancel o h w)
  unfolding cancel
  cancel-Moved h w = elim (Bool-cases (is_pending h.state)) [
    | inr moved ↦ rw (moved, cancel) moved
    | inl ready ↦ rw (ready, cancel) refl
  ]

  -- A call that is refused.
  abbrev pub Refused : Handle → World → Answer o → Type 0
  Refused h w out = (out.0 ≡ illegal h.state) × (out.1 ≡ h) × (out.2 ≡ w)

  moved-Refused :
      (h : Handle) (w : World)
      → is_pending h.state ≡ false
      → Refused h w (run o h w) × Refused h w (cancel o h w)
  unfolding run cancel
  moved-Refused h w moved =
      (rw (moved, run) (refl, refl, refl), rw (moved, cancel) (refl, refl, refl))

  -- However a run or a cancellation ends, by an exception of the storage, of the bus or of the runner
  -- as well, the handle is not run or cancelled again: every later call is refused as illegal and changes
  -- nothing.
  pub ended-refuses :
      (h : Handle) (w later : World)
      → (Refused (run o h w).1 later (run o (run o h w).1 later)
          × Refused (run o h w).1 later (cancel o (run o h w).1 later))
        × (Refused (cancel o h w).1 later (run o (cancel o h w).1 later)
            × Refused (cancel o h w).1 later (cancel o (cancel o h w).1 later))
  ended-refuses h w later = (
    moved-Refused (run o h w).1 later (run-Moved h w),
    moved-Refused (cancel o h w).1 later (cancel-Moved h w),
  )
