-- ===== src/Execution/Tests.antt =====
-- src/execution/engine.py: a command that fails twice and then succeeds.
use absolute_zero.Prelude.{
  ℕ, zero, suc, ◌≤◌, ◌≡◌, refl, true, none, some, [], ◌∷◌, ◌++◌, map, ◌⊎◌, ◌==◌, if◌then◌else◌,
}
use absolute_zero.Value.{str, list, dict, pos, end, field, nil, cons}
use absolute_zero.Execution.{
  pending, running, raised, Outside, Attempt, exited, Spec, Handle, attempt_record, terminal_record,
  started, ended, done, run, cancel, submit, new_engine, bad, bad_timeout,
}
use absolute_zero.Execution.Once.{Refused, ended-refuses}
use absolute_zero.Execution.Runs.{Returned, LeftRunning, run-settles, run-ends}
use absolute_zero.Execution.Script.{Trail, scripted, final, made, result_of, run-script}

abbrev script : ℕ → Attempt
script (suc (suc (suc zero))) = exited (pos 0)
script n = exited (pos 1)

abbrev spec : Spec
spec = record { fields = end; max_retries = 5 }

abbrev waiting : Handle
waiting = record { number = 1; spec = spec; state = pending; attempts = 0; result = none }

abbrev blank : Trail
blank = record { next = 1; records = []; events = [] }

three_attempts_test : (run (scripted script) waiting blank).1.attempts ≡ 3
unfolding run
three_attempts_test = refl

run-script_example : run (scripted script) waiting blank ≡ (
  done (result_of (script (final script 5 1))),
  record waiting {
    state = (result_of (script (final script 5 1))).state;
    attempts = final script 5 1;
    result = some (result_of (script (final script 5 1)));
  },
  record {
    next = suc (final script 5 1);
    records =
        ([] ++ map attempt_record (made script 5 1))
        ++ terminal_record (result_of (script (final script 5 1))) (final script 5 1) ∷ [];
    events =
        ([] ++ map started (made script 5 1))
        ++ ended (result_of (script (final script 5 1))).state (final script 5 1) ∷ [];
  },
)
run-script_example = run-script script waiting blank refl refl

run-ends_example :
    Returned (scripted script) (run (scripted script) waiting blank)
    × (1 ≤ (run (scripted script) waiting blank).1.attempts)
    × ((run (scripted script) waiting blank).1.attempts ≤ 6)
run-ends_example =
    run-ends (scripted script) (λ n r w. refl, λ n e w. refl) waiting blank (λ w h. cc h) refl

-- A runner that fails once and then raises, as `subprocess.run` does on a timeout that is too large.
abbrev crashing : Outside
crashing = record {
  World = ℕ;
  run_command = λ s w. (if w == 0 then some (exited (pos 1)) else none, suc w);
  write_record = λ n r w. (w, true);
  publish = λ n e w. (w, true);
}

crashing_test :
    ((run crashing waiting 0).0 ≡ raised)
    × ((run crashing waiting 0).1.state ≡ running)
    × ((run crashing waiting 0).1.attempts ≡ 2)
unfolding run
crashing_test = (refl, refl, refl)

run-settles_example :
    (Returned crashing (run crashing waiting 0)
      ⊎ LeftRunning crashing waiting (run crashing waiting 0))
    × (1 ≤ (run crashing waiting 0).1.attempts)
    × ((run crashing waiting 0).1.attempts ≤ 6)
run-settles_example = run-settles crashing (λ n r w. refl, λ n e w. refl) waiting 0 refl

ended-refuses_example :
    (Refused
        (scripted script)
        (run (scripted script) waiting blank).1
        blank
        (run (scripted script) (run (scripted script) waiting blank).1 blank)
      × Refused
          (scripted script)
          (run (scripted script) waiting blank).1
          blank
          (cancel (scripted script) (run (scripted script) waiting blank).1 blank))
    × (Refused
          (scripted script)
          (cancel (scripted script) waiting blank).1
          blank
          (run (scripted script) (cancel (scripted script) waiting blank).1 blank)
        × Refused
            (scripted script)
            (cancel (scripted script) waiting blank).1
            blank
            (cancel (scripted script) (cancel (scripted script) waiting blank).1 blank))
ended-refuses_example = ended-refuses (scripted script) waiting blank blank

no_timeout_test :
    submit (dict (field "command" (list (cons (str "ls") nil)) end)) new_engine ≡ bad bad_timeout
unfolding submit
no_timeout_test = refl
