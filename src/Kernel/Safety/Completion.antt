-- ===== src/Kernel/Safety/Completion.antt =====
-- src/kernel/coordinator.py: the completed requests of a run under checked snapshots.
use mathlib.Core.Path.{subst}
use absolute_zero.Prelude.{
  String, ◌≡◌, ◌∙◌, ap, sym, refl, inl, inr, Bool, true, false, Option, none, some, List, [], ◌&&◌,
  elem, All, all_of, arith, str_eq, eq_iff, Bool-cases,
}
use absolute_zero.Prelude.Dict
use absolute_zero.Prelude.Dict.{get-put, get-remove}
use absolute_zero.Value.{Value}
use absolute_zero.Kernel.Config.{ConfigView, Row, Rows, rows, read}
use absolute_zero.Kernel.Config.Choice.{last_row-all_of}
use absolute_zero.Kernel.Ledger.{RequestState, Ledger, new_request, store, evict}
use absolute_zero.Kernel.Record.{Core, moved}
use absolute_zero.Kernel.Telemetry.{Outside}
use absolute_zero.Kernel.Coordinator.{choose, session_events, done, run}
use absolute_zero.Kernel.Coordinator.Picking.{pick_row-Passes}
use absolute_zero.Kernel.Coordinator.Handling.{Installs, run-Ends}
use absolute_zero.Kernel.Recovery.{start}
use absolute_zero.Kernel.Safety.{
  work_events, kernel_events, row_is_gated, row_is_birth, rows_pass, is_gated, IsGated,
}
use absolute_zero.Kernel.Safety.Verdicts.{IsVerified}
use absolute_zero.Kernel.Safety.Gated.{
  IsGood, gated-events, gated-rows, gated-birth, gated-routing, gated-completion, moved-IsGood,
  born-IsGood,
}
use absolute_zero.Kernel.Steps.{
  Step, work, birth, chained, installed, duplicate, session, cleaned, Reach, here, next,
}
use absolute_zero.Kernel.Recovery.Start.{start-IsSound}
use absolute_zero.Kernel.Steps.Sound.{IsSound, Step-IsSound}

-- Every entry of the ledger is good.
abbrev pub AllGood : Ledger → Type 0
AllGood l = (rid : String) (entry : RequestState) → Dict.get rid l ≡ some entry → IsGood entry

store-AllGood :
    (entry : RequestState) (l : Ledger) → IsGood entry → AllGood l → AllGood (store entry l)
unfolding store
store-AllGood entry l g h rid found e = elim (Bool-cases (str_eq entry.request_id rid)) [
  | inl own ↦
      let same : entry ≡ found = ground (arith, get-put entry.request_id rid entry l) in
      subst IsGood same g
  | inr other ↦ h rid found (ground (arith, get-put entry.request_id rid entry l))
]

evict-AllGood : (rid : String) (l : Ledger) → AllGood l → AllGood (evict rid l)
unfolding evict
evict-AllGood rid l h j found e = h j found (ground (arith, get-remove rid j l))

pub event-work :
    (event : String)
    → elem event kernel_events ≡ true
    → str_eq event "config.changed" ≡ false
    → elem event session_events ≡ false
    → str_eq event "request.received" ≡ false
    → elem event work_events ≡ true
event-work event k c s r = ground arith

pub choose-is_birth :
    (rs : Rows) (guard : Bool)
    → (row_is_birth rs.first && all_of row_is_birth rs.others) ≡ true
    → row_is_birth (choose rs guard) ≡ true
choose-is_birth rs true h = ground arith
choose-is_birth rs false h = last_row-all_of row_is_birth rs h

pub rows_pass-some :
    (p : Row → Bool) (found : Option Rows) (rs : Rows)
    → rows_pass p found ≡ true
    → found ≡ some rs
    → (p rs.first && all_of p rs.others) ≡ true
rows_pass-some p none rs h e = absurd (cc e)
rows_pass-some p (some r) rs h e = ground arith

-- A row of admission chains to routing only.
pub chain-routing :
    (row : Row) (event : String)
    → row_is_birth row ≡ true
    → row.chain ≡ some event
    → str_eq event "" ≡ false
    → event ≡ "__routing__"
unfolding row_is_birth
chain-routing row event fit linked named = ground (arith, eq_iff event "__routing__")

-- A new request is in a known state, and not completed.
new_request-IsGood :
    (rid declared : String) (cfg : ConfigView) → IsGood (new_request rid declared cfg.version)
new_request-IsGood rid declared cfg = record {
  known = refl;
  verified = λ completed. absurd (cc completed);
}

-- Every step of the coordinator keeps the requests good.
pub Step-AllGood :
    {Q : ConfigView → Type 0} {s t : Core}
    → ((cfg : ConfigView) → Q cfg → IsGated cfg)
    → Step Q s t
    → IsSound Q s
    → AllGood s.ledger
    → AllGood t.ledger
Step-AllGood {Q} {s} sub
      (work entry event eid rs row guard cfg asked other known versioned tabled picked e) sound h =
    let good = h entry.request_id entry known in
    let fit = sub cfg (sound.checked cfg.version cfg versioned) in
    let event_known =
      event-work event
        (gated-events s.config
          (sub s.config (sound.checked s.config.version s.config sound.current)) event
          asked.inbound)
        asked.no_config asked.no_session other in
    let passes =
      pick_row-Passes (row_is_gated entry.lifecycle_state event) entry cfg row guard rs
        (rows_pass-some (row_is_gated entry.lifecycle_state event) _ rs
          (gated-rows cfg fit entry.lifecycle_state event good.known event_known) tabled)
        picked in
    rw e (
      store-AllGood (moved entry event (some eid) row []) s.ledger
        (moved-IsGood entry event eid row [] cfg (gated-completion cfg fit) passes.1 passes.0 good)
        h)
Step-AllGood {Q} {s} sub (birth rid declared eid info rs guard cfg _ _ versioned tabled e) sound h =
    let entry = new_request rid declared cfg.version in
    let fit = choose-is_birth rs guard (
      rows_pass-some row_is_birth _ rs
        (gated-birth cfg (sub cfg (sound.checked cfg.version cfg versioned))) tabled) in
    rw e (
      store-AllGood (moved entry "request.received" (some eid) (choose rs guard) info)
        (store entry s.ledger) (born-IsGood entry "request.received" eid (choose rs guard) info fit)
        (store-AllGood entry s.ledger (new_request-IsGood rid declared cfg) h))
Step-AllGood {Q} {s} sub
      (chained entry event eid info from rs permitted guard cfg known versioned first linked named
        tabled e)
      sound h =
    let good = h entry.request_id entry known in
    let fit = sub cfg (sound.checked cfg.version cfg versioned) in
    let birth_row =
      choose-is_birth from permitted
        (rows_pass-some row_is_birth _ from (gated-birth cfg fit) first) in
    let routing : event ≡ "__routing__" =
      chain-routing (choose from permitted) event birth_row linked named in
    let fits = choose-is_birth rs guard (
      rows_pass-some row_is_birth _ rs (gated-routing cfg fit entry.lifecycle_state good.known)
        (ap (rows cfg entry.lifecycle_state) (sym routing) ∙ tabled)) in
    rw e (
      store-AllGood (moved entry event (some eid) (choose rs guard) info) s.ledger
        (born-IsGood entry event eid (choose rs guard) info fits) h)
Step-AllGood {Q} {s} sub (installed snap _ q e) sound h = rw e h
Step-AllGood {Q} {s} sub (duplicate entry eid event _ e) sound h = rw e h
Step-AllGood {Q} {s} sub (session name v _ _ e) sound h = rw e h
Step-AllGood {Q} {s} sub (cleaned rid entry _ _ e) sound h = rw e (evict-AllGood rid s.ledger h)

Reach-AllGood :
    {s t : Core}
    → Reach IsGated s t
    → IsSound IsGated s
    → AllGood s.ledger
    → AllGood t.ledger × IsSound IsGated t
Reach-AllGood here sound h = (h, sound)
Reach-AllGood (next {t} before st) sound h =
    let (good, sound') = Reach-AllGood before sound h in
    (Step-AllGood (λ cfg q. q) st sound' good, Step-IsSound st sound')

-- Take a run of the coordinator over any envelopes, bus and clock, from a start on a snapshot that
-- passes the check of the gates, where no envelope installs a snapshot that fails it. If no call
-- raises, then at the end of the run every request of the ledger that is in the state "completed"
-- has a recorded verdict "verification", and it is true.
pub completed-IsVerified :
    (o : Outside) (snap : Value) (w : o.World) (envs : List Value) (rid : String)
    (entry : RequestState)
    → is_gated (read snap) ≡ true
    → All (Installs IsGated) envs
    → (run o envs (start o snap w)).0 ≡ done
    → Dict.get rid (run o envs (start o snap w)).1.ledger ≡ some entry
    → entry.lifecycle_state ≡ "completed"
    → IsVerified entry
unfolding Dict.get
completed-IsVerified o snap w envs rid entry fit fits ended found completed =
    let sound = start-IsSound o snap w fit in
    let grown = run-Ends o envs (start o snap w) sound fits ended in
    let good = (Reach-AllGood grown.reached sound (λ j e k. absurd (cc k))).0 rid entry found in
    good.verified (rw completed refl)
