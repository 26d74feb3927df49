-- ===== src/Kernel/Recovery/RoundTrip.antt =====
-- src/kernel/coordinator.py: `recover` on the log of a run.
use absolute_zero.Prelude.{
  ℕ, String, ◌≡◌, ◌∙◌, refl, ap, Bool, true, false, Option, none, some, List, [], ◌∷◌, ◌++◌, All,
  arith, Option-cases, inl, inr,
}
use absolute_zero.Value.{Value}
use absolute_zero.Kernel.Config.{ConfigView, Row, read}
use absolute_zero.Kernel.Record.{LogRecord, Core}
use absolute_zero.Kernel.Telemetry.{Outside, publish_row}
use absolute_zero.Kernel.Ledger.{RequestState}
use absolute_zero.Kernel.Telemetry.Silent.{core-publish_row}
use absolute_zero.Kernel.Coordinator.{done, run, decision_of}
use absolute_zero.Kernel.Coordinator.Handling.{Installs, run-Ends}
use absolute_zero.Kernel.Recovery.{
  Replayed, deviation, skipped, applied, replay, republish, give_up, replay_transition, replay_row,
  replay_all, recover, start, C,
}
use absolute_zero.Kernel.Recovery.Table.{is_replayable, IsReplayable}
use absolute_zero.Kernel.Recovery.Steps.{accepted}
use absolute_zero.Kernel.Steps.{Reach, here, next}
use absolute_zero.Kernel.Recovery.Start.{start-IsSound}
use absolute_zero.Kernel.Steps.Sound.{IsSound, Step-IsSound}
use absolute_zero.Kernel.Recovery.Replays.{Step-Replays}

-- The records of a log folded over a state, `none` at a deviation.
rebuild : List LogRecord → Core → Option Core
rebuild [] s = some s
rebuild (r ∷ rs) s = elim (accepted (replay r s)) [ none ↦ none | some t ↦ rebuild rs t ]

rebuild-snoc :
    (rs : List LogRecord) (r : LogRecord) (s t u : Core)
    → rebuild rs s ≡ some t
    → accepted (replay r t) ≡ some u
    → rebuild (rs ++ r ∷ []) s ≡ some u
unfolding rebuild
rebuild-snoc [] r s t u h e = ground arith
rebuild-snoc (q ∷ rs) r s t u h e = elim (Option-cases (accepted (replay q s))) [
  | inl bad ↦ ground arith
  | inr (m, good) ↦ ground (arith, rebuild-snoc rs r m t u)
]

-- Replay appends the record that it has replayed.
pub log-accepted :
    (r : LogRecord) (s t : Core) → accepted (replay r s) ≡ some t → t.log ≡ s.log ++ r ∷ []
unfolding replay replay_transition replay_row
log-accepted r s t h = ground arith

-- The log of a state that is reached from an empty log rebuilds that state.
Reach-rebuild :
    {s t : Core}
    → s.log ≡ []
    → IsSound IsReplayable s
    → Reach IsReplayable s t
    → (rebuild t.log s ≡ some t) × IsSound IsReplayable t
unfolding rebuild
Reach-rebuild {s} empty h here = (rw empty, h)
Reach-rebuild {s} empty h (next {t} {u} before st) =
    let (rebuilt, sound) = Reach-rebuild empty h before in
    let (r, e) = Step-Replays st sound in
    (
      ap (λ (log : List LogRecord). rebuild log s) (log-accepted r t u e)
          ∙ rebuild-snoc t.log r s t u rebuilt e,
      Step-IsSound st sound,
    )

module _ (o : Outside) (published : Option (List (String × ℕ))) where
  pub core-republish :
      (r : LogRecord) (entry : RequestState) (row : Row) (cfg : ConfigView) (c : C o)
      → (republish o published r entry row cfg c).core ≡ c.core
  unfolding republish
  core-republish r entry row cfg c =
      or_published published (core-publish_row o entry row _ cfg r.info c)
    where
      or_published :
          (p : Option (List (String × ℕ)))
          → (publish_row o entry row (decision_of row r.guard_result) cfg r.info c).core ≡ c.core
          → (republish o p r entry row cfg c).core ≡ c.core
      or_published none same_core = refl
      or_published (some delivered) same_core = ground arith

  abbrev Rebuilds : Bool × C o → Core → Type 0
  Rebuilds r s = (r.0 ≡ true) × (r.1.core ≡ s)

  after-Rebuilds :
      (x : Replayed) (r : LogRecord) (rs : List LogRecord) (c : C o) (s : Core)
      → ((d : C o) → rebuild rs d.core ≡ some s → Rebuilds (replay_all o rs published d) s)
      → elim (accepted x) [ none ↦ none | some t ↦ rebuild rs t ] ≡ some s
      → Rebuilds
          (elim x [
            | deviation t ↦ (false, give_up o r (record c { core = t }))
            | skipped t ↦ replay_all o rs published (record c { core = t })
            | applied entry row cfg t ↦
                replay_all o rs published
                  (republish o published r entry row cfg (record c { core = t }))
          ])
          s
  after-Rebuilds (deviation t) r rs c s rest h = absurd (cc h)
  after-Rebuilds (skipped t) r rs c s rest h = rest (record c { core = t }) h
  after-Rebuilds (applied entry row cfg t) r rs c s rest h =
      rest (republish o published r entry row cfg (record c { core = t }))
        (ap (rebuild rs) (core-republish r entry row cfg (record c { core = t })) ∙ h)

  -- With the whole log accepted, replay answers true and ends in the state of the fold.
  replay_all-rebuild :
      (rs : List LogRecord) (c : C o) (s : Core)
      → rebuild rs c.core ≡ some s
      → Rebuilds (replay_all o rs published c) s
  unfolding replay_all rebuild
  replay_all-rebuild [] c s h = ground arith
  replay_all-rebuild (r ∷ rs) c s h =
      after-Rebuilds (replay r c.core) r rs c s (λ d k. replay_all-rebuild rs d s k) h

-- Take a run of the coordinator from a start on a snapshot whose table replays, over any
-- envelopes, none of which installs a snapshot whose table does not, and over any bus and clock.
-- If no call raises, `recover` on the log of the run, in a fresh coordinator with the same
-- snapshot, over any bus and with any set of records said to be published, returns True and
-- rebuilds the ledger, the log and the installed snapshots of the run.
pub recover-run :
    (o p : Outside) (snap : Value) (w : o.World) (v : p.World) (envs : List Value)
    (published : Option (List (String × ℕ)))
    → is_replayable (read snap) ≡ true
    → All (Installs IsReplayable) envs
    → (run o envs (start o snap w)).0 ≡ done
    → let s = (run o envs (start o snap w)).1 in
      let (ok, s') = recover p s.log published (start p snap v) in (ok ≡ true) × (s'.core ≡ s.core)
unfolding recover
recover-run o p snap w v envs published fit fits ended =
    let grown = run-Ends o envs (start o snap w) (start-IsSound o snap w fit) fits ended in
    replay_all-rebuild p published _ _ _
      (Reach-rebuild refl (start-IsSound o snap w fit) grown.reached).0
