-- ===== src/Rsm/Recovery/Replay.antt =====
-- src/rsm/recovery.py: the replay of the journal of a request.
use absolute_zero.Prelude.{
  ◌<◌, String, ◌≡◌, refl, sym, ap, ◌∙◌, inl, inr, true, Option, none, some, List, [], ◌∷◌, ◌++◌,
  map, length, arith, or_else, ◌>>=◌, is_some, All, All-append, Option-cases, map-append,
  append-nil, append_assoc,
}
use absolute_zero.Rsm.Record.{RequestRecord}
use absolute_zero.Rsm.Journal.{ids, entries}
use absolute_zero.Rsm.Reducers.{Event}
use absolute_zero.Rsm.Store.{get_record}
use absolute_zero.Rsm.Telemetry.{Telemetry}
use absolute_zero.Rsm.Ingest.{Ingest, Outcome, names_of, name_of, process}
use absolute_zero.Rsm.Requests.{View, view, accept}
use absolute_zero.Rsm.Requests.Accepted.{Accepted, unmoved, births, folds, accept-Accepted}
use absolute_zero.Rsm.Requests.Kept.{requests-IsKept, started, is_live, length-map}
use absolute_zero.Rsm.Requests.Views.{process-view}
use absolute_zero.Rsm.Requests.Steps.{
  Move, persists, evicts, stays, persisting-Move, evicting-Move, Call, processing, persisting,
  evicting, perform, perform_all,
}
use absolute_zero.Rsm.Recovery.{Replayed, replayed, replay_events, replay_journal}
use absolute_zero.Rsm.Recovery.Mirrors.{Mirrors}
use absolute_zero.Rsm.Recovery.Rebuilds.{
  is_applied, applied_in, applied_events, process_events, serve-of, processing-cases,
  perform_all-Mirrors,
}

-- `event["event_id"]`
abbrev pub id_of : Event → String
id_of event = or_else event.event_id ""

name_of_sound : (o : Option String) (s : String) → name_of o ≡ some s → o ≡ some s
name_of_sound none s h = absurd (cc h)
name_of_sound (some a) s h = ground arith

names_of_sound :
    (event : Event) (r e family : String)
    → names_of event ≡ some (r, e, family)
    → (event.request_id ≡ some r) × (event.event_id ≡ some e)
names_of_sound event r e family h = elim (Option-cases (name_of event.request_id)) [
  | inl gone ↦ absurd (ground arith)
  | inr (r', here) ↦ elim (Option-cases (name_of event.event_id)) [
    | inl gone ↦ absurd (ground arith)
    | inr (e', there) ↦ elim (Option-cases (name_of event.family)) [
      | inl gone ↦ absurd (ground arith)
      | inr (family', last) ↦ (
        name_of_sound event.request_id r (ground arith),
        name_of_sound event.event_id e (ground arith),
      )
    ]
  ]
]

Accepted-grows :
    (r e : String) (v : View) (out : View × Outcome)
    → Accepted r e v out
    → is_applied out.1 ≡ true
    → out.0.seen ≡ v.seen ++ e ∷ []
Accepted-grows r e v _ (unmoved o h) on = absurd (ground arith)
Accepted-grows r e v _ (births fields fresh unborn) on = refl
Accepted-grows r e v _ (folds family f event current new s fresh found live c next) on = refl

Move-seen : (v w : View) → Move v w → w.seen ≡ v.seen
Move-seen v _ (stays _) = refl
Move-seen v _ (evicts _ over) = refl
Move-seen v _ (persists _ over) = refl

perform-seen :
    (r : String) (c : Call) (i : Ingest)
    → (view r (perform c i)).seen ≡ (view r i).seen ++ map id_of (applied_in r c i)
unfolding perform
perform-seen r (persisting q now) i =
    Move-seen _ _ (persisting-Move q r now i) ∙ sym (append-nil (view r i).seen)
perform-seen r (evicting q now window) i =
    Move-seen _ _ (evicting-Move q r now window i) ∙ sym (append-nil (view r i).seen)
perform-seen r (processing now event) i = elim (processing-cases r now event i) [
  | inl (nothing, same) ↦ rw (nothing, same) (sym (append-nil (view r i).seen))
  | inr (e, family, named, one, on) ↦
      let (_, known) = names_of_sound event r e family named in
      rw (one, process-view now event i r, serve-of r e family event (view r i) named)
        (Accepted-grows r e (view r i) (accept r e family event (view r i))
            (accept-Accepted r e family event (view r i)) on
          ∙ ap (λ o. (view r i).seen ++ or_else o "" ∷ []) (sym known))
]

perform_all-seen :
    (r : String) (cs : List Call) (i : Ingest)
    → (view r (perform_all cs i)).seen ≡ (view r i).seen ++ map id_of (applied_events r cs i)
unfolding perform_all applied_events
perform_all-seen r [] i = sym (append-nil (view r i).seen)
perform_all-seen r (c ∷ cs) i =
    rw
      (
        perform_all-seen r cs (perform c i),
        perform-seen r c i,
        map-append id_of (applied_in r c i) (applied_events r cs (perform c i)),
      )
      (append_assoc (view r i).seen (map id_of (applied_in r c i))
        (map id_of (applied_events r cs (perform c i))))

-- The events that are applied to `r` name it.
pub applied-requests :
    (r : String) (cs : List Call) (i : Ingest)
    → All (λ event. event.request_id ≡ some r) (applied_events r cs i)
unfolding applied_events
applied-requests r [] i = tt
applied-requests r (c ∷ cs) i =
    All-append (λ event. event.request_id ≡ some r) (applied_in r c i)
      (applied_events r cs (perform c i)) (here c) (applied-requests r cs (perform c i))
  where
    here : (c : Call) → All (λ event. event.request_id ≡ some r) (applied_in r c i)
    here (persisting q now) = tt
    here (evicting q now window) = tt
    here (processing now event) = elim (processing-cases r now event i) [
      | inl (nothing, _) ↦ rw nothing tt
      | inr (e, family, named, one, _) ↦ rw one ((names_of_sound event r e family named).0, tt)
    ]

-- The last request of a replay of events of `r`.
abbrev pub last_of : String → List Event → Option String → Option String
last_of r [] last = last
last_of r (event ∷ more) last = some r

replay_step :
    (source : String → Option Event) (r : String) (event : Event) (ids' : List String) (i : Ingest)
    (last : Option String)
    → source (id_of event) ≡ some event
    → event.request_id ≡ some r
    → replay_events source (id_of event ∷ ids') i last
      ≡ replay_events source ids' (process 0 event i).0 (some r)
unfolding replay_events
replay_step source r event ids' i last archived named =
    ap
      (λ o.
        o >>= (λ x. x.request_id >>= (λ q. replay_events source ids' (process 0 x i).0 (some q))))
      archived
    ∙ ap (λ o. o >>= (λ q. replay_events source ids' (process 0 event i).0 (some q))) named

pub replay_events-process :
    (source : String → Option Event) (r : String) (events : List Event) (i : Ingest)
    (last : Option String)
    → All (λ event. source (id_of event) ≡ some event) events
    → All (λ event. event.request_id ≡ some r) events
    → replay_events source (map id_of events) i last
      ≡ some (replayed (process_events events i) (last_of r events last))
unfolding replay_events process_events
replay_events-process source r [] i last archived named = refl
replay_events-process source r (event ∷ []) i last archived named =
    replay_step source r event [] i last archived.0 named.0
replay_events-process source r (event ∷ next ∷ more) i last archived named =
    replay_step source r event (map id_of (next ∷ more)) i last archived.0 named.0
    ∙ replay_events-process source r (next ∷ more) (process 0 event i).0 (some r) archived.1 named.1

pub mirrored :
    (live rep : View) (c : RequestRecord)
    → Mirrors live rep
    → is_some live.current ≡ is_live live.state
    → live.current ≡ some c
    → (rep.current ≡ some c) × (rep.log ≡ live.log)
mirrored live rep c (inl same) there has' = (ap (λ v. v.current) same ∙ has', ap (λ v. v.log) same)
mirrored live rep c (inr (inl (p, same))) there has' =
    (ap (λ v. v.current) same ∙ has', ap (λ v. v.log) same)
mirrored live rep c (inr (inr gone)) there has' = absurd (ground arith)

last_of-some :
    (r : String) (events : List Event)
    → 0 < length (map id_of events)
    → last_of r events none ≡ some r
last_of-some r [] h = absurd (omega arith)
last_of-some r (event ∷ more) h = refl

-- The record of any request, as long as it is there, is rebuilt by the replay of its journal, from
-- nothing and with no telemetry, whatever was persisted in between: if the source of the events
-- has every event that was applied to the request under its id, the replay answers, with the same
-- record and the same entries of the journal.
pub replay-rebuilds :
    (cs : List Call) (t : Option Telemetry) (r : String) (source : String → Option Event)
    (c : RequestRecord)
    → get_record r (perform_all cs (started t)).store ≡ some c
    → All (λ event. source (id_of event) ≡ some event) (applied_events r cs (started t))
    → (out : Replayed) × (replay_journal
          (ids r (perform_all cs (started t)).journal)
          source
          none
          none
        ≡ some out)
      × (out.rebuilt ≡ some c)
      × (entries r out.journal ≡ entries r (perform_all cs (started t)).journal)
unfolding replay_journal view
replay-rebuilds cs t r source c live archived =
    let events = applied_events r cs (started t) in
    let j = process_events events (started none) in
    let kept = requests-IsKept cs t r in
    let (same_record, same_log) =
      mirrored (view r (perform_all cs (started t))) (view r j) c
        (perform_all-Mirrors r cs (started t) (started none) (inl refl)) kept.materialized live in
    let seen = perform_all-seen r cs (started t) in
    let some_events : 0 < length (map id_of events) = omega (
      arith,
      (kept.of_request c live).versioned,
      ap length kept.named,
      ap length seen,
      length-map (λ x. x.event_id) (view r (perform_all cs (started t))).log,
    ) in
    (
      replayed j (last_of r events none),
      rw seen (
          replay_events-process source r events (started none) none archived
            (applied-requests r cs (started t))),
      rw (last_of-some r events some_events) same_record,
      same_log,
    )
