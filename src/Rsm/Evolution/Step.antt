-- ===== src/Rsm/Evolution/Step.antt =====
-- src/rsm/reducers.py: the next version of a record.
use absolute_zero.Prelude.{
  suc, ◌≡◌, ◌⊎◌, refl, ◌∙◌, inl, inr, List, [], ◌∷◌, ◌++◌, length, Bool-cases,
}
use absolute_zero.Value.{Value, is_hashable}
use absolute_zero.Rsm.Record.{
  RequestRecord, FailureEntry, Update, replace, replace_block, evolve, to_lifecycle, to_plan,
  to_work, to_context, to_verification, to_budget, to_failure,
}
use absolute_zero.Rsm.Reducers.{Event, Result, ok, fault_of, crashed, ◌>>=◌, Reducer, keyed}

-- The Failure block is the old one, or has one entry more, numbered by its position.
abbrev pub AppendsFailure : RequestRecord → Event → RequestRecord → Type 0
AppendsFailure r e new =
    (new.failure ≡ r.failure)
    ⊎ ((entry : FailureEntry) × (new.failure ≡ r.failure ++ entry ∷ [])
        × (entry.seq ≡ length r.failure)
        × (entry.source_event_id ≡ e.event_id))

-- A new version of the same request.
pub record Evolved (r : RequestRecord) (e : Event) (new : RequestRecord) : Type 0 where
  pub version_up : new.version ≡ suc r.version
  pub same_request : new.request_id ≡ r.request_id
  pub same_identity : new.identity ≡ r.identity
  pub same_meta : new.journal_meta ≡ r.journal_meta
  pub failure_up : AppendsFailure r e new

-- What a reducer answers, if it answers with a record.
abbrev pub Good : RequestRecord → Event → Result RequestRecord → Type 0
Good r e (ok new) = Evolved r e new
Good r e _ = Unit

abbrev pub Evolves : Reducer → Type 0
Evolves f = (r : RequestRecord) (e : Event) → Good r e (f r e)

pub replace-same :
    (us : List Update) (r : RequestRecord)
    → ((replace r us).version ≡ r.version)
      × ((replace r us).request_id ≡ r.request_id)
      × ((replace r us).identity ≡ r.identity)
      × ((replace r us).journal_meta ≡ r.journal_meta)
unfolding replace
replace-same [] r = (refl, refl, refl, refl)
replace-same (u ∷ us) r =
    let (a, b, c, d) = replace-same us (replace_block r u) in
    let (a', b', c', d') = block_same u in (a ∙ a', b ∙ b', c ∙ c', d ∙ d')
  where
    block_same :
        (u : Update)
        → ((replace_block r u).version ≡ r.version)
          × ((replace_block r u).request_id ≡ r.request_id)
          × ((replace_block r u).identity ≡ r.identity)
          × ((replace_block r u).journal_meta ≡ r.journal_meta)
    block_same (to_lifecycle b) = (refl, refl, refl, refl)
    block_same (to_plan b) = (refl, refl, refl, refl)
    block_same (to_work b) = (refl, refl, refl, refl)
    block_same (to_context b) = (refl, refl, refl, refl)
    block_same (to_verification b) = (refl, refl, refl, refl)
    block_same (to_budget b) = (refl, refl, refl, refl)
    block_same (to_failure b) = (refl, refl, refl, refl)

pub evolve-Fails :
    (us : List Update) (r : RequestRecord) (e : Event) (entry : FailureEntry)
    → (evolve r us).failure ≡ r.failure ++ entry ∷ []
    → entry.seq ≡ length r.failure
    → entry.source_event_id ≡ e.event_id
    → Evolved r e (evolve r us)
unfolding evolve
evolve-Fails us r e entry up numbered named =
    let (a, b, c, d) = replace-same us (record r { version = suc r.version }) in
    record {
      version_up = a;
      same_request = b;
      same_identity = c;
      same_meta = d;
      failure_up = inr (entry, up, numbered, named);
    }

pub keyed-Good :
    (key : Value) (new r : RequestRecord) (e : Event) → Evolved r e new → Good r e (keyed key new)
keyed-Good key new r e good = elim (Bool-cases (is_hashable key)) [
  | inl fine ↦ rw fine good
  | inr bad ↦ rw bad tt
]

pub after :
    {A : Type 0} (x : Result A) (f : A → Result RequestRecord) (r : RequestRecord) (e : Event)
    → ((a : A) → Good r e (f a))
    → Good r e (x >>= f)
after (ok a) f r e k = k a
after (fault_of reason) f r e k = tt
after crashed f r e k = tt
