-- ===== src/Prt/Health/Scratch.antt =====
-- src/prt/health.py: the manager's cache against the fold from scratch.
use mathlib.Core.List.{foldl-append}
use mathlib.Core.Path.{subst}
use absolute_zero.Prelude.{
  ℕ, String, ◌≡◌, refl, sym, ap, ◌∙◌, inl, inr, Bool, false, Option, none, some, List, [], ◌∷◌,
  ◌++◌, foldl, append-nil, append_assoc, str_eq, eq_iff, eq_refl, length, or_else, Bool-cases,
  Option-cases, ◌⊎◌, ◌||◌,
}
use absolute_zero.Prelude.Dict
use absolute_zero.Prelude.Dict.{get-put}
use absolute_zero.Value.{Value}
use absolute_zero.Prt.Evidence.{
  Observation, Entry, EvidenceJournal, append, append_live, append_admin, entries_for, live_kind,
  admin_kind, live, admin,
}
use absolute_zero.Prt.Health.{
  State, Thresholds, Carry, effective, Legality, step_entry, fold_provider, initial_carry, Changed,
  drop, HealthManager, new_manager, tell, catch_up, carry_of, done_of, sync, state_of,
  reliability_of, after_entry, record_outcome, administer, snapshot,
}

drop-append {ℓ} : {A : Type ℓ} (xs ys : List A) → drop (length xs) (xs ++ ys) ≡ ys
drop-append [] ys = refl
drop-append (x ∷ xs) ys = drop-append xs ys

pub get-put_same {ℓ} :
    {V : Type ℓ} (k : String) (v : V) (d : Dict.Dict V) → Dict.get k (Dict.put k v d) ≡ some v
get-put_same k v d = get-put k k v d ∙ rw (eq_refl k) refl

pub get-put_other {ℓ} :
    {V : Type ℓ} (k j : String) (v : V) (d : Dict.Dict V)
    → str_eq k j ≡ false
    → Dict.get j (Dict.put k v d) ≡ Dict.get j d
get-put_other k j v d other = get-put k j v d ∙ rw other refl

-- What is done with a manager and its journal.
pub data Call (P : Type 0) : Type 0 where
  noting : String → Observation P → Call P
  outcome : String → String → Option Value → Call P
  administering : String → String → String → String → Call P
  asking : String → Call P
  asking_reliability : String → Call P
  snapping : List String → Call P

module _ (legality : Legality) (th : Thresholds) {P : Type 0} (neutral : P) where
  abbrev pub Manager : Type 0
  Manager = HealthManager legality th neutral

  abbrev pub fold_of : String → List (Entry P) → Carry P
  fold_of p es = fold_provider legality th neutral p es

  abbrev pub outcome_of : Option (State × Manager) → Manager → Manager
  outcome_of none m = m
  outcome_of (some (s, m')) m = m'

  -- A refused call leaves the manager and the journal.
  unfoldable pub perform : Call P → Manager → Manager
  unfolding append record_outcome administer state_of reliability_of snapshot
  perform (noting p o) m = record m { journal = (append p o m.journal).1 }
  perform (outcome p kind detail) m =
      outcome_of (record_outcome legality th neutral p kind detail m) m
  perform (administering p kind actor reason) m =
      outcome_of (administer legality th neutral p kind actor reason m) m
  perform (asking p) m = (state_of legality th neutral p m).1
  perform (asking_reliability p) m = (reliability_of legality th neutral p m).1
  perform (snapping ps) m = (snapshot legality th neutral ps [] m).1

  unfoldable pub perform_all : List (Call P) → Manager → Manager
  unfolding perform
  perform_all [] m = m
  perform_all (c ∷ cs) m = perform_all cs (perform c m)

  -- The cache holds the fold of the entries that are counted.
  pub record IsFolded (p : String) (m : Manager) : Type 0 where
    pub old : List (Entry P)
    pub new : List (Entry P)
    pub split : entries_for p m.journal ≡ old ++ new
    pub count : done_of legality th neutral p m ≡ length old
    pub kept : carry_of legality th neutral p m ≡ fold_of p old

  catch_up-fold :
      (p : String) (es : List (Entry P)) (carry : Carry P) (bus : Option (List Changed))
      → (catch_up legality th neutral p es carry bus).0
        ≡ foldl (step_entry legality th neutral p) carry es
  unfolding catch_up step_entry
  catch_up-fold p [] carry bus = refl
  catch_up-fold p (e ∷ es) carry bus =
      let after = step_entry legality th neutral p carry e in
      catch_up-fold p es after (tell legality th neutral p (effective carry) (effective after) bus)

  -- What is not folded yet is what is new.
  pub fresh :
      (p : String) (m : Manager) (h : IsFolded p m)
      → drop (done_of legality th neutral p m) (entries_for p m.journal) ≡ h.new
  fresh p m h =
      ap (λ n. drop n (entries_for p m.journal)) h.count
      ∙ ap (drop (length h.old)) h.split
      ∙ drop-append h.old h.new

  pub sync-fold :
      (p : String) (m : Manager)
      → IsFolded p m
      → (sync legality th neutral p m).0 ≡ fold_of p (entries_for p m.journal)
  unfolding sync fold_provider
  sync-fold p m h =
      let start = initial_carry legality th neutral in
      let f = step_entry legality th neutral p in
      catch_up-fold p (drop (done_of legality th neutral p m) (entries_for p m.journal))
        (carry_of legality th neutral p m) m.bus
      ∙ ap (foldl f (carry_of legality th neutral p m)) (fresh p m h)
      ∙ ap (λ c. foldl f c h.new) h.kept
      ∙ sym (foldl-append f start h.old h.new)
      ∙ ap (foldl f start) (sym h.split)

  sync-IsFolded :
      (p q : String) (m : Manager)
      → ((r : String) → IsFolded r m)
      → IsFolded q (sync legality th neutral p m).1
  unfolding sync
  sync-IsFolded p q m h = elim (Bool-cases (str_eq p q)) [
    | inl same ↦
        subst (λ r. IsFolded r (sync legality th neutral p m).1) ((eq_iff p q).0 same)
          (record {
            old = entries_for p m.journal;
            new = [];
            split = sym (append-nil (entries_for p m.journal));
            count =
                ap (λ o. or_else o 0) (get-put_same p (length (entries_for p m.journal)) m.folded);
            kept =
                ap (λ o. or_else o (initial_carry legality th neutral))
                  (get-put_same p (sync legality th neutral p m).0 m.cache)
                ∙ sync-fold p m (h p);
          })
    | inr other ↦
        let before = h q in
        record {
          old = before.old;
          new = before.new;
          split = before.split;
          count =
              ap (λ o. or_else o 0)
                (get-put_other p q (length (entries_for p m.journal)) m.folded other)
              ∙ before.count;
          kept =
              ap (λ o. or_else o (initial_carry legality th neutral))
                (get-put_other p q (sync legality th neutral p m).0 m.cache other)
              ∙ before.kept;
        }
  ]

  entries_for-append :
      (p : String) (es : List (Entry P)) (e : Entry P)
      → entries_for p (es ++ e ∷ []) ≡ entries_for p es ++ entries_for p (e ∷ [])
  unfolding entries_for
  entries_for-append p [] e = refl
  entries_for-append p (x ∷ xs) e = elim (Bool-cases (str_eq x.provider_id p)) [
    | inl mine ↦ rw (mine, entries_for) (ap (λ ys. x ∷ ys) (entries_for-append p xs e))
    | inr other ↦ rw (other, entries_for) (entries_for-append p xs e)
  ]

  append-IsFolded :
      (p q : String) (o : Observation P) (m : Manager)
      → IsFolded q m
      → IsFolded q (record m { journal = (append p o m.journal).1 })
  unfolding append
  append-IsFolded p q o m h =
      let e : Entry P = record { provider_id = p; seq = length m.journal; said = o } in
      record {
        old = h.old;
        new = h.new ++ entries_for q (e ∷ []);
        split =
            entries_for-append q m.journal e
            ∙ ap (λ es. es ++ entries_for q (e ∷ [])) h.split
            ∙ append_assoc h.old h.new (entries_for q (e ∷ []));
        count = h.count;
        kept = h.kept;
      }

  snapshot-IsFolded :
      (ps : List String) (data' : Dict.Dict (Bool × P)) (m : Manager)
      → ((r : String) → IsFolded r m)
      → (q : String) → IsFolded q (snapshot legality th neutral ps data' m).1
  unfolding snapshot
  snapshot-IsFolded [] data' m h q = h q
  snapshot-IsFolded (p ∷ ps) data' m h q =
      snapshot-IsFolded ps _ (sync legality th neutral p m).1 (λ r. sync-IsFolded p r m h) q

  -- An entry of the provider is appended, or the call is refused.
  abbrev pub Appended : String → EvidenceJournal P → Option (ℕ × EvidenceJournal P) → Type 0
  Appended p j r = (r ≡ none) ⊎ ((o : Observation P) × (r ≡ some (append p o j)))

  pub append_live-Appended :
      (p kind : String) (detail : Option Value) (j : EvidenceJournal P)
      → Appended p j (append_live p kind detail j)
  unfolding append_live
  append_live-Appended p kind detail j = elim (Option-cases (live_kind kind)) [
    | inl unknown ↦ inl (rw unknown refl)
    | inr (k, known) ↦ inr (live k detail, rw known refl)
  ]

  pub append_admin-Appended :
      (p kind actor reason : String) (j : EvidenceJournal P)
      → Appended p j (append_admin p kind actor reason j)
  unfolding append_admin
  append_admin-Appended p kind actor reason j =
      elim (Bool-cases (str_eq actor "" || str_eq reason "")) [
        | inl silent ↦ inl (rw silent refl)
        | inr explicit ↦ elim (Option-cases (admin_kind kind)) [
          | inl unknown ↦ inl (rw (explicit, unknown) refl)
          | inr (k, known) ↦ inr (admin k actor reason, rw (explicit, known) refl)
        ]
      ]

  after_entry-IsFolded :
      (p : String) (r : Option (ℕ × EvidenceJournal P)) (m : Manager)
      → Appended p m.journal r
      → ((q : String) → IsFolded q m)
      → (q : String) → IsFolded q (outcome_of (after_entry legality th neutral p r m) m)
  unfolding after_entry state_of
  after_entry-IsFolded p r m (inl refused) h q =
      subst (λ x. IsFolded q (outcome_of (after_entry legality th neutral p x m) m)) (sym refused)
        (h q)
  after_entry-IsFolded p r m (inr (o, same)) h q =
      subst (λ x. IsFolded q (outcome_of (after_entry legality th neutral p x m) m)) (sym same)
        (sync-IsFolded p q (record m { journal = (append p o m.journal).1 })
          (λ q'. append-IsFolded p q' o m (h q')))

  pub perform-IsFolded :
      (c : Call P) (m : Manager)
      → ((r : String) → IsFolded r m)
      → (q : String) → IsFolded q (perform c m)
  unfolding perform state_of reliability_of record_outcome administer after_entry append_live
      append_admin
  perform-IsFolded (noting p o) m h q = append-IsFolded p q o m (h q)
  perform-IsFolded (asking p) m h q = sync-IsFolded p q m h
  perform-IsFolded (asking_reliability p) m h q = sync-IsFolded p q m h
  perform-IsFolded (snapping ps) m h q = snapshot-IsFolded ps [] m h q
  perform-IsFolded (outcome p kind detail) m h q =
      after_entry-IsFolded p (append_live p kind detail m.journal) m
        (append_live-Appended p kind detail m.journal) h q
  perform-IsFolded (administering p kind actor reason) m h q =
      after_entry-IsFolded p (append_admin p kind actor reason m.journal) m
        (append_admin-Appended p kind actor reason m.journal) h q

  pub perform_all-IsFolded :
      (cs : List (Call P)) (m : Manager)
      → ((r : String) → IsFolded r m)
      → (q : String) → IsFolded q (perform_all cs m)
  unfolding perform_all
  perform_all-IsFolded [] m h q = h q
  perform_all-IsFolded (c ∷ cs) m h q =
      perform_all-IsFolded cs (perform c m) (λ r. perform-IsFolded c m h r) q

  pub new_manager-IsFolded :
      (j : EvidenceJournal P) (bus : Option (List Changed)) (q : String)
      → IsFolded q (new_manager legality th neutral j bus)
  unfolding fold_provider Dict.get
  new_manager-IsFolded j bus q = record {
    old = [];
    new = entries_for q j;
    split = refl;
    count = refl;
    kept = refl;
  }

  -- Whatever was done with a manager and its journal before, the state and the reliability that it
  -- answers are those of the fold from scratch over the entries of the provider, for a legality
  -- that answers the same question always the same way.
  pub manager-scratch :
      (cs : List (Call P)) (j : EvidenceJournal P) (bus : Option (List Changed)) (p : String)
      → let m = perform_all cs (new_manager legality th neutral j bus) in
        ((state_of legality th neutral p m).0 ≡ effective (fold_of p (entries_for p m.journal)))
        × ((reliability_of legality th neutral p m).0
            ≡ (fold_of p (entries_for p m.journal)).reliability)
  unfolding state_of reliability_of
  manager-scratch cs j bus p =
      let m = perform_all cs (new_manager legality th neutral j bus) in
      let same = sync-fold p m (
        perform_all-IsFolded cs (new_manager legality th neutral j bus) (new_manager-IsFolded j bus)
          p) in
      (ap (λ c. effective c) same, ap (λ c. c.reliability) same)
