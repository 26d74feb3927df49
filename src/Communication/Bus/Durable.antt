-- ===== src/Communication/Bus/Durable.antt =====
-- src/communication/bus.py: publication against the replay of the log.
use absolute_zero.Prelude.{
  ℕ, zero, suc, ◌+◌, ◌<◌, ◌≢◌, ◌⊎◌, String, ◌≡◌, ◌∙◌, sym, ap, inl, inr, none, some, List, [], ◌∷◌,
  ◌++◌, arith, Option-cases, eq_iff,
}
use absolute_zero.Prelude.Dict
use absolute_zero.Prelude.Dict.{get-put}
use absolute_zero.Value.{Value, find, fields_of}
use absolute_zero.Value.Sorted.{sort_keys, is_distinct, sorted_value, find-sort_keys}
use absolute_zero.Prelude.{true}
use absolute_zero.Communication.Bus.{Port, B, seq_floor, persist, publish, read_log, load, replay}

-- What the bus relies on: a write is read back and leaves the other entries alone, and JSON
-- decodes of a value what it has encoded, the keys of each object in order.
pub record IsPort (p : Port) : Type 0 where
  pub read_own :
      (t : String) (n : ℕ) (bytes : p.Bytes) (st st' : p.Store)
      → p.write t n bytes st ≡ some st'
      → p.read t n st' ≡ some bytes
  pub read_other :
      (t u : String) (n m : ℕ) (bytes : p.Bytes) (st st' : p.Store)
      → p.write t n bytes st ≡ some st'
      → (t ≢ u) ⊎ (n ≢ m)
      → p.read u m st' ≡ p.read u m st
  pub round : (v : Value) → is_distinct v ≡ true → p.loads (p.dumps v) ≡ some (sort_keys v)

some-inj : {A : Type 0} {a b : A} → some a ≡ some b → a ≡ b
some-inj h = cc h

n≢i : (n i : ℕ) → i < n → n ≢ i
n≢i n i lt = λ e. omega (arith, lt, e)

module _ (p : Port) (laws : IsPort p) where
  open p use {Store, write, read, dumps}

  load-dumps :
      (topic : String) (n : ℕ) (st : Store) (m : Value)
      → is_distinct m ≡ true
      → read topic n st ≡ some (dumps m)
      → load p (read topic n st) ≡ some (sort_keys m)
  unfolding load
  load-dumps topic n st m ok e = ap (load p) e ∙ laws.round m ok

  read_log-step :
      (count : ℕ) (topic : String) (seq : ℕ) (st : Store) {first : Value} {rest : List Value}
      → load p (read topic seq st) ≡ some first
      → read_log p count topic (seq + 1) st ≡ some rest
      → read_log p (suc count) topic seq st ≡ some (first ∷ rest)
  unfolding read_log
  read_log-step count topic seq st got more = ground arith

  -- One more entry after those that are read.
  read_log-snoc :
      (count : ℕ) (topic : String) (seq : ℕ) (st st' : Store) (ms : List Value) (m : Value)
      → is_distinct m ≡ true
      → ((i : ℕ) → i < seq + count → read topic i st' ≡ read topic i st)
      → read topic (seq + count) st' ≡ some (dumps m)
      → read_log p count topic seq st ≡ some ms
      → read_log p (suc count) topic seq st' ≡ some (ms ++ sort_keys m ∷ [])
  unfolding read_log
  read_log-snoc zero topic seq st st' ms m ok same last e =
      let here : load p (read topic seq st') ≡ some (sort_keys m) =
        load-dumps topic seq st' m ok (ap (λ n. read topic n st') (omega arith) ∙ last) in
      ground (arith, here)
  read_log-snoc (suc count) topic seq st st' ms m ok same last e =
      elim (Option-cases (load p (read topic seq st))) [
        | inl bad ↦ absurd (ground arith)
        | inr (first, got) ↦ elim (Option-cases (read_log p count topic (seq + 1) st)) [
          | inl bad ↦ absurd (ground arith)
          | inr (rest, read_on) ↦
              let first' : load p (read topic seq st') ≡ some first =
                ap (load p) (same seq (omega arith)) ∙ got in
              let more : read_log p (suc count) topic (seq + 1) st'
                  ≡ some (rest ++ sort_keys m ∷ []) =
                read_log-snoc count topic (seq + 1) st st' rest m ok
                  (λ i lt. same i (omega (arith, lt)))
                  (ap (λ n. read topic n st') (omega arith) ∙ last) read_on in
              read_log-step (suc count) topic seq st' first' more
              ∙ ap (λ xs. some (xs ++ sort_keys m ∷ []))
                  (some-inj (sym (read_log-step count topic seq st got read_on) ∙ e))
        ]
      ]

  read_log-next :
      (count : ℕ) (topic : String) (st st' : Store) (ms : List Value) (m : Value)
      → is_distinct m ≡ true
      → ((i : ℕ) → i < count → read topic i st' ≡ read topic i st)
      → read topic count st' ≡ some (dumps m)
      → read_log p count topic 0 st ≡ some ms
      → read_log p (count + 1) topic 0 st' ≡ some (ms ++ sort_keys m ∷ [])
  read_log-next count topic st st' ms m ok same last got =
      ap (λ n. read_log p n topic 0 st') (omega arith)
      ∙ read_log-snoc count topic 0 st st' ms m ok (λ i lt. same i (omega (arith, lt)))
          (ap (λ n. read topic n st') (omega arith) ∙ last) got

  -- What `replay` comes to over a counted topic.
  replay-counted :
      (topic : String) (c : B p) (st : Store) (count : ℕ) (ms : List Value)
      → c.storage ≡ some st
      → Dict.get topic c.log_seq ≡ some count
      → read_log p count topic 0 st ≡ some ms
      → (replay p topic c).0 ≡ inr ms
  unfolding replay seq_floor
  replay-counted topic c st count ms stored counted got = ground arith

  -- What a replay that returns has read.
  replay-reads :
      (topic : String) (b : B p) (st : Store) (ms : List Value)
      → b.storage ≡ some st
      → (replay p topic b).0 ≡ inr ms
      → read_log p (seq_floor p topic st b).0 topic 0 st ≡ some ms
  unfolding replay
  replay-reads topic b st ms stored replayed = ground arith

  -- What a write that returns leaves.
  record Persisted (topic : String) (m : Value) (b : B p) (st : Store) (c : B p) : Type 0 where
    st' : Store
    written : write topic (seq_floor p topic st b).0 (dumps m) st ≡ some st'
    stored' : c.storage ≡ some st'
    counted : Dict.get topic c.log_seq ≡ some ((seq_floor p topic st b).0 + 1)

  persist-Persisted :
      (topic : String) (m : Value) (b : B p) (st : Store)
      → b.storage ≡ some st
      → (persist p topic m b).0 ≡ none
      → Persisted topic m b st (persist p topic m b).1
  unfolding persist
  persist-Persisted topic m b st stored ok =
      elim (Option-cases (write topic (seq_floor p topic st b).0 (dumps m) st)) [
        | inl bad ↦ absurd (ground arith)
        | inr (st', written) ↦ record {
          st' = st';
          written = written;
          stored' = ground arith;
          counted = ground (
            arith,
            get-put topic topic ((seq_floor p topic st b).0 + 1) (seq_floor p topic st b).1.log_seq,
            eq_iff topic topic,
          );
        }
      ]

  publish-Persisted :
      (topic : String) (m : Value) (b : B p) (st : Store)
      → b.storage ≡ some st
      → (publish p topic m b).0 ≡ none
      → Persisted topic m b st (publish p topic m b).1
  unfolding publish
  publish-Persisted topic m b st stored ok =
      let kept : (persist p topic m b).0 ≡ none = ground arith in
      let r = persist-Persisted topic m b st stored kept in
      let same_store : (publish p topic m b).1.storage ≡ (persist p topic m b).1.storage =
        ground arith in
      let same_count : (publish p topic m b).1.log_seq ≡ (persist p topic m b).1.log_seq =
        ground arith in
      record {
        st' = r.st';
        written = r.written;
        stored' = same_store ∙ r.stored';
        counted = ap (Dict.get topic) same_count ∙ r.counted;
      }

  -- Over a storage port that reads back what it has written and leaves the other entries alone, and
  -- a JSON codec that decodes of a value with no key twice in an object what it has encoded, the keys
  -- of each object in order: for every such message that `publish` accepts on a topic of a bus with
  -- storage, where the log of the topic could be replayed before, the replay after it is the replay
  -- before it and then the message with its keys in order, which has under every key the value that
  -- the message has there, in order too.
  pub replay-publish :
      (topic : String) (m : Value) (b : B p) (st : Store) (ms : List Value)
      → is_distinct m ≡ true
      → b.storage ≡ some st
      → (publish p topic m b).0 ≡ none
      → (replay p topic b).0 ≡ inr ms
      → ((replay p topic (publish p topic m b).1).0 ≡ inr (ms ++ sort_keys m ∷ []))
        × ((key : String)
            → find key (fields_of (sort_keys m)) ≡ sorted_value (find key (fields_of m)))
  replay-publish topic m b st ms ok stored published replayed =
      let r = publish-Persisted topic m b st stored published in
      let n = (seq_floor p topic st b).0 in
      (
        replay-counted topic (publish p topic m b).1 r.st' (n + 1) (ms ++ sort_keys m ∷ [])
            r.stored' r.counted
            (read_log-next n topic st r.st' ms m ok
              (λ i lt.
                laws.read_other topic topic n i (dumps m) st r.st' r.written (inr (n≢i n i lt)))
              (laws.read_own topic n (dumps m) st r.st' r.written)
              (replay-reads topic b st ms stored replayed)),
        λ key. find-sort_keys key m,
      )
