-- ===== src/Kernel/Steps/Sound.antt =====
-- The invariant of the steps: ids, the current snapshot, and the versions of the snapshots.
use mathlib.Core.Path.{subst}
use absolute_zero.Prelude.{
  String, ◌≡◌, refl, sym, ◌∙◌, ap, Bool, some, [], ◌∷◌, arith, eq_iff, inl, inr, Bool-cases,
  if◌then◌else◌,
}
use absolute_zero.Prelude.Dict
use absolute_zero.Prelude.Dict.{get-put, get-remove}
use absolute_zero.Value.{ℤ, eq_ℤ, eq_ℤ-refl, eq_ℤ-sound}
use absolute_zero.Kernel.Config.{ConfigView, Row, read}
use absolute_zero.Kernel.Ledger.{RequestState, new_request, store, evict}
use absolute_zero.Kernel.Record.{
  Info, Core, Configs, get_config, put_config, install, moved, advance,
}
use absolute_zero.Kernel.Coordinator.{choose}
use absolute_zero.Kernel.Steps.{Step, work, birth, chained, installed, duplicate, session, cleaned}

module _ (Q : ConfigView → Type 0) where
  pub record IsSound (s : Core) : Type 0 where
    pub keyed :
        (rid : String) (entry : RequestState)
        → Dict.get rid s.ledger ≡ some entry
        → entry.request_id ≡ rid
    pub current : get_config s.config.version s.configs ≡ some s.config
    pub versions : (v : ℤ) (cfg : ConfigView) → get_config v s.configs ≡ some cfg → cfg.version ≡ v
    pub checked : (v : ℤ) (cfg : ConfigView) → get_config v s.configs ≡ some cfg → Q cfg

get_config-put_config :
    (v : ℤ) (cfg : ConfigView) (cs : Configs)
    → get_config v (put_config cfg cs) ≡ (if eq_ℤ cfg.version v then some cfg else get_config v cs)
unfolding get_config put_config
get_config-put_config v cfg [] = refl
get_config-put_config v cfg ((w, old) ∷ cs) = ground (
  arith,
  eq_ℤ-sound w cfg.version,
  eq_ℤ-sound w v,
  eq_ℤ-sound cfg.version v,
  get_config-put_config v cfg cs,
)

-- The entry that a transition leaves is the one that the ledger finds.
pub get-store_moved :
    (entry : RequestState) (event event_id : String) (row : Row) (guard : Bool) (cfg : ConfigView)
    (info : Info) (s : Core)
    → Dict.get
        (moved entry event (some event_id) row info).request_id
        (advance entry event event_id row guard cfg info s).ledger
      ≡ some (moved entry event (some event_id) row info)
unfolding store
get-store_moved entry event event_id row guard cfg info s =
    let e = moved entry event (some event_id) row info in
    ground (arith, get-put e.request_id e.request_id e s.ledger, eq_iff e.request_id e.request_id)

module _ {Q : ConfigView → Type 0} where
  -- Only the ledger and the snapshots matter.
  IsSound-of_parts :
      (s t : Core)
      → IsSound Q s
      → t.ledger ≡ s.ledger
      → t.configs ≡ s.configs
      → t.config ≡ s.config
      → IsSound Q t
  IsSound-of_parts s t h l cs c = record {
    keyed = λ rid e found. h.keyed rid e (ap (Dict.get rid) (sym l) ∙ found);
    current = rw (c, cs) h.current;
    versions = λ v cfg found. h.versions v cfg (ap (get_config v) (sym cs) ∙ found);
    checked = λ v cfg found. h.checked v cfg (ap (get_config v) (sym cs) ∙ found);
  }

  store-IsSound :
      (entry : RequestState) (s t : Core)
      → IsSound Q s
      → t.ledger ≡ store entry s.ledger
      → t.configs ≡ s.configs
      → t.config ≡ s.config
      → IsSound Q t
  unfolding store
  store-IsSound entry s t h l cs c = record {
    keyed = λ rid e found. ground (
      arith,
      l,
      get-put entry.request_id rid entry s.ledger,
      eq_iff entry.request_id rid,
      h.keyed rid e,
    );
    current = rw (c, cs) h.current;
    versions = λ v cfg found. h.versions v cfg (ap (get_config v) (sym cs) ∙ found);
    checked = λ v cfg found. h.checked v cfg (ap (get_config v) (sym cs) ∙ found);
  }

  advance-IsSound :
      (entry : RequestState) (event event_id : String) (row : Row) (guard : Bool) (cfg : ConfigView)
      (info : Info) (s : Core)
      → IsSound Q s
      → IsSound Q (advance entry event event_id row guard cfg info s)
  advance-IsSound entry event event_id row guard cfg info s h =
      store-IsSound (moved entry event (some event_id) row info) s _ h refl refl refl

  install-IsSound : (cfg : ConfigView) (s : Core) → Q cfg → IsSound Q s → IsSound Q (install cfg s)
  install-IsSound cfg s q h = record {
    keyed = h.keyed;
    current =
        ground (arith, get_config-put_config cfg.version cfg s.configs, eq_ℤ-refl cfg.version);
    versions = λ v c e.
        ground
          (arith, get_config-put_config v cfg s.configs, eq_ℤ-sound cfg.version v, h.versions v c);
    checked = λ v c e. elim (Bool-cases (eq_ℤ cfg.version v)) [
      | inl same ↦
          let found : cfg ≡ c = ground (arith, get_config-put_config v cfg s.configs) in
          subst Q found q
      | inr other ↦ h.checked v c (ground (arith, get_config-put_config v cfg s.configs))
    ];
  }

  evict-IsSound :
      (rid : String) (s t : Core)
      → IsSound Q s
      → t.ledger ≡ evict rid s.ledger
      → t.configs ≡ s.configs
      → t.config ≡ s.config
      → IsSound Q t
  unfolding evict
  evict-IsSound rid s t h l cs c = record {
    keyed = λ j e found. ground (arith, l, get-remove rid j s.ledger, eq_iff rid j, h.keyed j e);
    current = rw (c, cs) h.current;
    versions = λ v cfg found. h.versions v cfg (ap (get_config v) (sym cs) ∙ found);
    checked = λ v cfg found. h.checked v cfg (ap (get_config v) (sym cs) ∙ found);
  }

  pub Step-IsSound : {s t : Core} → Step Q s t → IsSound Q s → IsSound Q t
  Step-IsSound {s} (work entry event eid rs row guard cfg _ _ _ _ _ _ e) h =
      rw e (advance-IsSound entry event eid row guard cfg [] s h)
  Step-IsSound {s} (birth rid declared eid info rs guard cfg _ _ _ _ e) h =
      let entry = new_request rid declared cfg.version in
      rw e (
        advance-IsSound entry "request.received" eid (choose rs guard) guard cfg info _
          (store-IsSound entry s (record s { ledger = store entry s.ledger }) h refl refl refl))
  Step-IsSound {s} (chained entry event eid info from rs permitted guard cfg _ _ _ _ _ _ e) h =
      rw e (advance-IsSound entry event eid (choose rs guard) guard cfg info s h)
  Step-IsSound {s} (installed snap _ q e) h = rw e (
      IsSound-of_parts (install (read snap) s) _ (install-IsSound (read snap) s q h) refl refl refl)
  Step-IsSound {s} (duplicate entry eid event _ e) h = rw e (IsSound-of_parts s _ h refl refl refl)
  Step-IsSound {s} (session name v _ _ e) h = rw e (IsSound-of_parts s _ h refl refl refl)
  Step-IsSound {s} (cleaned rid entry _ _ e) h = rw e (evict-IsSound rid s _ h refl refl refl)
