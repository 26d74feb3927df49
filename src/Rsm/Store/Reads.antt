-- ===== src/Rsm/Store/Reads.antt =====
-- src/rsm/store.py: what the reads answer after each of the writes.
use absolute_zero.Prelude.{
  String, ◌≡◌, refl, true, false, some, arith, Option-cases, inl, inr, str_eq, eq_refl,
}
use absolute_zero.Prelude.Dict
use absolute_zero.Prelude.Dict.{Dict, get-put, get-remove}
use absolute_zero.Value.{Fields}
use absolute_zero.Rsm.Record.{RequestRecord, birth}
use absolute_zero.Rsm.Transitions.{State, active, terminal}
use absolute_zero.Rsm.Store.{
  Store, state_of, get_record, apply, apply_terminal, plant, is_absent, is_active,
}

-- The request `r` has the state and the record given, and every other request what it had.
pub record Reads (r : String) (st : State) (new : RequestRecord) (s s' : Store) : Type 0 where
  pub state_here : state_of r s' ≡ st
  pub record_here : get_record r s' ≡ some new
  pub state_there : (q : String) → str_eq r q ≡ false → state_of q s' ≡ state_of q s
  pub record_there : (q : String) → str_eq r q ≡ false → get_record q s' ≡ get_record q s

pub create-Reads :
    (r : String) (f : Fields) (s : Store)
    → is_absent (state_of r s) ≡ true
    → Reads r active (birth r f) s (plant r (birth r f) s)
unfolding state_of get_record
create-Reads r f s h = record {
  state_here = ground (arith, get-put r r active s.states, eq_refl r);
  record_here = ground (arith, get-put r r (birth r f) s.active_records, eq_refl r);
  state_there = λ q other. ground (arith, get-put r q active s.states);
  record_there = λ q other. ground (arith, get-put r q (birth r f) s.active_records);
}

pub apply_terminal-Reads :
    (r : String) (new : RequestRecord) (s : Store)
    → is_active (state_of r s) ≡ true
    → (s' : Store) × (apply_terminal r new s ≡ some s') × Reads r terminal new s s'
unfolding apply_terminal state_of get_record
apply_terminal-Reads r new s h =
    let s' : Store = record s {
      active_records = Dict.put r new s.active_records;
      states = Dict.put r terminal s.states;
    } in
    (
      s',
      rw h refl,
      record {
        state_here = ground (arith, get-put r r terminal s.states, eq_refl r);
        record_here = ground (arith, get-put r r new s.active_records, eq_refl r);
        state_there = λ q other. ground (arith, get-put r q terminal s.states);
        record_there = λ q other. ground (arith, get-put r q new s.active_records);
      },
    )

pub apply-Reads :
    (r : String) (new current : RequestRecord) (s : Store)
    → get_record r s ≡ some current
    → (s' : Store) × (apply r new s ≡ some s') × Reads r (state_of r s) new s s'
unfolding apply state_of get_record
apply-Reads r new current s h = elim (Option-cases (Dict.get r s.active_records)) [
  | inr (old, found) ↦
      let s' : Store = record s { active_records = Dict.put r new s.active_records } in
      (
        s',
        rw found refl,
        record {
          state_here = refl;
          record_here = ground (arith, get-put r r new s.active_records, eq_refl r);
          state_there = λ q other. refl;
          record_there = λ q other. ground (arith, get-put r q new s.active_records);
        },
      )
  | inl gone ↦
      let s' : Store = record s { retained_records = Dict.put r new s.retained_records } in
      let kept : Dict.get r s.retained_records ≡ some current = ground arith in
      (
        s',
        rw (gone, kept) refl,
        record {
          state_here = refl;
          record_here = ground (arith, get-put r r new s.retained_records, eq_refl r);
          state_there = λ q other. refl;
          record_there = λ q other. ground (arith, get-put r q new s.retained_records);
        },
      )
]
