-- ===== src/Prt/Evidence.antt =====
-- src/prt/evidence.py: the journal of evidence.
pub mod Slices
use absolute_zero.Prelude.{
  ℕ, zero, suc, String, Bool, true, false, ◌||◌, Option, none, some, List, [], ◌∷◌, ◌++◌, leb,
  length, str_eq, if◌then◌else◌,
}
use absolute_zero.Value.{Value}

-- `exec.completed`, `exec.failed`, `exec.timeout`
pub data LiveKind : Type 0 where
  completed : LiveKind
  failed : LiveKind
  timeout : LiveKind

pub data AdminKind : Type 0 where
  force_quarantine : AdminKind
  force_release : AdminKind
  disable : AdminKind
  enable : AdminKind

abbrev pub live_kind : String → Option LiveKind
live_kind kind =
    if str_eq kind "exec.completed"
    then some completed
    else if str_eq kind "exec.failed"
    then some failed
    else if str_eq kind "exec.timeout"
    then some timeout
    else none

abbrev pub admin_kind : String → Option AdminKind
admin_kind kind =
    if str_eq kind "force_quarantine"
    then some force_quarantine
    else if str_eq kind "force_release"
    then some force_release
    else if str_eq kind "disable"
    then some disable
    else if str_eq kind "enable"
    then some enable
    else none

-- What an entry says, with priors of any type.
pub data Observation (P : Type 0) : Type 0 where
  live : LiveKind → Option Value → Observation P
  admin : AdminKind → String → String → Observation P
  priors : P → ℕ → Observation P

pub record Entry (P : Type 0) : Type 0 where
  pub provider_id : String
  pub seq : ℕ
  pub said : Observation P

abbrev pub EvidenceJournal : Type 0 → Type 0
EvidenceJournal P = List (Entry P)

module _ {P : Type 0} where
  -- `_append`, with the number of the entry
  unfoldable pub append : String → Observation P → EvidenceJournal P → ℕ × EvidenceJournal P
  append p o j = (length j, j ++ record { provider_id = p; seq = length j; said = o } ∷ [])

  abbrev on_kind :
      {K : Type 0}
      → Option K
      → (K → Observation P)
      → String
      → EvidenceJournal P
      → Option (ℕ × EvidenceJournal P)
  on_kind none f p j = none
  on_kind (some k) f p j = some (append p (f k) j)

  -- `none` is an exception.
  unfoldable pub append_live :
      String → String → Option Value → EvidenceJournal P → Option (ℕ × EvidenceJournal P)
  append_live p kind detail j = on_kind (live_kind kind) (λ k. live k detail) p j

  unfoldable pub append_admin :
      String → String → String → String → EvidenceJournal P → Option (ℕ × EvidenceJournal P)
  append_admin p kind actor reason j =
      let refused = str_eq actor "" || str_eq reason "" in
      if refused then none else on_kind (admin_kind kind) (λ k. admin k actor reason) p j

  unfoldable pub append_priors : String → P → ℕ → EvidenceJournal P → ℕ × EvidenceJournal P
  unfolding append
  append_priors p prior version j = append p (priors prior version) j

  unfoldable pub entries_for : String → EvidenceJournal P → EvidenceJournal P
  entries_for p [] = []
  entries_for p (e ∷ es) =
      let rest = entries_for p es in if str_eq e.provider_id p then e ∷ rest else rest

  unfoldable pub upto : ℕ → EvidenceJournal P → EvidenceJournal P
  upto n [] = []
  upto n (e ∷ es) = let rest = upto n es in if leb e.seq n then e ∷ rest else rest
