-- ===== src/Prt/Evidence/Slices.antt =====
-- src/prt/evidence.py: the slices of the journal.
use absolute_zero.Prelude.{
  ℕ, zero, suc, ◌+◌, ◌≤◌, ◌<◌, String, ◌≡◌, refl, sym, ap, ◌∙◌, List, [], ◌∷◌, ◌++◌, length,
  append-nil, append_assoc, arith,
}
use absolute_zero.Prt.Evidence.{Observation, Entry, EvidenceJournal, append, upto}

abbrev pub take {ℓ} : {A : Type ℓ} → ℕ → List A → List A
take zero xs = []
take (suc n) [] = []
take (suc n) (x ∷ xs) = x ∷ take n xs

module _ {P : Type 0} where
  -- The entries have the numbers from `k` on.
  abbrev Numbered : ℕ → List (Entry P) → Type 0
  Numbered k [] = Unit
  Numbered k (e ∷ es) = (e.seq ≡ k) × Numbered (suc k) es

  append-Numbered :
      (p : String) (o : Observation P) (k n : ℕ) (es : List (Entry P))
      → n ≡ k + length es
      → Numbered k es
      → Numbered k (es ++ record { provider_id = p; seq = n; said = o } ∷ [])
  append-Numbered p o k n [] at h = (omega (arith, at), tt)
  append-Numbered p o k n (e ∷ es) at h =
      (h.0, append-Numbered p o (suc k) n es (omega (arith, at)) h.1)

  -- Entries that are appended one after the other.
  unfoldable pub append_all : List (String × Observation P) → EvidenceJournal P → EvidenceJournal P
  unfolding append
  append_all [] j = j
  append_all ((p, o) ∷ more) j = append_all more (append p o j).1

  append_all-Numbered :
      (calls : List (String × Observation P)) (j : EvidenceJournal P)
      → Numbered 0 j
      → Numbered 0 (append_all calls j)
  unfolding append_all
  append_all-Numbered [] j h = h
  append_all-Numbered ((p, o) ∷ more) j h =
      append_all-Numbered more (append p o j).1 (append-Numbered p o 0 (length j) j (omega arith) h)

  append_all-extends :
      (calls : List (String × Observation P)) (j : EvidenceJournal P)
      → (new : EvidenceJournal P) × (append_all calls j ≡ j ++ new)
  unfolding append_all
  append_all-extends [] j = ([], sym (append-nil j))
  append_all-extends ((p, o) ∷ more) j =
      let (new, same) = append_all-extends more (append p o j).1 in
      let e : Entry P = record { provider_id = p; seq = length j; said = o } in
      (e ∷ new, same ∙ append_assoc j (e ∷ []) new)

  upto-later : (k n : ℕ) (es : List (Entry P)) → n < k → Numbered k es → upto n es ≡ []
  unfolding upto
  upto-later k n [] late h = refl
  upto-later k n (e ∷ es) late h =
      ground (arith, h.0, upto-later (suc k) n es (omega (arith, late)) h.1)

  upto-take :
      (m k n : ℕ) (es : List (Entry P)) → m + k ≡ suc n → Numbered k es → upto n es ≡ take m es
  unfolding upto
  upto-take zero k n es at h = upto-later k n es (omega arith) h
  upto-take (suc m) k n [] at h = refl
  upto-take (suc m) k n (e ∷ es) at h =
      let rest = upto-take m (suc k) n es (omega (arith, at)) h.1 in ground (arith, rest, h.0)

  take-append : (n : ℕ) (xs ys : List (Entry P)) → n ≤ length xs → take n (xs ++ ys) ≡ take n xs
  take-append zero xs ys few = refl
  take-append (suc n) [] ys few = absurd (omega arith)
  take-append (suc n) (x ∷ xs) ys few = ap (λ zs. x ∷ zs) (take-append n xs ys (omega arith))

  -- A slice of the journal up to an entry that it has is the entries up to that one in their order
  -- of appending, and whatever is appended later, the slice stays the same.
  pub upto-final :
      (calls more : List (String × Observation P)) (n : ℕ)
      → n < length (append_all calls [])
      → upto n (append_all more (append_all calls [])) ≡ take (suc n) (append_all calls [])
  upto-final calls more n here =
      let past = append_all calls [] in
      let (new, same) = append_all-extends more past in
      upto-take (suc n) 0 n (append_all more past) (omega arith)
        (append_all-Numbered more past (append_all-Numbered calls [] tt))
      ∙ ap (take (suc n)) same
      ∙ take-append (suc n) past new (omega (arith, here))
