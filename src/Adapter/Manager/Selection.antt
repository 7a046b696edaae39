-- ===== src/Adapter/Manager/Selection.antt =====
-- What `select_eligible` chooses, and that the iteration order of the registry has no part in it.
use native.Mathlib.Nat.{le_antisymm}
use fubun.Prelude.{
  ℕ, ◌≤◌, ◌≡◌, ◌≢◌, refl, ap, sym, ◌∙◌, ◌↔◌, ◌⊎◌, inl, inr, true, List, [], ◌∷◌, map, keep, Result,
  ok, err, Bool-cases,
}
use fubun.Prelude.Map.{Map}
use fubun.Prelude.Sort.{Elem, HeadIsLeast, sort_by_key-HeadIsLeast, All_at}
use fubun.Domain.Base.{Uuid}
use fubun.Adapter.Manager.{
  AdapterConnection, AdapterRequirements, AdapterEligibilityError, Candidate, candidate_of,
  candidates, connection_satisfies, first_candidate, select_from,
}

abbrev Entry : Type 0
Entry = Uuid × AdapterConnection

module _ (text_order : Uuid → ℕ) (requirements : AdapterRequirements) where
  abbrev pub Satisfies : Entry → Type 0
  Satisfies entry = connection_satisfies entry.1 requirements ≡ true

  -- `entry` satisfies the requirements, and no other entry that does comes before it.
  pub record IsFirst (entry : Entry) (connections : Map AdapterConnection) : Type 0 where
    pub connected : Elem entry connections
    pub satisfies : Satisfies entry
    pub first :
        (other : Entry)
        → Elem other connections
        → Satisfies other
        → text_order entry.0 ≤ text_order other.0

  -- What a choice promises.
  abbrev pub Selects : Map AdapterConnection → Result AdapterEligibilityError Candidate → Type 0
  Selects connections (err AdapterEligibilityError.unavailable) = connections ≡ []
  Selects connections (err AdapterEligibilityError.ineligible) =
      (connections ≢ []) × ((entry : Entry) → Elem entry connections → ¬ Satisfies entry)
  Selects connections (ok candidate) =
      (entry : Entry) × (candidate ≡ candidate_of entry) × IsFirst entry connections

  abbrev kept : Map AdapterConnection → Map AdapterConnection
  kept = keep λ entry. connection_satisfies entry.1 requirements

  Elem-kept :
      (entry : Entry) (connections : Map AdapterConnection)
      → Elem entry connections
      → Satisfies entry
      → Elem (candidate_of entry) (map candidate_of (kept connections))
  Elem-kept entry [] e s = absurd e
  Elem-kept entry (other ∷ connections) (inl e) s = rw (rw (← e) at s) (inl (ap candidate_of e))
  Elem-kept entry (other ∷ connections) (inr e) s =
      elim (Bool-cases (connection_satisfies other.1 requirements)) [
        | inl t ↦ rw t (inr (Elem-kept entry connections e s))
        | inr f ↦ rw f (Elem-kept entry connections e s)
      ]

  kept-Elem :
      (candidate : Candidate) (connections : Map AdapterConnection)
      → Elem candidate (map candidate_of (kept connections))
      → (entry : Entry) × (candidate ≡ candidate_of entry)
        × Elem entry connections
        × Satisfies entry
  kept-Elem candidate [] e = absurd e
  kept-Elem candidate (other ∷ connections) e =
      elim (Bool-cases (connection_satisfies other.1 requirements)) [
        | inl t ↦
            let here : (candidate_of other ≡ candidate)
                ⊎ Elem candidate (map candidate_of (kept connections)) =
              rw t at e in
            elim here [
              | inl p ↦ (other, sym p, inl refl, t)
              | inr q ↦
                  let (entry, c, i, s) = kept-Elem candidate connections q in (entry, c, inr i, s)
            ]
        | inr f ↦
            let (entry, c, i, s) = kept-Elem candidate connections (rw f at e) in
            (entry, c, inr i, s)
      ]

  abbrev order_of : Candidate → ℕ
  order_of c = text_order c.0.instance_id

  first_candidate-Selects :
      (sorted : List Candidate) (entry : Entry) (connections : Map AdapterConnection)
      → HeadIsLeast order_of sorted (candidates (entry ∷ connections) requirements)
      → Selects (entry ∷ connections) (first_candidate sorted)
  unfolding candidates
  first_candidate-Selects [] entry connections h =
      (λ p. cc, λ other e s. absurd (rw h at (Elem-kept other (entry ∷ connections) e s)))
  first_candidate-Selects (candidate ∷ rest) entry connections h =
      let (chosen, c, i, s) = kept-Elem candidate (entry ∷ connections) h.0 in
      (
        chosen,
        c,
        record {
          connected = i;
          satisfies = s;
          first = λ other e t.
              let le : order_of candidate ≤ order_of (candidate_of other) =
                All_at (λ x. order_of candidate ≤ order_of x) (candidate_of other) _ h.1
                  (Elem-kept other (entry ∷ connections) e t) in
              rw c at le;
        },
      )

  -- With no connection the adapter is unavailable; with connections none of which satisfies the
  -- requirements it is ineligible; else the choice is a connected adapter that satisfies them, the
  -- first of these in the order of the UUIDs as texts, with the token of its connection.
  pub select_from-Selects :
      (connections : Map AdapterConnection)
      → Selects connections (select_from text_order connections requirements)
  unfolding select_from
  select_from-Selects [] = refl
  select_from-Selects (entry ∷ connections) =
      first_candidate-Selects _ entry connections
        (sort_by_key-HeadIsLeast order_of (candidates (entry ∷ connections) requirements))

-- Two registries with the same entries, as two iteration orders of one `HashMap` are.
pub record SameEntries (xs ys : Map AdapterConnection) : Type 0 where
  pub same : (entry : Entry) → Elem entry xs ↔ Elem entry ys

-- A key has one entry.
pub record HasUniqueKeys (xs : Map AdapterConnection) : Type 0 where
  pub unique : (a b : Entry) → Elem a xs → Elem b xs → a.0 ≡ b.0 → a ≡ b

SameEntries-nil : (xs ys : Map AdapterConnection) → SameEntries xs ys → xs ≡ [] → ys ≡ []
SameEntries-nil xs [] h e = refl
SameEntries-nil xs (y ∷ ys) h e = absurd (rw e at ((h.same y).1 (inl refl)))

module _ (text_order : Uuid → ℕ) (injective : (a b : Uuid) → text_order a ≡ text_order b → a ≡ b)
    (requirements : AdapterRequirements) where
  IsFirst-unique :
      (xs ys : Map AdapterConnection) (a b : Entry)
      → SameEntries xs ys
      → HasUniqueKeys xs
      → IsFirst text_order requirements a xs
      → IsFirst text_order requirements b ys
      → a ≡ b
  IsFirst-unique xs ys a b same keys first_a first_b =
      keys.unique a b first_a.connected ((same.same b).1 first_b.connected) (
        injective a.0 b.0 (
          le_antisymm (first_a.first b ((same.same b).1 first_b.connected) first_b.satisfies)
            (first_b.first a ((same.same a).0 first_a.connected) first_a.satisfies)))

  Selects-unique :
      (xs ys : Map AdapterConnection) (r s : Result AdapterEligibilityError Candidate)
      → SameEntries xs ys
      → HasUniqueKeys xs
      → Selects text_order requirements xs r
      → Selects text_order requirements ys s
      → r ≡ s
  Selects-unique xs ys (ok c) (ok d) same keys h k =
      ap ok (h.1 ∙ ap candidate_of (IsFirst-unique xs ys h.0 k.0 same keys h.2 k.2) ∙ sym k.1)
  Selects-unique xs ys (ok c) (err AdapterEligibilityError.unavailable) same keys h k =
      absurd (rw k at ((same.same h.0).0 h.2.connected))
  Selects-unique xs ys (ok c) (err AdapterEligibilityError.ineligible) same keys h k =
      absurd (k.1 h.0 ((same.same h.0).0 h.2.connected) h.2.satisfies)
  Selects-unique xs ys (err AdapterEligibilityError.unavailable) (ok d) same keys h k =
      absurd (rw h at ((same.same k.0).1 k.2.connected))
  Selects-unique xs ys (err AdapterEligibilityError.ineligible) (ok d) same keys h k =
      absurd (h.1 k.0 ((same.same k.0).1 k.2.connected) k.2.satisfies)
  Selects-unique xs ys (err AdapterEligibilityError.unavailable)
        (err AdapterEligibilityError.unavailable) same keys h k =
      refl
  Selects-unique xs ys (err AdapterEligibilityError.ineligible)
        (err AdapterEligibilityError.ineligible) same keys h k =
      refl
  Selects-unique xs ys (err AdapterEligibilityError.unavailable)
        (err AdapterEligibilityError.ineligible) same keys h k =
      absurd (k.0 (SameEntries-nil xs ys same h))
  Selects-unique xs ys (err AdapterEligibilityError.ineligible)
        (err AdapterEligibilityError.unavailable) same keys h k =
      absurd
        (h.0 (SameEntries-nil ys xs (record { same = λ e. ((same.same e).1, (same.same e).0) }) k))

  -- Where no two UUIDs have the same text, two iteration orders of one registry, in which each key
  -- has one entry, give the same choice or the same error.
  pub select_from_unordered :
      (xs ys : Map AdapterConnection)
      → SameEntries xs ys
      → HasUniqueKeys xs
      → select_from text_order xs requirements ≡ select_from text_order ys requirements
  select_from_unordered xs ys same keys =
      Selects-unique xs ys _ _ same keys (select_from-Selects text_order requirements xs)
        (select_from-Selects text_order requirements ys)
