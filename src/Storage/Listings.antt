-- ===== src/Storage/Listings.antt =====
-- What the listings of storage/zova.py return.
use zonegate_backend.Prelude.{
  Table, Bool, List, String, ℕ, All, ◌∷◌, length, ◌≡◌, suc, inr, [], Option-cases, ◌≤◌, some, true,
  inl, arith, ◌⊎◌, zero, Bool-cases, Option, ok, refl,
}
use zonegate_backend.Storage.{collect, list_decisions, outcome_passes}
use zonegate_backend.Domain.{DecisionOutcome, PolicyDecision}
use zonegate_backend.Runtime.{World}
use zonegate_backend.Runtime.Triples.{Triple-reading}

module _ {A : Type 0} (table : Table A) (passes : A → Bool) where
  collect-length : (room : ℕ) (ids : List String) → length (collect room table passes ids) ≤ room
  unfolding collect
  collect-length room [] = omega arith
  collect-length zero (x ∷ ids) = omega arith
  collect-length (suc room) (x ∷ ids) =
      ground (arith, collect-length room ids, collect-length (suc room) ids)

  -- A listed record passes the filter and is on record under a listed id.
  abbrev pub IsListed : List String → A → Type 0
  IsListed [] a = ⊥
  IsListed (x ∷ ids) a = ((table x ≡ some a) × (passes a ≡ true)) ⊎ IsListed ids a

  weaken-IsListed :
      (x : String) (ids : List String) (found : List A)
      → All (IsListed ids) found
      → All (IsListed (x ∷ ids)) found
  weaken-IsListed x ids [] h = tt
  weaken-IsListed x ids (a ∷ found) (h, rest) = (inr h, weaken-IsListed x ids found rest)

  collect-IsListed :
      (room : ℕ) (ids : List String) → All (IsListed ids) (collect room table passes ids)
  unfolding collect
  collect-IsListed room [] = tt
  collect-IsListed zero (x ∷ ids) = tt
  collect-IsListed (suc room) (x ∷ ids) = elim (Option-cases (table x)) [
    | inl missing ↦
        rw (collect, missing) (weaken-IsListed x ids _ (collect-IsListed (suc room) ids))
    | inr (a, e) ↦ elim (Bool-cases (passes a)) [
      | inl kept ↦
          rw (collect, e, kept) (inl (e, kept), weaken-IsListed x ids _ (collect-IsListed room ids))
      | inr dropped ↦
          rw (collect, e, dropped) (weaken-IsListed x ids _ (collect-IsListed (suc room) ids))
    ]
  ]

-- If `list_decisions` returns, it returns at most `limit` decisions, each of them on record under an
-- id of the index and, where an outcome is asked for, with that outcome; the tables stay as they were.
pub list_decisions_result :
    (outcome : Option DecisionOutcome) (limit : ℕ) (w : World) (found : List PolicyDecision)
    → (list_decisions outcome limit w).0 ≡ ok found
    → (length found ≤ limit)
      × All (IsListed w.tables.decisions (outcome_passes outcome) w.tables.decision_ids) found
      × ((list_decisions outcome limit w).1.tables ≡ w.tables)
unfolding list_decisions
list_decisions_result outcome limit w found h =
    (Triple-reading {P = λ t. t ≡ w.tables}
        {Q = λ found t.
          (length found ≤ limit)
          × All (IsListed w.tables.decisions (outcome_passes outcome) w.tables.decision_ids) found
          × (t ≡ w.tables)}
        _
        (λ t same. rw same (
          collect-length w.tables.decisions (outcome_passes outcome) limit w.tables.decision_ids,
          collect-IsListed w.tables.decisions (outcome_passes outcome) limit w.tables.decision_ids,
          refl,
        ))).at
      w refl found h
