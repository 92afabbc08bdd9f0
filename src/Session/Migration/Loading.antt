-- ===== src/Session/Migration/Loading.antt =====
-- Which of the two slots `c0pq_migration_load` takes, and which states may follow which.
use c0_pqlink_complete.Prelude.{
  ℕ, ◌≤◌, ◌≡◌, ◌↔◌, ◌⊎◌, Bytes, Option, none, some, arith, true, Bool, refl, inl, inr, Bool-cases,
  ltb,
}
use c0_pqlink_complete.Common.{ok}
use c0_pqlink_complete.Session.Migration.{
  MigrationValue, Storage, candidate, choose_candidate, migration_load, transition_allowed,
}

-- `value` is the choice among two candidates: it is one of them, in the slot that is named, and no
-- candidate has a larger generation.
abbrev pub IsChoice : Option MigrationValue → Option MigrationValue → MigrationValue → ℕ → Type 0
IsChoice none none value slot = ⊥
IsChoice none (some second) value slot = (value ≡ second) × (slot ≡ 1)
IsChoice (some first) none value slot = (value ≡ first) × (slot ≡ 0)
IsChoice (some first) (some second) value slot =
    (first.generation ≤ value.generation)
    × (second.generation ≤ value.generation)
    × ((value ≡ first) × (slot ≡ 0) ⊎ (value ≡ second) × (slot ≡ 1))

-- A slot that holds an authentic record has a candidate.
abbrev pub AnyValid : Option MigrationValue → Option MigrationValue → Type 0
AnyValid none none = ⊥
AnyValid _ _ = Unit {0}

choose-IsChoice :
    (first second : Option MigrationValue) (failed : Bool) (value : MigrationValue) (slot : ℕ)
    → choose_candidate first second failed ≡ ok (value, slot)
    → IsChoice first second value slot
unfolding choose_candidate
choose-IsChoice none none failed value slot e = ground arith
choose-IsChoice none (some second) failed value slot e = ground arith
choose-IsChoice (some first) none failed value slot e = ground arith
choose-IsChoice (some first) (some second) failed value slot e = ground arith

choose_some :
    (first second : Option MigrationValue) (failed : Bool)
    → AnyValid first second
    → (value : MigrationValue) × (slot : ℕ) × (choose_candidate first second failed
        ≡ ok (value, slot))
unfolding choose_candidate
choose_some none none failed h = absurd h
choose_some none (some second) failed h = (second, 1, refl)
choose_some (some first) none failed h = (first, 0, refl)
choose_some (some first) (some second) failed h =
    elim (Bool-cases (ltb first.generation second.generation)) [
      | inl newer ↦ (second, 1, rw newer)
      | inr older ↦ (first, 0, rw older)
    ]

module _ (storage : Storage) where
  open storage use {Store, read}

  -- What `c0pq_migration_load` returns is the authentic record of the slot that it names, and no
  -- authentic record of the journal has a larger generation.
  pub migration_load-IsChoice :
      (store : Store) (journal_key : Bytes) (value : MigrationValue) (slot : ℕ)
      → migration_load storage store journal_key ≡ ok (value, slot)
      → IsChoice
          (candidate (read store 0) journal_key)
          (candidate (read store 1) journal_key)
          value
          slot
  unfolding migration_load
  migration_load-IsChoice store journal_key value slot e = choose-IsChoice _ _ _ value slot e

  -- `c0pq_migration_load` succeeds as soon as one slot holds an authentic record, whatever the other one holds.
  pub migration_load-total :
      (store : Store) (journal_key : Bytes)
      → AnyValid (candidate (read store 0) journal_key) (candidate (read store 1) journal_key)
      → (value : MigrationValue) × (slot : ℕ) × (migration_load storage store journal_key
          ≡ ok (value, slot))
  unfolding migration_load
  migration_load-total store journal_key h = choose_some _ _ _ h

-- A transition is allowed exactly between two known states, and never to an earlier one.
pub transition_allowed_iff :
    (current next : ℕ) → (transition_allowed current next ≡ true) ↔ ((current ≤ next) × (next ≤ 2))
unfolding transition_allowed
transition_allowed_iff current next = ground arith
