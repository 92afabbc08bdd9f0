-- ===== src/Session/Migration/Commits.antt =====
-- What a commit leaves in the journal, whatever happens to its write.
use c0_pqlink_complete.Prelude.{
  ℕ, ◌+◌, ◌-◌, ◌^◌, ◌<◌, ◌≤◌, ◌≡◌, ◌≢◌, ◌⊎◌, inl, inr, refl, ap, subst, sym, ◌∙◌, Bytes, Bool, true,
  Option, none, some, arith, bit_xor, length, ltb, Bool-cases, ◌||◌, not, ◌==◌, ◌++◌,
}
use c0_pqlink_complete.Prelude.Arrays.{IsBytes, IsBytes-append}
use c0_pqlink_complete.Common.{ok, err, Error, err_argument, err_state, err_ok, ct_equal}
use c0_pqlink_complete.Common.Secrets.{ct_equal_iff}
use c0_pqlink_complete.Wire.RoundTrip.{store32-IsBytes, store64-IsBytes}
use c0_pqlink_complete.Wire.{store32_be, store64_be}
use c0_pqlink_complete.Session.Crypto.Tags.{auth_tag-IsBytes}
use c0_pqlink_complete.Session.Migration.{
  MigrationValue, Storage, ReadResult, read_ok, read_empty, read_failed, candidate, record_core,
  encode_record, is_verified, migration_load, write_verified, commit_loaded, migration_commit,
  transition_allowed, is_storable, journal_label, choose_candidate, is_storable,
}
use c0_pqlink_complete.Session.Migration.Records.{
  IsMigration, decode-encode_record, length-encode_record,
}
use c0_pqlink_complete.Session.Migration.Loading.{
  IsChoice, AnyValid, migration_load-IsChoice, migration_load-total,
}

-- Documented behaviour of the storage callbacks: a write, torn or not, touches its own slot only,
-- and a successful read fills all 52 bytes.
pub record IsTwoSlot (storage : Storage) : Type 0 where
  pub keeps :
      (store : storage.Store) (slot other : ℕ) (raw : Bytes)
      → other ≢ slot
      → storage.read (storage.write store slot raw).0 other ≡ storage.read store other
  pub fills :
      (store : storage.Store) (slot : ℕ) (raw : Bytes)
      → storage.read store slot ≡ read_ok raw
      → (length raw ≡ 52) × IsBytes raw

pub encode_record-IsBytes :
    (value : MigrationValue) (key : Bytes)
    → IsMigration value
    → IsBytes value.key_id
    → IsBytes (encode_record value key)
unfolding encode_record record_core
encode_record-IsBytes value key v k =
    IsBytes-append (record_core value) _
      (
        omega arith,
        (
          omega arith,
          (
            omega arith,
            (
              omega arith,
              (
                omega arith,
                (omega arith, (omega (arith, v.active_key_slot), (omega arith, fields))),
              ),
            ),
          ),
        ),
      )
      (auth_tag-IsBytes key journal_label (record_core value))
  where
    fields : IsBytes (store32_be value.generation ++ (store64_be value.epoch ++ value.key_id))
    fields =
        IsBytes-append (store32_be value.generation) _ (store32-IsBytes value.generation)
          (IsBytes-append (store64_be value.epoch) value.key_id (store64-IsBytes value.epoch) k)

-- A slot that passes the read-back test holds the value that was written.
verified-candidate :
    (value : MigrationValue) (key : Bytes) (result : ReadResult)
    → IsMigration value
    → IsBytes value.key_id
    → ((raw : Bytes) → result ≡ read_ok raw → (length raw ≡ 52) × IsBytes raw)
    → is_verified (encode_record value key) result key ≡ true
    → candidate result key ≡ some value
unfolding candidate is_verified
verified-candidate value key (read_ok raw) v k fills h =
    let (size, bytes) = fills raw refl in
    let same : ct_equal (encode_record value key) raw ≡ true = ground arith in
    let written =
      (ct_equal_iff (encode_record value key) raw (length-encode_record value key v ∙ sym size)
          (encode_record-IsBytes value key v k) bytes).0
        same in
    rw (← written) (rw (decode-encode_record value key v, candidate))
verified-candidate value key read_empty v k fills h = cc
verified-candidate value key read_failed v k fills h = cc

-- The two sides of a choice.
choice-slot :
    (first second : Option MigrationValue) (value : MigrationValue) (slot : ℕ)
    → IsChoice first second value slot
    → ((slot ≡ 0) × (first ≡ some value)) ⊎ ((slot ≡ 1) × (second ≡ some value))
choice-slot none none value slot h = absurd h
choice-slot none (some second) value slot h = ground arith
choice-slot (some first) none value slot h = ground arith
choice-slot (some first) (some second) value slot h = ground arith

choose_second :
    (first second : MigrationValue) (failed : Bool)
    → first.generation < second.generation
    → choose_candidate (some first) (some second) failed ≡ ok (second, 1)
unfolding choose_candidate
choose_second first second failed h = ground arith

choose_first :
    (first second : MigrationValue) (failed : Bool)
    → second.generation ≤ first.generation
    → choose_candidate (some first) (some second) failed ≡ ok (first, 0)
unfolding choose_candidate
choose_first first second failed h = ground arith

-- A choice does not fall below a candidate.
choice-newest :
    (first second : Option MigrationValue) (value : MigrationValue) (slot : ℕ)
    (old : MigrationValue)
    → IsChoice first second value slot
    → (first ≡ some old) ⊎ (second ≡ some old)
    → old.generation ≤ value.generation
choice-newest none none value slot old h o = absurd h
choice-newest none (some second) value slot old h o = ground arith
choice-newest (some first) none value slot old h o = ground arith
choice-newest (some first) (some second) value slot old h o = ground arith

any_valid :
    (first second : Option MigrationValue) (old : MigrationValue)
    → (first ≡ some old) ⊎ (second ≡ some old)
    → AnyValid first second
any_valid none none old o = ground arith
any_valid none (some second) old o = tt
any_valid (some first) second old o = tt

module _ (storage : Storage) (two : IsTwoSlot storage) where
  open storage use {Store, read, write}

  loaded :
      (store : Store) (key : Bytes) (current : MigrationValue) (slot : ℕ)
      → migration_load storage store key ≡ ok (current, slot)
      → ((slot ≡ 0) × (candidate (read store 0) key ≡ some current))
        ⊎ ((slot ≡ 1) × (candidate (read store 1) key ≡ some current))
  loaded store key current slot e =
      choice-slot _ _ current slot (migration_load-IsChoice storage store key current slot e)

  -- Whatever a write to the other slot leaves there, the journal still loads, at the same
  -- generation or a later one.
  torn-load :
      (store : Store) (key raw : Bytes) (current : MigrationValue) (slot : ℕ)
      → migration_load storage store key ≡ ok (current, slot)
      → (value : MigrationValue) × (found : ℕ) × (migration_load storage
            (write store (bit_xor slot 1) raw).0
            key
          ≡ ok (value, found))
        × (current.generation ≤ value.generation)
  torn-load store key raw current slot e =
      let store' = (write store (bit_xor slot 1) raw).0 in
      let first = candidate (read store' 0) key in
      let second = candidate (read store' 1) key in
      let kept : (first ≡ some current) ⊎ (second ≡ some current) =
        survives (loaded store key current slot e) in
      let (value, found, l) =
        migration_load-total storage store' key (any_valid first second current kept) in
      (
        value,
        found,
        l,
        choice-newest first second value found current
            (migration_load-IsChoice storage store' key value found l) kept,
      )
    where
      survives :
          ((slot ≡ 0) × (candidate (read store 0) key ≡ some current))
            ⊎ ((slot ≡ 1) × (candidate (read store 1) key ≡ some current))
          → (candidate (read (write store (bit_xor slot 1) raw).0 0) key ≡ some current)
            ⊎ (candidate (read (write store (bit_xor slot 1) raw).0 1) key ≡ some current)
      survives (inl (s, h)) = inl (rw (s, two.keeps store 1 0 raw (omega arith)) h)
      survives (inr (s, h)) = inr (rw (s, two.keeps store 0 1 raw (omega arith)) h)

  -- A verified write leaves its value in the slot.
  written-candidate :
      (store : Store) (key : Bytes) (value : MigrationValue) (target : ℕ)
      → IsMigration value
      → IsBytes value.key_id
      → (write_verified storage store target (encode_record value key) key).1 ≡ ok tt
      → candidate (read (write store target (encode_record value key)).0 target) key ≡ some value
  unfolding write_verified
  written-candidate store key value target v k e =
      let store' = (write store target (encode_record value key)).0 in
      let verified : is_verified (encode_record value key) (read store' target) key ≡ true =
        ground arith in
      verified-candidate value key (read store' target) v k (two.fills store' target) verified

  -- The journal with a newer record in the slot that was not current loads that record.
  newer-load :
      (store : Store) (key raw : Bytes) (current value : MigrationValue) (slot : ℕ)
      → migration_load storage store key ≡ ok (current, slot)
      → current.generation < value.generation
      → candidate (read (write store (bit_xor slot 1) raw).0 (bit_xor slot 1)) key ≡ some value
      → migration_load storage (write store (bit_xor slot 1) raw).0 key ≡ ok (value, bit_xor slot 1)
  unfolding migration_load
  newer-load store key raw current value slot e newer h = elim (loaded store key current slot e) [
    | inl (s, old) ↦
        let target : bit_xor slot 1 ≡ 1 = rw s in
        let new : candidate (read (write store 1 raw).0 1) key ≡ some value =
          subst (λ t. candidate (read (write store t raw).0 t) key ≡ some value) target h in
        rw (target, two.keeps store 1 0 raw (omega arith), old, new)
          (choose_second current value _ newer)
    | inr (s, old) ↦
        let target : bit_xor slot 1 ≡ 0 = rw s in
        let new : candidate (read (write store 0 raw).0 0) key ≡ some value =
          subst (λ t. candidate (read (write store t raw).0 t) key ≡ some value) target h in
        rw (target, two.keeps store 0 1 raw (omega arith), old, new)
          (choose_first value current _ (omega (arith, newer)))
  ]

  -- A commit either refuses and leaves the storage alone, or writes to the other slot.
  commit-outcome :
      (store : Store) (key : Bytes) (current next : MigrationValue) (slot : ℕ)
      → migration_load storage store key ≡ ok (current, slot)
      → ((refusal : Error) × (migration_commit storage store next key ≡ (store, err refusal)))
        ⊎ (migration_commit storage store next key
            ≡ write_verified storage store
                (bit_xor slot 1)
                (encode_record (record next { generation = current.generation + 1 }) key)
                key)
  unfolding migration_commit commit_loaded
  commit-outcome store key current next slot e = elim (Bool-cases (is_storable next)) [
    | inr bad ↦ inl (err_argument, rw bad)
    | inl good ↦
        elim (Bool-cases (
          not (transition_allowed current.state next.state)
          || (ltb next.epoch current.epoch || current.generation == 2 ^ 32 - 1))) [
            | inl stale ↦ inl (err_state, rw (good, e, stale))
            | inr fresh ↦ inr (rw (good, e, fresh))
          ]
  ]

  -- Where the value to store fits its C types: after a commit that reports success, the journal loads
  -- the new value, with the generation after the current one, from the other slot.
  pub commit-load :
      (store : Store) (key : Bytes) (current next : MigrationValue) (slot : ℕ)
      → migration_load storage store key ≡ ok (current, slot)
      → IsMigration (record next { generation = current.generation + 1 })
      → IsBytes next.key_id
      → (migration_commit storage store next key).1 ≡ ok tt
      → migration_load storage (migration_commit storage store next key).0 key
        ≡ ok (record next { generation = current.generation + 1 }, bit_xor slot 1)
  commit-load store key current next slot e v k done =
      elim (commit-outcome store key current next slot e) [
        | inl (refusal, refused) ↦ absurd (err_ok refusal (sym (ap (λ r. r.1) refused) ∙ done))
        | inr wrote ↦
            let value = record next { generation = current.generation + 1 } in
            let stored = sym (ap (λ r. r.1) wrote) ∙ done in
            let there = written-candidate store key value (bit_xor slot 1) v k stored in
            unfold write_verified in
            rw wrote (
              newer-load store key (encode_record value key) current value slot e (omega arith)
                there)
      ]

  -- Whatever a commit reports, and whatever a failed write left in the slot it went to, the journal
  -- still loads afterwards, and its generation has not fallen.
  pub commit-keeps :
      (store : Store) (key : Bytes) (current next : MigrationValue) (slot : ℕ)
      → migration_load storage store key ≡ ok (current, slot)
      → (value : MigrationValue) × (found : ℕ) × (migration_load storage
            (migration_commit storage store next key).0
            key
          ≡ ok (value, found))
        × (current.generation ≤ value.generation)
  commit-keeps store key current next slot e = elim (commit-outcome store key current next slot e) [
    | inl (refusal, refused) ↦ (current, slot, rw refused e, omega arith)
    | inr wrote ↦
        let raw = encode_record (record next { generation = current.generation + 1 }) key in
        let (value, found, l, newer) = torn-load store key raw current slot e in
        unfold write_verified in (value, found, rw wrote l, newer)
  ]

  -- A commit of a storable value that would lower the state or the epoch, or that would need the
  -- generation 2 ^ 32, writes nothing and returns C0PQLINK_ERR_STATE.
  pub commit-refuses :
      (store : Store) (key : Bytes) (current next : MigrationValue) (slot : ℕ)
      → migration_load storage store key ≡ ok (current, slot)
      → is_storable next ≡ true
      → (next.state < current.state)
        ⊎ ((next.epoch < current.epoch) ⊎ (current.generation ≡ 2 ^ 32 - 1))
      → migration_commit storage store next key ≡ (store, err err_state)
  unfolding migration_commit commit_loaded transition_allowed
  commit-refuses store key current next slot e good why = rw (good, e) (ground arith)
