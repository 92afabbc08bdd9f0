-- ===== src/Session/Migration.antt =====
-- src/session/migration.c: the authenticated A/B journal of the fleet migration.
pub mod Records
pub mod Loading
pub mod Commits
mod Tests
use c0_pqlink_complete.Prelude.{
  ℕ, ◌+◌, ◌-◌, ◌^◌, Bytes, [], ◌∷◌, ◌++◌, Bool, true, false, not, ◌&&◌, ◌||◌, Option, none, some,
  bit_xor, u8, ltb, ◌==◌, if◌then◌else◌, take, drop, codes,
}
use c0_pqlink_complete.Prelude.Arrays.{byte_at, slice}
use c0_pqlink_complete.Common.{
  Result, ok, err, err_argument, err_state, err_io, ◌>>=◌, ◌>>◌, require, ct_equal, is_ok,
}
use c0_pqlink_complete.Wire.{store32_be, store64_be, load32_be, load64_be}
use c0_pqlink_complete.Session.Crypto.{auth_tag, verify_auth_tag}

-- `c0pq_migration_state` as a number: 0 legacy, 1 PSK plus PQ, 2 PQ required.
pub record MigrationValue : Type 0 where
  pub generation : ℕ
  pub state : ℕ
  pub active_key_slot : ℕ
  pub epoch : ℕ
  pub key_id : Bytes

abbrev pub journal_label : Bytes
journal_label = codes "C0PQ/1 migration journal"

pub record_core : MigrationValue → Bytes
record_core value =
    (0x43 ∷ 0x30 ∷ 0x4d ∷ 0x4a ∷ 1 ∷ u8 value.state ∷ value.active_key_slot ∷ 0 ∷ [])
    ++ (store32_be value.generation ++ (store64_be value.epoch ++ value.key_id))

pub encode_record : MigrationValue → Bytes → Bytes
encode_record value journal_key =
    record_core value ++ auth_tag journal_key journal_label (record_core value)

-- Magic, version, state, slot and the reserved byte.
abbrev pub is_record_start : Bytes → Bool
is_record_start input =
    byte_at input 0 == 0x43
    && (byte_at input 1 == 0x30
        && (byte_at input 2 == 0x4d
            && (byte_at input 3 == 0x4a
                && (byte_at input 4 == 1
                    && (not (ltb 2 (byte_at input 5))
                        && (not (ltb 1 (byte_at input 6)) && byte_at input 7 == 0))))))

pub parse_record : Bytes → MigrationValue
parse_record input = record {
  generation = load32_be (drop 8 input);
  state = byte_at input 5;
  active_key_slot = byte_at input 6;
  epoch = load64_be (drop 12 input);
  key_id = slice 20 16 input;
}

pub decode_record : Bytes → Bytes → Result MigrationValue
decode_record input journal_key = do
  require (is_record_start input) err_state
  verify_auth_tag (slice 36 16 input) journal_key journal_label (take 36 input)
  require (not ((parse_record input).generation == 0)) err_state
  ok (parse_record input)

-- What `read_record` reports: C0PQ_JOURNAL_READ_OK with the 52 bytes, C0PQ_JOURNAL_READ_EMPTY, or
-- a negative value.
pub data ReadResult : Type 0 where
  read_ok : Bytes → ReadResult
  read_empty read_failed : ReadResult

-- The storage callbacks, over the contents of the device's storage. `write` reports success; a
-- write that fails may leave anything in its slot.
pub record Storage : Type 1 where
  pub Store : Type 0
  pub read : Store → ℕ → ReadResult
  pub write : Store → ℕ → Bytes → Store × Bool

-- A slot's candidate in `c0pq_migration_load`.
pub candidate : ReadResult → Bytes → Option MigrationValue
candidate (read_ok raw) journal_key = elim (decode_record raw journal_key) [
  | ok value ↦ some value
  | err e ↦ none
]
candidate read_empty journal_key = none
candidate read_failed journal_key = none

abbrev pub is_failed : ReadResult → Bool
is_failed read_failed = true
is_failed _ = false

-- The choice between the two candidates, with the slot that it stands in.
pub choose_candidate :
    Option MigrationValue → Option MigrationValue → Bool → Result (MigrationValue × ℕ)
choose_candidate none none io_failure = err (if io_failure then err_io else err_state)
choose_candidate none (some second) io_failure = ok (second, 1)
choose_candidate (some first) none io_failure = ok (first, 0)
choose_candidate (some first) (some second) io_failure =
    if ltb first.generation second.generation then ok (second, 1) else ok (first, 0)

pub transition_allowed : ℕ → ℕ → Bool
transition_allowed current next =
    if ltb 2 current || ltb 2 next then false else not (ltb next current)

-- The argument test of `c0pq_migration_initialize` and `c0pq_migration_commit`.
abbrev pub is_storable : MigrationValue → Bool
is_storable value = not (ltb 1 value.active_key_slot || ltb 2 value.state)

-- The read-back test after a write.
pub is_verified : Bytes → ReadResult → Bytes → Bool
is_verified raw (read_ok verify_raw) journal_key =
    ct_equal raw verify_raw && is_ok (decode_record verify_raw journal_key)
is_verified raw read_empty journal_key = false
is_verified raw read_failed journal_key = false

module _ (storage : Storage) where
  open storage use {Store, read, write}

  pub migration_load : Store → Bytes → Result (MigrationValue × ℕ)
  migration_load store journal_key =
      choose_candidate (candidate (read store 0) journal_key) (candidate (read store 1) journal_key)
        (is_failed (read store 0) || is_failed (read store 1))

  -- Write a record and read it back.
  pub write_verified : Store → ℕ → Bytes → Bytes → Store × Result (Unit {0})
  write_verified store slot raw journal_key =
      let (store', stored) = write store slot raw in
      (
        store',
        if stored && is_verified raw (read store' slot) journal_key then ok tt else err err_io,
      )

  pub initialize_slots :
      ReadResult → ReadResult → Store → MigrationValue → Bytes → Store × Result (Unit {0})
  initialize_slots read_empty read_empty store initial_value journal_key =
      write_verified store 0 (encode_record (record initial_value { generation = 1 }) journal_key)
        journal_key
  initialize_slots (read_ok raw) second store initial_value journal_key = (store, err err_state)
  initialize_slots first (read_ok raw) store initial_value journal_key = (store, err err_state)
  initialize_slots first second store initial_value journal_key = (store, err err_io)

  -- The storage after the call, and its status.
  pub migration_initialize : Store → MigrationValue → Bytes → Store × Result (Unit {0})
  migration_initialize store initial_value journal_key =
      if is_storable initial_value
      then initialize_slots (read store 0) (read store 1) store initial_value journal_key
      else (store, err err_argument)

  pub commit_loaded :
      Result (MigrationValue × ℕ) → Store → MigrationValue → Bytes → Store × Result (Unit {0})
  commit_loaded (err e) store next_value journal_key = (store, err e)
  commit_loaded (ok (current, slot)) store next_value journal_key =
      if not (transition_allowed current.state next_value.state)
        || (ltb next_value.epoch current.epoch || current.generation == 2 ^ 32 - 1)
      then (store, err err_state)
      else write_verified store (bit_xor slot 1)
          (encode_record (record next_value { generation = current.generation + 1 }) journal_key)
          journal_key

  pub migration_commit : Store → MigrationValue → Bytes → Store × Result (Unit {0})
  migration_commit store next_value journal_key =
      if is_storable next_value
      then commit_loaded (migration_load store journal_key) store next_value journal_key
      else (store, err err_argument)
