-- ===== src/Session/Migration/Tests.antt =====
-- The journal on a storage of two cells, over one commit.
use c0_pqlink_complete.Prelude.{
  ℕ, ◌≤◌, ◌≡◌, ◌≢◌, inl, inr, refl, ap, Bytes, [], ◌∷◌, Bool, true, false, ◌&&◌, arith, length,
  replicate, ltb, ◌==◌, if◌then◌else◌, some, zero, suc,
}
use c0_pqlink_complete.Prelude.Arrays.{IsBytes}
use c0_pqlink_complete.Common.{ok, err, err_state}
use c0_pqlink_complete.Common.Secrets.{ct_equal_self}
use c0_pqlink_complete.Session.Migration.{
  MigrationValue, Storage, ReadResult, read_ok, read_empty, read_failed, candidate, encode_record,
  decode_record, is_verified, migration_load, write_verified, commit_loaded, migration_commit,
  transition_allowed, choose_candidate,
}
use c0_pqlink_complete.Session.Migration.Records.{
  IsMigration, decode-encode_record, length-encode_record,
}
use c0_pqlink_complete.Session.Migration.Loading.{
  IsChoice, AnyValid, migration_load-IsChoice, migration_load-total,
}
use c0_pqlink_complete.Session.Migration.Commits.{
  IsTwoSlot, encode_record-IsBytes, commit-load, commit-keeps, commit-refuses,
}

all_bytes : Bytes → Bool
all_bytes [] = true
all_bytes (x ∷ xs) = ltb x 256 && all_bytes xs

all_bytes_sound : (xs : Bytes) → all_bytes xs ≡ true → IsBytes xs
unfolding all_bytes
all_bytes_sound [] h = tt
all_bytes_sound (x ∷ xs) h = (ground arith, all_bytes_sound xs (ground arith))

all_bytes_complete : (xs : Bytes) → IsBytes xs → all_bytes xs ≡ true
unfolding all_bytes
all_bytes_complete [] h = refl
all_bytes_complete (x ∷ xs) h =
    let rest = all_bytes_complete xs h.1 in
    let first : ltb x 256 ≡ true = ground arith in rw (first, rest)

-- A cell reads back only what a journal cell can hold.
abbrev checked : ReadResult → ReadResult
checked (read_ok raw) = if (length raw == 52) && all_bytes raw then read_ok raw else read_failed
checked read_empty = read_empty
checked read_failed = read_failed

abbrev cell : ReadResult × ReadResult → ℕ → ReadResult
cell store zero = store.0
cell store (suc zero) = store.1
cell store (suc (suc n)) = read_failed

abbrev put : ReadResult × ReadResult → ℕ → Bytes → (ReadResult × ReadResult) × Bool
put store zero raw = ((read_ok raw, store.1), true)
put store (suc zero) raw = ((store.0, read_ok raw), true)
put store (suc (suc n)) raw = (store, false)

abbrev cells : Storage
cells = record {
  Store = ReadResult × ReadResult;
  read = λ store slot. checked (cell store slot);
  write = put;
}

cell-put :
    (store : ReadResult × ReadResult) (slot other : ℕ) (raw : Bytes)
    → other ≢ slot
    → cell (put store slot raw).0 other ≡ cell store other
cell-put store zero zero raw h = absurd (h refl)
cell-put store zero (suc zero) raw h = refl
cell-put store zero (suc (suc m)) raw h = refl
cell-put store (suc zero) zero raw h = refl
cell-put store (suc zero) (suc zero) raw h = absurd (h refl)
cell-put store (suc zero) (suc (suc m)) raw h = refl
cell-put store (suc (suc n)) other raw h = refl

checked-fills :
    (r : ReadResult) (raw : Bytes) → checked r ≡ read_ok raw → (length raw ≡ 52) × IsBytes raw
checked-fills (read_ok found) raw h =
    let fits : ((length found == 52) && all_bytes found) ≡ true = ground arith in
    let same : found ≡ raw = ground arith in
    rw (← same) (ground arith, all_bytes_sound found (ground arith))
checked-fills read_empty raw h = cc
checked-fills read_failed raw h = cc

cells-IsTwoSlot : IsTwoSlot cells
cells-IsTwoSlot = record {
  keeps = λ store slot other raw h. rw (cell-put store slot other raw h) refl;
  fills = λ store slot raw h. checked-fills (cell store slot) raw h;
}

abbrev key : Bytes
key = replicate 32 0x11

abbrev current : MigrationValue
current = record {
  generation = 4;
  state = 0;
  active_key_slot = 0;
  epoch = 7;
  key_id = replicate 16 3;
}

abbrev next : MigrationValue
next = record current { generation = 0; state = 1; active_key_slot = 1; epoch = 8 }

abbrev stored : MigrationValue
stored = record next { generation = 5 }

current-IsMigration : IsMigration current
current-IsMigration = record {
  generation = omega arith;
  started = omega arith;
  state = omega arith;
  active_key_slot = omega arith;
  epoch = omega arith;
  key_id = refl;
}

stored-IsMigration : IsMigration stored
stored-IsMigration = record {
  generation = omega arith;
  started = omega arith;
  state = omega arith;
  active_key_slot = omega arith;
  epoch = omega arith;
  key_id = refl;
}

decode-encode_record_example : decode_record (encode_record current key) key ≡ ok current
decode-encode_record_example = decode-encode_record current key current-IsMigration

id-IsBytes : IsBytes (replicate 16 3)
unfolding all_bytes
id-IsBytes = all_bytes_sound (replicate 16 3) refl

full :
    (value : MigrationValue)
    → IsMigration value
    → IsBytes value.key_id
    → checked (read_ok (encode_record value key)) ≡ read_ok (encode_record value key)
full value v k =
    let sized = length-encode_record value key v in
    let bytes =
      all_bytes_complete (encode_record value key) (encode_record-IsBytes value key v k) in
    rw (sized, bytes) refl

abbrev journal : ReadResult × ReadResult
journal = (read_ok (encode_record current key), read_empty)

first : candidate (cells.read journal 0) key ≡ some current
first =
    rw (full current current-IsMigration id-IsBytes)
      (unfold candidate in rw (decode-encode_record current key current-IsMigration, candidate))

journal-load : migration_load cells journal key ≡ ok (current, 0)
unfolding migration_load choose_candidate candidate
journal-load = rw first refl

abbrev rewritten : ReadResult × ReadResult
rewritten = (journal.0, read_ok (encode_record stored key))

committed : migration_commit cells journal next key ≡ (rewritten, ok tt)
unfolding migration_commit commit_loaded transition_allowed write_verified is_verified
committed =
    rw
      (
        journal-load,
        full stored stored-IsMigration id-IsBytes,
        ct_equal_self (encode_record stored key),
        decode-encode_record stored key stored-IsMigration,
      )
      refl

commit-load_example :
    migration_load cells (migration_commit cells journal next key).0 key ≡ ok (stored, 1)
commit-load_example =
    commit-load cells cells-IsTwoSlot journal key current next 0 journal-load stored-IsMigration
      id-IsBytes (ap (λ r. r.1) committed)

commit-keeps_example :
    (value : MigrationValue) × (found : ℕ) × (migration_load cells
        (migration_commit cells journal next key).0
        key
      ≡ ok (value, found))
    × (4 ≤ value.generation)
commit-keeps_example = commit-keeps cells cells-IsTwoSlot journal key current next 0 journal-load

abbrev rollback : MigrationValue
rollback = record current { epoch = 6 }

commit-refuses_example : migration_commit cells journal rollback key ≡ (journal, err err_state)
commit-refuses_example =
    commit-refuses cells cells-IsTwoSlot journal key current rollback 0 journal-load refl
      (inr (inl (omega arith)))

migration_load-IsChoice_example :
    IsChoice (candidate (cells.read journal 0) key) (candidate (cells.read journal 1) key) current 0
migration_load-IsChoice_example = migration_load-IsChoice cells journal key current 0 journal-load

AnyValid-journal :
    AnyValid (candidate (cells.read journal 0) key) (candidate (cells.read journal 1) key)
AnyValid-journal = rw first tt

migration_load-total_example :
    (value : MigrationValue) × (slot : ℕ) × (migration_load cells journal key ≡ ok (value, slot))
migration_load-total_example = migration_load-total cells journal key AnyValid-journal
