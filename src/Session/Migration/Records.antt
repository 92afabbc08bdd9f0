-- ===== src/Session/Migration/Records.antt =====
-- A journal record decodes to the value that it was made from.
use c0_pqlink_complete.Prelude.{
  ◌%◌, ◌^◌, ◌<◌, ◌≤◌, ◌≡◌, ◌≢◌, ap, ap₂, ◌∙◌, Bytes, ◌++◌, append_assoc, take, drop, length,
  length-append, arith, false, true, ◌==◌, ltb,
}
use c0_pqlink_complete.Prelude.Arrays.{slice, take-append, drop-append, drop-append_ge, take_all}
use c0_pqlink_complete.Common.{ok}
use c0_pqlink_complete.Wire.{store32_be, store64_be, load32_be, load64_be}
use c0_pqlink_complete.Wire.RoundTrip.{
  length-store32, length-store64, load32-store32_prefix, load64-store64,
}
use c0_pqlink_complete.Session.Crypto.{auth_tag, verify_auth_tag}
use c0_pqlink_complete.Session.Crypto.Tags.{length-auth_tag, verify_auth_tag_self}
use c0_pqlink_complete.Session.Migration.{
  MigrationValue, journal_label, record_core, encode_record, is_record_start, parse_record,
  decode_record,
}

-- The fields fit their C types, the state and slot are known ones, and the generation is not 0.
pub record IsMigration (value : MigrationValue) : Type 0 where
  pub generation : value.generation < 2 ^ 32
  pub started : value.generation ≢ 0
  pub state : value.state ≤ 2
  pub active_key_slot : value.active_key_slot ≤ 1
  pub epoch : value.epoch < 2 ^ 64
  pub key_id : length value.key_id ≡ 16

module _ (value : MigrationValue) (journal_key : Bytes) (v : IsMigration value) where
  abbrev tag : Bytes
  tag = auth_tag journal_key journal_label (record_core value)

  length-record_core : length (record_core value) ≡ 36
  unfolding record_core
  length-record_core = omega (
    arith,
    length-append (store32_be value.generation) (store64_be value.epoch ++ value.key_id),
    length-append (store64_be value.epoch) value.key_id,
    length-store32 value.generation,
    length-store64 value.epoch,
    v.key_id,
  )

  encoded_start : is_record_start (encode_record value journal_key) ≡ true
  unfolding encode_record record_core
  encoded_start = let (s, a) = small in rw (s, a)
    where
      small : (ltb 2 (value.state % 2 ^ 8) ≡ false) × (ltb 1 value.active_key_slot ≡ false)
      small = (ground (arith, v.state), ground (arith, v.active_key_slot))

  -- The fields of an encoded record.
  encoded_parse : parse_record (encode_record value journal_key) ≡ value
  unfolding encode_record record_core parse_record
  encoded_parse = λ i. record {
    generation = (ap load32_be gen_at ∙ load32-store32_prefix value.generation _ v.generation) i;
    state = small_state i;
    active_key_slot = value.active_key_slot;
    epoch = (ap load64_be epoch_at ∙ load64-store64 value.epoch _ v.epoch) i;
    key_id = (ap (λ t. take 16 t) id_at ∙ take-append value.key_id tag 16 v.key_id) i;
  }
    where
      gen : Bytes
      gen = store32_be value.generation

      epoch : Bytes
      epoch = store64_be value.epoch

      small_state : value.state % 2 ^ 8 ≡ value.state
      small_state = omega (arith, v.state)

      gen_at : (gen ++ (epoch ++ value.key_id)) ++ tag ≡ gen ++ ((epoch ++ value.key_id) ++ tag)
      gen_at = append_assoc gen (epoch ++ value.key_id) tag

      epoch_at : drop 4 ((gen ++ (epoch ++ value.key_id)) ++ tag) ≡ epoch ++ (value.key_id ++ tag)
      epoch_at =
          ap (λ t. drop 4 t) gen_at
          ∙ drop-append gen ((epoch ++ value.key_id) ++ tag) 4 (length-store32 value.generation)
          ∙ append_assoc epoch value.key_id tag

      id_at : drop 12 ((gen ++ (epoch ++ value.key_id)) ++ tag) ≡ value.key_id ++ tag
      id_at =
          ap (λ t. drop 12 t) gen_at
          ∙ drop-append_ge gen ((epoch ++ value.key_id) ++ tag) 4 12
              (length-store32 value.generation) (omega arith)
          ∙ ap (λ t. drop 8 t) (append_assoc epoch value.key_id tag)
          ∙ drop-append epoch (value.key_id ++ tag) 8 (length-store64 value.epoch)

  -- A stored value reads back, under the same journal key.
  pub decode-encode_record : decode_record (encode_record value journal_key) journal_key ≡ ok value
  unfolding decode_record
  decode-encode_record =
      let fresh : (value.generation == 0) ≡ false = ground (arith, v.started) in
      rw (encoded_start, tagged, encoded_parse, fresh)
    where
      tagged :
          verify_auth_tag
            (slice 36 16 (encode_record value journal_key))
            journal_key
            journal_label
            (take 36 (encode_record value journal_key))
          ≡ ok tt
      tagged =
          unfold encode_record in
          ap₂ (λ t c. verify_auth_tag t journal_key journal_label c)
            (ap (λ t. take 16 t) (drop-append (record_core value) tag 36 length-record_core)
              ∙ take_all tag 16 (length-auth_tag journal_key journal_label (record_core value)))
            (take-append (record_core value) tag 36 length-record_core)
          ∙ verify_auth_tag_self journal_key journal_label (record_core value)

  pub length-encode_record : length (encode_record value journal_key) ≡ 52
  unfolding encode_record
  length-encode_record = omega (
    arith,
    length-append (record_core value) tag,
    length-record_core,
    length-auth_tag journal_key journal_label (record_core value),
  )
