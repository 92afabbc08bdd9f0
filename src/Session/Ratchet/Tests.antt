-- ===== src/Session/Ratchet/Tests.antt =====
-- Concrete runs of the record layer, with Ascon-AEAD128.
use c0_pqlink_complete.Prelude.{ℕ, ◌-◌, ◌^◌, ◌≡◌, refl, Bytes, length, replicate, codes, arith}
use c0_pqlink_complete.Common.{ok, err, err_replay, err_state}
use c0_pqlink_complete.Session.Aead.Instance.{ascon_aead}
use c0_pqlink_complete.Session.Client.{Client, established, full_pq_each_session}
use c0_pqlink_complete.Session.Ratchet.{seal_record, open_record, select_key, next_secret}
use c0_pqlink_complete.Session.Ratchet.Seal.{record_frame, open-seal_record-reflected}
use c0_pqlink_complete.Session.Ratchet.Sealing.{Sealed, seal_record-Sealed}
use c0_pqlink_complete.Session.Ratchet.Open.{
  received, Opened, open_record-record_frame, open_record-Opened, open_record-replay,
  open_record-wraps,
}
use c0_pqlink_complete.Session.Ratchet.Nonces.{record_nonce-injective}

abbrev live_client : Client
live_client = record {
  config = record {
    device_id = replicate 8 1;
    psk = replicate 32 2;
    epoch = 1;
    public_key_id = replicate 16 3;
    mode = full_pq_each_session;
    timeout_ms = 1000;
    maximum_retries = 2;
  };
  state = established;
  session_id = 0xc0505101;
  send_secret = replicate 32 4;
  receive_secret = replicate 32 5;
  send_nonce_base = replicate 16 6;
  receive_nonce_base = replicate 16 7;
  send_sequence = 3;
  receive_sequence = 9;
}

abbrev text : Bytes
text = codes "valve open"

abbrev peer_frame : Bytes
peer_frame =
    record_frame ascon_aead 1 live_client.session_id 9
      (select_key live_client.config.mode live_client.receive_secret).0 (replicate 16 7) text

open_record-record_frame_example :
    open_record ascon_aead live_client peer_frame (length peer_frame) 48
    ≡ (received live_client, ok text)
open_record-record_frame_example =
    open_record-record_frame ascon_aead live_client text 48 refl (omega arith) (omega arith)
      (omega arith) (omega arith) (omega arith)

seal_record-Sealed_example :
    Sealed ascon_aead live_client text 64 (seal_record ascon_aead live_client text 64)
seal_record-Sealed_example = seal_record-Sealed ascon_aead live_client text 64 refl

open_record-Opened_example :
    Opened ascon_aead live_client peer_frame
      (open_record ascon_aead live_client peer_frame (length peer_frame) 48)
open_record-Opened_example =
    open_record-Opened ascon_aead live_client peer_frame (length peer_frame) 48

opened :
    open_record ascon_aead live_client peer_frame (length peer_frame) 48
    ≡ (received live_client, ok text)
opened =
    open_record-record_frame ascon_aead live_client text 48 refl (omega arith) (omega arith)
      (omega arith) (omega arith) (omega arith)

open_record-replay_example :
    open_record ascon_aead (received live_client) peer_frame (length peer_frame) 48
    ≡ (received live_client, err err_replay)
open_record-replay_example =
    open_record-replay ascon_aead live_client peer_frame (length peer_frame) 48
      {c' = received live_client} {p = text} (omega arith) opened

abbrev own_frame : Bytes
own_frame =
    record_frame ascon_aead 0 live_client.session_id 3
      (select_key live_client.config.mode live_client.send_secret).0 (replicate 16 6) text

sealed :
    seal_record ascon_aead live_client text 64
    ≡ (record live_client { send_sequence = 4 }, ok own_frame)
unfolding seal_record next_secret select_key
sealed = refl

open-seal_record-reflected_example :
    open_record ascon_aead live_client own_frame (length own_frame) 48
    ≡ (live_client, err err_state)
open-seal_record-reflected_example =
    open-seal_record-reflected ascon_aead live_client live_client text 64 48
      {c' = record live_client { send_sequence = 4 }} {frame = own_frame} (omega arith) sealed

abbrev number : ℕ
number = 7

record_nonce-injective_example : number ≡ number
record_nonce-injective_example =
    record_nonce-injective (replicate 16 9) number number refl (omega arith) (omega arith) refl

abbrev last_client : Client
last_client = record live_client { receive_sequence = 2 ^ 64 - 1 }

abbrev last_frame : Bytes
last_frame =
    record_frame ascon_aead 1 live_client.session_id (2 ^ 64 - 1)
      (select_key live_client.config.mode live_client.receive_secret).0 (replicate 16 7) text

last_opened :
    open_record ascon_aead last_client last_frame (length last_frame) 48
    ≡ (received last_client, ok text)
last_opened =
    open_record-record_frame ascon_aead last_client text 48 refl (omega arith) (omega arith)
      (omega arith) (omega arith) (omega arith)

open_record-wraps_example : (received last_client).receive_sequence ≡ 0
open_record-wraps_example =
    open_record-wraps ascon_aead last_client last_frame (length last_frame) 48
      {c' = received last_client} {p = text} refl last_opened
