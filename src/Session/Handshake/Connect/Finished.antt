-- ===== src/Session/Handshake/Connect/Finished.antt =====
-- The end of a handshake: the Finished frames for its transcript, and the client under its keys.
use c0_pqlink_complete.Prelude.{
  ◌≡◌, inl, inr, refl, ap₂, subst, ◌∙◌, Bytes, ◌++◌, length-append, take, true, replicate, arith,
  ==_iff, ◌==◌, Bool-cases,
}
use c0_pqlink_complete.Prelude.Arrays.{slice, take_all}
use c0_pqlink_complete.Common.{Result, ok, err, Error, err_ok, ◌>>=◌, ct_equal, Result-cases}
use c0_pqlink_complete.Sha256.Digest.{digest}
use c0_pqlink_complete.Session.Header.{
  FrameHeader, encode_header, decode_header, written, frame_server_finished,
}
use c0_pqlink_complete.Session.Header.Laws.{header_bytes, header-bytes, length-header}
use c0_pqlink_complete.Session.Crypto.{SessionKeys, finished_tag}
use c0_pqlink_complete.Session.Crypto.Schedule.{schedule, handshake_secret}
use c0_pqlink_complete.Session.Crypto.Tags.{finished_of, finished_tag-hmac, length-finished_tag}
use c0_pqlink_complete.Session.Client.{Client, established}
use c0_pqlink_complete.Session.Fragment.{Transport, send_and_receive}
use c0_pqlink_complete.Session.Fragment.Traffic.{Exchanged, send_and_receive-Exchanged}
use c0_pqlink_complete.Session.Handshake.{check_finished, establish}
use c0_pqlink_complete.Session.Handshake.Connect.{finished_frame, exchange_finished}

-- The keys of a transcript.
abbrev pub keys_of : Client → Bytes → Bytes → SessionKeys
keys_of client shared_secret message =
    schedule (handshake_secret client.config.psk shared_secret) (digest message)

-- The established client with these secrets and nonce bases, which has sent and received nothing.
abbrev pub under_keys : Client → Bytes → Bytes → Bytes → Bytes → Client
under_keys client send_secret receive_secret send_nonce_base receive_nonce_base = record client {
  state = established;
  send_secret = send_secret;
  receive_secret = receive_secret;
  send_nonce_base = send_nonce_base;
  receive_nonce_base = receive_nonce_base;
  send_sequence = 0;
  receive_sequence = 0;
}

-- A reply of 26 bytes that the server's Finished check accepts, for this tag.
pub record IsFinished (tag reply : Bytes) : Type 0 where
  pub header : FrameHeader
  pub decoded : decode_header reply 26 ≡ ok header
  pub flags : header.flags ≡ 0
  pub payload_length : header.payload_length ≡ 16
  pub tagged : ct_equal tag (slice 10 16 reply) ≡ true

-- From `link` to `later`, the device's Finished frame for the transcript `message` goes out and the
-- server's comes in; the client is then under the keys of the transcript: the chain keys in ratchet
-- mode, else the traffic keys, padded to 32 bytes; the client's to send and the server's to receive.
pub record Agreed (transport : Transport) (before : Client) (shared_secret message : Bytes)
    (link later : transport.Link) (after : Client) : Type 0 where
  pub keys : SessionKeys
  pub scheduled : keys ≡ keys_of before shared_secret message
  pub ratchet :
      before.config.mode ≡ 1
      → after
        ≡ under_keys before keys.client_chain_key keys.server_chain_key keys.client_nonce_base
            keys.server_nonce_base
  pub full :
      ¬ (before.config.mode ≡ 1)
      → after
        ≡ under_keys before
            (keys.client_traffic_key ++ replicate 16 0)
            (keys.server_traffic_key ++ replicate 16 0)
            keys.client_nonce_base
            keys.server_nonce_base
  pub server_frame : Bytes
  pub exchanged :
      Exchanged transport before
        (header_bytes 5 0 16 before.session_id
          ++ finished_of keys.device_finished_key 5 before.session_id (digest message))
        6
        26
        link
        server_frame
        later
  pub finished :
      IsFinished
        (finished_of keys.server_finished_key 6 before.session_id (digest message))
        server_frame

-- A branch on the result of a call.
pub split_result :
    {A B : Type 0} (P : B → Type 0) (r : Result A) (failed : Error → B) (passed : A → B)
    → ((code : Error) → r ≡ err code → P (failed code))
    → ((value : A) → r ≡ ok value → P (passed value))
    → P (elim r [ err e ↦ failed e | ok value ↦ passed value ])
split_result P (ok value) failed passed on_err on_ok = on_ok value refl
split_result P (err e) failed passed on_err on_ok = on_err e refl

-- The same for a call whose error is returned at once.
pub split_bind :
    {A B : Type 0} (P : Result B → Type 0) (r : Result A) (rest : A → Result B)
    → ((code : Error) → r ≡ err code → P (err code))
    → ((value : A) → r ≡ ok value → P (rest value))
    → P (r >>= rest)
split_bind P (ok value) rest on_err on_ok = on_ok value refl
split_bind P (err e) rest on_err on_ok = on_err e refl

device_frame :
    (client : Client) (keys : SessionKeys) (hash : Bytes)
    → take 26 (finished_frame client keys hash)
      ≡ header_bytes 5 0 16 client.session_id
        ++ finished_of keys.device_finished_key 5 client.session_id hash
unfolding finished_frame
device_frame client keys hash =
    let start = written (encode_header 5 0 16 client.session_id) in
    let tag = finished_tag keys.device_finished_key 5 client.session_id hash in
    take_all (start ++ tag) 26 (
      omega (
        arith,
        length-append start tag,
        length-header 5 0 16 client.session_id (omega arith),
        length-finished_tag keys.device_finished_key 5 client.session_id hash,
      ))
    ∙ ap₂ ◌++◌ (header-bytes 5 0 16 client.session_id (omega arith))
        (finished_tag-hmac keys.device_finished_key 5 client.session_id hash)

check_finished-IsFinished :
    (client : Client) (keys : SessionKeys) (hash frame : Bytes)
    → check_finished client keys hash frame ≡ ok tt
    → IsFinished (finished_of keys.server_finished_key 6 client.session_id hash) frame
unfolding check_finished
check_finished-IsFinished client keys hash frame h = elim (Result-cases (decode_header frame 26)) [
  | inl (header, d) ↦ record {
    header = header;
    decoded = d;
    flags = ground arith;
    payload_length = ground arith;
    tagged =
        subst (λ t. ct_equal t (slice 10 16 frame) ≡ true)
          (finished_tag-hmac keys.server_finished_key 6 client.session_id hash) (ground arith);
  }
  | inr (code, d) ↦ ground arith
]

pub establish-ratchet :
    (client : Client) (keys : SessionKeys)
    → client.config.mode ≡ 1
    → establish client keys
      ≡ under_keys client keys.client_chain_key keys.server_chain_key keys.client_nonce_base
          keys.server_nonce_base
unfolding establish
establish-ratchet client keys h = rw ((==_iff client.config.mode 1).1 h) refl

pub establish-full :
    (client : Client) (keys : SessionKeys)
    → ¬ (client.config.mode ≡ 1)
    → establish client keys
      ≡ under_keys client
          (keys.client_traffic_key ++ replicate 16 0)
          (keys.server_traffic_key ++ replicate 16 0)
          keys.client_nonce_base
          keys.server_nonce_base
unfolding establish
establish-full client keys h = elim (Bool-cases (client.config.mode == 1)) [
  | inl e ↦ absurd (h ((==_iff client.config.mode 1).0 e))
  | inr e ↦ rw e refl
]

module _ (transport : Transport) where
  open transport use {Link}

  pub exchange_finished-Agrees :
      (link : Link) (client : Client) (keys : SessionKeys) (hash : Bytes)
      → (exchange_finished transport link client keys hash).1 ≡ ok tt
      → (frame : Bytes) × Exchanged transport client
          (header_bytes 5 0 16 client.session_id
            ++ finished_of keys.device_finished_key 5 client.session_id hash)
          6
          26
          link
          frame
          (exchange_finished transport link client keys hash).0
        × IsFinished (finished_of keys.server_finished_key 6 client.session_id hash) frame
  unfolding exchange_finished
  exchange_finished-Agrees link client keys hash =
      let out =
        header_bytes 5 0 16 client.session_id
        ++ finished_of keys.device_finished_key 5 client.session_id hash in
      let sent =
        send_and_receive transport link client (finished_frame client keys hash) 26
          frame_server_finished 26 in
      split_result
        (λ (t : Link × Result (Unit {0})).
          t.1 ≡ ok tt
          → (frame : Bytes) × Exchanged transport client out 6 26 link frame t.0
            × IsFinished (finished_of keys.server_finished_key 6 client.session_id hash) frame)
        sent.2 (λ e. (sent.0, err e)) (λ passed. (sent.0, check_finished client keys hash sent.1))
        (λ e h done. absurd (err_ok e done))
        (λ passed h done. (
          sent.1,
          subst (λ f. Exchanged transport client f 6 26 link sent.1 sent.0)
              (device_frame client keys hash)
              (send_and_receive-Exchanged transport link client (finished_frame client keys hash) 26
                frame_server_finished 26 h),
          check_finished-IsFinished client keys hash sent.1 done,
        ))
