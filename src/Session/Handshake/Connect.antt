-- ===== src/Session/Handshake/Connect.antt =====
-- src/session/fragment.c: `exchange_finished` and `c0pq_client_connect`, with the call of
-- c0_mlkem512_encapsulate (src/core/mlkem512_stream.c) and its randomness.
pub mod Chunks
pub mod Delivery
pub mod Finished
pub mod Outcomes
pub mod Established
pub mod Agreement
use c0_pqlink_complete.Prelude.{
  Bytes, List, [], ◌++◌, not, ◌&&◌, none, some, bit_xor, ◌==◌, if◌then◌else◌, length,
}
use c0_pqlink_complete.Common.{
  Result, ok, err, err_state, err_io, err_rng, ◌>>=◌, ◌>>◌, require, is_ok,
}
use c0_pqlink_complete.Wire.{load32_be}
use c0_pqlink_complete.Sha256.{Sha256Ctx, sha256_final}
use c0_pqlink_complete.Session.Header.{
  encode_header, written, frame_challenge, frame_device_finished, frame_server_finished,
}
use c0_pqlink_complete.Session.Crypto.{
  SessionKeys, derive_session_keys, finished_tag, transcript_init, transcript_add_hello,
  transcript_add_challenge,
}
use c0_pqlink_complete.Session.Preflight.{
  Hello, suite_id, challenge_key, encode_hello, decode_verify_challenge,
}
use c0_pqlink_complete.Session.Client.{Client, connecting, is_ready}
use c0_pqlink_complete.Session.Fragment.{Transport, send_and_receive}
use c0_pqlink_complete.Session.Handshake.{
  Writer, Rng, Kem, verify_challenge_matches, check_finished, fail, establish,
  flush_ciphertext_fragment, write_chunks,
}

-- The client once the nonce is drawn.
abbrev pub begin_session : Client → Bytes → Client
begin_session client nonce = record client {
  state = connecting;
  session_id = bit_xor (load32_be nonce) 0xc0505101;
}

abbrev pub hello_of : Client → Bytes → Hello
hello_of client nonce = record {
  suite = suite_id;
  device_id = client.config.device_id;
  epoch = client.config.epoch;
  device_nonce = nonce;
}

abbrev pub fresh_writer : Sha256Ctx → Bytes → Writer
fresh_writer transcript session_auth_key = record {
  transcript = transcript;
  session_auth_key = session_auth_key;
  pending = [];
  fragment_index = 0;
  failure = ok tt;
}

-- The reply to Hello, checked, and the ciphertext writer that it starts. The transcript already
-- holds the Hello frame.
pub start_writer : Client → Bytes → Sha256Ctx → Bytes → Result Writer
start_writer client nonce transcript frame = do
  challenge ← decode_verify_challenge client.session_id frame 84 client.config.psk
  verify_challenge_matches client challenge nonce
  ok (
      fresh_writer (transcript_add_challenge transcript frame)
        (challenge_key client.config.psk challenge))

-- `writer.fragment_index != C0PQ_FRAGMENT_COUNT || writer.failure != C0PQLINK_OK`.
pub check_transfer : Writer → Result (Unit {0})
check_transfer writer = require (writer.fragment_index == 16 && is_ok writer.failure) err_io

-- The Finished frame of the device.
pub finished_frame : Client → SessionKeys → Bytes → Bytes
finished_frame client keys transcript_hash =
    written (encode_header frame_device_finished 0 16 client.session_id)
    ++ finished_tag keys.device_finished_key frame_device_finished client.session_id transcript_hash

module _ (transport : Transport) where
  open transport use {Link}

  pub exchange_finished : Link → Client → SessionKeys → Bytes → Link × Result (Unit {0})
  exchange_finished link client keys transcript_hash =
      let (link', frame, result) =
        send_and_receive transport link client (finished_frame client keys transcript_hash) 26
          frame_server_finished 26 in
      elim result [
        | err e ↦ (link', err e)
        | ok done ↦ (link', check_finished client keys transcript_hash frame)
      ]

  -- Hello out, Challenge in.
  pub exchange_hello : Link → Client → Bytes → Link × Result Writer
  exchange_hello link client nonce =
      elim (encode_hello client.session_id (hello_of client nonce) client.config.psk) [
        | err e ↦ (link, err e)
        | ok hello_frame ↦
            let (link', frame, result) =
              send_and_receive transport link client hello_frame 60 frame_challenge 84 in
            elim result [
              | err e ↦ (link', err e)
              | ok done ↦ (
                link',
                start_writer client nonce (transcript_add_hello transcript_init hello_frame) frame,
              )
            ]
      ]

  -- What follows the encapsulation: the last fragment if one is pending, and the count.
  pub conclude_transfer :
      Client → Link × Writer × Result (Unit {0}) → Link × Writer × Result (Unit {0})
  conclude_transfer client (link, writer, err e) = (link, writer, err e)
  conclude_transfer client (link, writer, ok done) =
      let (link', flushed, result) =
        (if not (length writer.pending == 0)
          then flush_ciphertext_fragment transport link client writer
          else (link, writer, ok tt)) in
      (link', flushed, result >>= (λ sent. check_transfer flushed))

  -- The keys, and the Finished frames under them.
  pub conclude_session : Link → Client → Writer → Bytes → Link × Client × Result (Unit {0})
  conclude_session link client writer shared_secret =
      let transcript_hash = sha256_final writer.transcript in
      elim (derive_session_keys client.config.psk shared_secret transcript_hash) [
        | err e ↦ (link, fail client, err e)
        | ok keys ↦
            let (link', result) = exchange_finished link client keys transcript_hash in
            elim result [
              | err e ↦ (link', fail client, err e)
              | ok done ↦ (link', establish client keys, ok tt)
            ]
      ]

  -- The ciphertext for the server and the rest of the handshake.
  pub transfer : Link → Client → Writer → List Bytes → Bytes → Link × Client × Result (Unit {0})
  transfer link client writer chunks shared_secret =
      let (link', writer', result) =
        conclude_transfer client (write_chunks transport link client writer chunks) in
      elim result [
        | err e ↦ (link', fail client, err e)
        | ok done ↦ conclude_session link' client writer' shared_secret
      ]

  module _ (rng : Rng) (kem : Kem) where
    open rng use {Source, random_bytes}

    -- c0_mlkem512_encapsulate: the randomness, then the encapsulation.
    pub mlkem512_encapsulate : Source → Bytes → Source × Result (List Bytes × Bytes)
    mlkem512_encapsulate source public_key =
        let (source', drawn) = random_bytes source 32 in
        elim drawn [
          | none ↦ (source', err err_rng)
          | some randomness ↦ (source', kem.encapsulate public_key randomness)
        ]

    -- From the nonce on.
    pub run_handshake :
        Link → Source → Client → Bytes → Bytes → Link × Source × Client × Result (Unit {0})
    run_handshake link source client public_key nonce =
        let (link', greeted) = exchange_hello link client nonce in
        elim greeted [
          | err e ↦ (link', source, fail client, err e)
          | ok writer ↦
              let (source', sealed) = mlkem512_encapsulate source public_key in
              elim sealed [
                | err e ↦ (link', source', fail client, err e)
                | ok (chunks, shared_secret) ↦
                    let (link'', client', result) =
                      transfer link' client writer chunks shared_secret in
                    (link'', source', client', result)
              ]
        ]

    -- c0pq_client_connect, for the public key that `read_public_key` reads.
    pub client_connect : Link → Source → Client → Bytes → Link × Source × Client × Result (Unit {0})
    client_connect link source client public_key =
        if not (is_ready client.state)
        then (link, source, client, err err_state)
        else (let (source', drawn) = random_bytes source 16 in
            elim drawn [
              | none ↦ (link, source', fail client, err err_rng)
              | some nonce ↦
                  run_handshake link source' (begin_session client nonce) public_key nonce
            ])
