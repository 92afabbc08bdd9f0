-- ===== src/Session/Handshake/Connect/Established.antt =====
-- What a client that `c0pq_client_connect` leaves established has agreed with its server.
use c0_pqlink_complete.Prelude.{
  true, ap, sym, ◌∙◌, ◌≡◌, refl, subst, Bytes, [], ◌++◌, codes, take, append-nil, arith,
}
use c0_pqlink_complete.Common.{Result, ct_equal, ok, err, err_ok, ◌>>◌}
use c0_pqlink_complete.Session.Header.{frame_challenge}
use c0_pqlink_complete.Session.Crypto.{
  transcript_init, transcript_add_hello, transcript_add_challenge,
}
use c0_pqlink_complete.Session.Crypto.Schedule.{
  init_transcript, hello_transcript, challenge_transcript,
}
use c0_pqlink_complete.Session.Preflight.{
  Challenge, encode_hello, decode_verify_challenge, challenge_key,
}
use c0_pqlink_complete.Session.Client.{Client}
use c0_pqlink_complete.Session.Fragment.{Transport, send_and_receive}
use c0_pqlink_complete.Session.Fragment.Traffic.{Exchanged, send_and_receive-Exchanged}
use c0_pqlink_complete.Session.Preflight.Challenges.{session_key_of, challenge_key-hmac}
use c0_pqlink_complete.Session.Handshake.{Writer, verify_challenge_matches}
use c0_pqlink_complete.Session.Handshake.Connect.{
  fresh_writer, hello_of, start_writer, exchange_hello,
}
use c0_pqlink_complete.Session.Handshake.Connect.Chunks.{Carries}
use c0_pqlink_complete.Session.Handshake.Connect.Finished.{split_result, split_bind}

-- The transcript before the ciphertext.
abbrev pub greeting : Bytes → Bytes → Bytes
greeting hello_frame challenge_frame =
    (codes "C0PQ/1 transcript" ++ take 44 hello_frame) ++ take 68 challenge_frame

-- A Challenge frame that the client takes for its nonce: it decodes, and its suite, epoch, key id
-- and device nonce are the client's.
pub record IsMatch (client : Client) (nonce challenge_frame : Bytes) (challenge : Challenge)
    : Type 0 where
  pub decoded :
      decode_verify_challenge client.session_id challenge_frame 84 client.config.psk ≡ ok challenge
  pub suite : challenge.suite ≡ 1
  pub epoch : challenge.epoch ≡ client.config.epoch
  pub key_id : ct_equal challenge.key_id client.config.public_key_id ≡ true
  pub device_nonce : ct_equal challenge.device_nonce nonce ≡ true

-- From `link` to `later`, the Hello for the nonce is sent and the Challenge comes in.
pub record Greeted (transport : Transport) (client : Client)
    (nonce hello_frame challenge_frame : Bytes) (link later : transport.Link)
    (challenge : Challenge) : Type 0 where
  pub encoded :
      encode_hello client.session_id
        (record {
          suite = 1;
          device_id = client.config.device_id;
          epoch = client.config.epoch;
          device_nonce = nonce;
        })
        client.config.psk
      ≡ ok hello_frame
  pub exchanged : Exchanged transport client (take 60 hello_frame) 2 84 link challenge_frame later
  pub match : IsMatch client nonce challenge_frame challenge

matches-IsMatch :
    (client : Client) (nonce frame : Bytes) (challenge : Challenge)
    → decode_verify_challenge client.session_id frame 84 client.config.psk ≡ ok challenge
    → verify_challenge_matches client challenge nonce ≡ ok tt
    → IsMatch client nonce frame challenge
unfolding verify_challenge_matches
matches-IsMatch client nonce frame challenge d h = record {
  decoded = d;
  suite = ground arith;
  epoch = ground arith;
  key_id = ground arith;
  device_nonce = ground arith;
}

start_writer-Carries :
    (client : Client) (nonce hello_frame frame : Bytes) (writer : Writer)
    → start_writer client nonce (transcript_add_hello transcript_init hello_frame) frame ≡ ok writer
    → (challenge : Challenge) × IsMatch client nonce frame challenge
      × Carries (greeting hello_frame frame) [] writer
      × (writer.session_auth_key ≡ session_key_of client.config.psk challenge)
unfolding start_writer
start_writer-Carries client nonce hello_frame frame writer h =
    let Starts : Result Writer → Type 0 = λ t.
      t ≡ ok writer
      → (challenge : Challenge) × IsMatch client nonce frame challenge
        × Carries (greeting hello_frame frame) [] writer
        × (writer.session_auth_key ≡ session_key_of client.config.psk challenge) in
    let ready = λ (challenge : Challenge).
      fresh_writer
        (transcript_add_challenge (transcript_add_hello transcript_init hello_frame) frame)
        (challenge_key client.config.psk challenge) in
    let run : Starts
        (start_writer client nonce (transcript_add_hello transcript_init hello_frame) frame) =
      split_bind Starts (decode_verify_challenge client.session_id frame 84 client.config.psk)
        (λ challenge. verify_challenge_matches client challenge nonce >> ok (ready challenge))
        (λ e d done. absurd (err_ok e done))
        (λ challenge d.
          split_bind Starts (verify_challenge_matches client challenge nonce)
            (λ passed. ok (ready challenge)) (λ e m done. absurd (err_ok e done))
            (λ passed m done. (
              challenge,
              matches-IsMatch client nonce frame challenge d m,
              subst (Carries (greeting hello_frame frame) []) (same (ready challenge) done)
                  (record {
                    filling = record {
                      counted = refl;
                      short = omega arith;
                      few = omega arith;
                      sound = refl;
                    };
                    transcript = rw append-nil (
                        challenge_transcript _ _ frame
                          (hello_transcript _ _ hello_frame init_transcript));
                  }),
              ap (λ w. w.session_auth_key) (sym (same (ready challenge) done))
                  ∙ challenge_key-hmac client.config.psk challenge,
            ))) in
    run h
  where
    same : (other : Writer) → ok other ≡ ok writer → other ≡ writer
    same other e = cc

module _ (transport : Transport) where
  open transport use {Link}

  pub exchange_hello-Carries :
      (link : Link) (client : Client) (nonce : Bytes) (writer : Writer)
      → (exchange_hello transport link client nonce).1 ≡ ok writer
      → (hello_frame : Bytes) × (challenge_frame : Bytes) × (challenge : Challenge) × Greeted
          transport client nonce hello_frame challenge_frame link
          (exchange_hello transport link client nonce).0
          challenge
        × Carries (greeting hello_frame challenge_frame) [] writer
        × (writer.session_auth_key ≡ session_key_of client.config.psk challenge)
  unfolding exchange_hello
  exchange_hello-Carries link client nonce writer =
      let Greets : Link × Result Writer → Type 0 = λ t.
        t.1 ≡ ok writer
        → (hello_frame : Bytes) × (challenge_frame : Bytes) × (challenge : Challenge) × Greeted
            transport client nonce hello_frame challenge_frame link t.0 challenge
          × Carries (greeting hello_frame challenge_frame) [] writer
          × (writer.session_auth_key ≡ session_key_of client.config.psk challenge) in
      split_result Greets (encode_hello client.session_id (hello_of client nonce) client.config.psk)
        (λ e. (link, err e)) _ (λ e h done. absurd (err_ok e done))
        (λ hello_frame encoded.
          let sent = send_and_receive transport link client hello_frame 60 frame_challenge 84 in
          split_result Greets sent.2 (λ e. (sent.0, err e))
            (λ passed. (
              sent.0,
              start_writer client nonce (transcript_add_hello transcript_init hello_frame) sent.1,
            ))
            (λ e h done. absurd (err_ok e done))
            (λ passed h done.
              let (challenge, matched, carried, keyed) =
                start_writer-Carries client nonce hello_frame sent.1 writer done in
              (
                hello_frame,
                sent.1,
                challenge,
                record {
                  encoded = encoded;
                  exchanged =
                      send_and_receive-Exchanged transport link client hello_frame 60
                        frame_challenge 84 h;
                  match = matched;
                },
                carried,
                keyed,
              )))
