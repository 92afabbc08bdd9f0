-- ===== src/Session/Handshake/Connect/Agreement.antt =====
-- `c0pq_client_connect` as a whole: established in agreement with the server, refused, or failed.
use c0_pqlink_complete.Prelude.{
  some, subst, bit_xor, replicate, ℕ, ◌≡◌, ◌⊎◌, inl, inr, refl, Bytes, List, true, false,
  Bool-cases, Option-cases, arith,
}
use c0_pqlink_complete.Common.{Result, ok, err, Error, err_state, err_rng}
use c0_pqlink_complete.Session.Client.{Client, is_ready, connecting, failed}
use c0_pqlink_complete.Wire.{load32_be}
use c0_pqlink_complete.Session.Preflight.{Challenge}
use c0_pqlink_complete.Session.Preflight.Challenges.{session_key_of}
use c0_pqlink_complete.Session.Fragment.{Transport}
use c0_pqlink_complete.Session.Handshake.{Rng, Kem, fail}
use c0_pqlink_complete.Session.Handshake.Connect.{
  exchange_hello, transfer, mlkem512_encapsulate, run_handshake, client_connect,
}
use c0_pqlink_complete.Session.Handshake.Connect.Outcomes.{Ends, Transferred, transfer-Ends}
use c0_pqlink_complete.Session.Handshake.Connect.Finished.{split_result}
use c0_pqlink_complete.Session.Handshake.Connect.Established.{
  Greeted, greeting, exchange_hello-Carries,
}

-- The client of a handshake under a nonce.
abbrev pub opened : Client → Bytes → Client
opened client nonce = record client {
  state = connecting;
  session_id = bit_xor (load32_be nonce) 0xc0505101;
}

-- A whole handshake from `link` to `later`: the nonce and then the randomness are drawn from the
-- source; the Hello for the nonce is sent and a Challenge for it comes in; an encapsulation for the
-- public key under the randomness is sent in fragments, tagged under the key of the Challenge; and
-- the Finished frames for the transcript of exactly these messages are exchanged.
pub record Connected (transport : Transport) (rng : Rng) (kem : Kem) (public_key : Bytes)
    (link later : transport.Link) (source : rng.Source) (client after : Client) : Type 0 where
  pub nonce : Bytes
  pub nonce_drawn : (rng.random_bytes source 16).1 ≡ some nonce
  pub hello_frame : Bytes
  pub challenge_frame : Bytes
  pub challenge : Challenge
  pub middle : transport.Link
  pub greeted :
      Greeted transport
        (opened client nonce)
        nonce
        hello_frame
        challenge_frame
        link
        middle
        challenge
  pub randomness : Bytes
  pub randomness_drawn : (rng.random_bytes (rng.random_bytes source 16).0 32).1 ≡ some randomness
  pub chunks : List Bytes
  pub shared_secret : Bytes
  pub encapsulated : kem.encapsulate public_key randomness ≡ ok (chunks, shared_secret)
  pub transferred :
      Transferred transport
        (opened client nonce)
        (session_key_of client.config.psk challenge)
        chunks
        shared_secret
        (greeting hello_frame challenge_frame)
        middle
        later
        after

module _ (transport : Transport) (rng : Rng) (kem : Kem) where
  open transport use {Link}
  open rng use {Source, random_bytes}

  encapsulate_drawn :
      (source : Source) (public_key : Bytes) (sealed : List Bytes × Bytes)
      → (mlkem512_encapsulate transport rng kem source public_key).1 ≡ ok sealed
      → (randomness : Bytes) × ((random_bytes source 32).1 ≡ some randomness)
        × (kem.encapsulate public_key randomness ≡ ok sealed)
  unfolding mlkem512_encapsulate
  encapsulate_drawn source public_key sealed h = elim (Option-cases (random_bytes source 32).1) [
    | inl failed' ↦ ground arith
    | inr (randomness, drawn) ↦ (randomness, drawn, ground arith)
  ]

  module _ (link : Link) (source : Source) (client : Client) (public_key nonce : Bytes)
      (drawn : (random_bytes source 16).1 ≡ some nonce) where
    abbrev Target : Link × Source × Client × Result (Unit {0}) → Type 0
    Target t =
        Ends (opened client nonce) (Connected transport rng kem public_key link t.0 source client)
          t.2 t.3

    run_handshake-Ends : Target (
        run_handshake transport rng kem link
          (random_bytes source 16).0
          (opened client nonce)
          public_key
          nonce)
    unfolding run_handshake
    run_handshake-Ends =
        let session = opened client nonce in
        let source' = (random_bytes source 16).0 in
        let hello = exchange_hello transport link session nonce in
        let call = mlkem512_encapsulate transport rng kem source' public_key in
        split_result Target hello.1 (λ e. (hello.0, source', fail session, err e)) _
          (λ e h. inr (e, refl, refl))
          (λ writer h.
            let (hello_frame, challenge_frame, challenge, greeted, carried, keyed) =
              exchange_hello-Carries transport link session nonce writer h in
            split_result Target call.1 (λ e. (hello.0, call.0, fail session, err e))
              (λ sealed.
                let t = transfer transport hello.0 session writer sealed.0 sealed.1 in
                (t.0, call.0, t.1, t.2))
              (λ e h. inr (e, refl, refl))
              (λ sealed d.
                let t = transfer transport hello.0 session writer sealed.0 sealed.1 in
                elim (transfer-Ends transport hello.0 session writer sealed.0 sealed.1
                  (greeting hello_frame challenge_frame) carried) [
                    | inl (done, transferred) ↦
                        let (randomness, randomness_drawn, encapsulated) =
                          encapsulate_drawn source' public_key sealed d in
                        inl (
                          done,
                          record {
                            nonce = nonce;
                            nonce_drawn = drawn;
                            hello_frame = hello_frame;
                            challenge_frame = challenge_frame;
                            challenge = challenge;
                            middle = hello.0;
                            greeted = greeted;
                            randomness = randomness;
                            randomness_drawn = randomness_drawn;
                            chunks = sealed.0;
                            shared_secret = sealed.1;
                            encapsulated = encapsulated;
                            transferred =
                                subst
                                  (λ k.
                                    Transferred transport session k sealed.0 sealed.1
                                      (greeting hello_frame challenge_frame) hello.0 t.0 t.1)
                                  keyed transferred;
                          },
                        )
                    | inr stopped ↦ inr stopped
                  ]))

  -- On every run of `c0pq_client_connect`, one of three. It returns C0PQLINK_OK, and the calls of the
  -- callbacks were a whole handshake: the Hello for a nonce of the random source was sent and the
  -- last reply was a Challenge for it, all of an encapsulation for the public key was sent in sixteen
  -- acknowledged fragments, the device's Finished for the transcript of exactly these messages was
  -- sent, the last reply was the server's Finished for it, and the client is established under the
  -- keys of this transcript, with its sequence numbers zero. Or the client was not ready and nothing
  -- changes, with C0PQLINK_ERR_STATE. Or it was ready, an error is returned, and it is failed, with
  -- its secrets zero and its configuration kept.
  pub client_connect-outcomes :
      (link : Link) (source : Source) (client : Client) (public_key : Bytes)
      → (((client_connect transport rng kem link source client public_key).3 ≡ ok tt)
          × Connected transport rng kem public_key link
              (client_connect transport rng kem link source client public_key).0
              source
              client
              (client_connect transport rng kem link source client public_key).2)
        ⊎ ((is_ready client.state ≡ false)
            × (client_connect transport rng kem link source client public_key
                ≡ (link, source, client, err err_state)))
        ⊎ ((is_ready client.state ≡ true)
            × (code : Error) × (session_id : ℕ) × ((client_connect transport rng kem link source
                  client public_key).3
                ≡ err code)
            × ((client_connect transport rng kem link source client public_key).2 ≡ record client {
              state = failed;
              session_id = session_id;
              send_secret = replicate 32 0;
              receive_secret = replicate 32 0;
              send_nonce_base = replicate 16 0;
              receive_nonce_base = replicate 16 0;
            }))
  unfolding client_connect
  client_connect-outcomes link source client public_key =
      elim (Bool-cases (is_ready client.state)) [
        | inl ready ↦ elim (Option-cases (random_bytes source 16).1) [
          | inl none' ↦
              inr (inr (ready, err_rng, client.session_id, rw (ready, none'), rw (ready, none')))
          | inr (nonce, drawn) ↦
              rw (ready, drawn)
                (elim (run_handshake-Ends link source client public_key nonce drawn) [
                  | inl connected ↦ inl connected
                  | inr (code, e, same) ↦
                      inr (inr (refl, code, (opened client nonce).session_id, e, same))
                ])
        ]
        | inr refused ↦ inr (inl (refused, rw refused))
      ]
