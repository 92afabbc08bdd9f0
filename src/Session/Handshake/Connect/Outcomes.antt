-- ===== src/Session/Handshake/Connect/Outcomes.antt =====
-- How a handshake ends: established under the keys of its own transcript, or failed without secrets.
use c0_pqlink_complete.Prelude.{
  joined, ◌<◌, ◌≤◌, ◌≡◌, ◌⊎◌, inl, inr, refl, ap, subst, sym, ◌∙◌, Bytes, List, [], ◌++◌, length,
}
use c0_pqlink_complete.Common.{Result, ok, err, Error}
use c0_pqlink_complete.Sha256.{sha256_final}
use c0_pqlink_complete.Sha256.Digest.{final-digest}
use c0_pqlink_complete.Sha256.Stream.{Represents}
use c0_pqlink_complete.Session.Header.Laws.{header_bytes}
use c0_pqlink_complete.Session.Crypto.Schedule.{
  schedule, handshake_secret, derive_session_keys-schedule,
}
use c0_pqlink_complete.Session.Crypto.Tags.{finished_of}
use c0_pqlink_complete.Session.Client.{Client}
use c0_pqlink_complete.Session.Fragment.{Transport}
use c0_pqlink_complete.Session.Fragment.Traffic.{Exchanged}
use c0_pqlink_complete.Session.Handshake.{Writer, fail, establish, write_chunks}
use c0_pqlink_complete.Session.Handshake.Transfer.Sending.{Fragments}
use c0_pqlink_complete.Session.Handshake.Connect.{
  exchange_finished, conclude_session, conclude_transfer, transfer,
}
use c0_pqlink_complete.Session.Handshake.Connect.Chunks.{Carries, transfer-Carries}
use c0_pqlink_complete.Session.Handshake.Connect.Delivery.{transfer-Fragments}
use c0_pqlink_complete.Session.Handshake.Connect.Finished.{
  Agreed, IsFinished, keys_of, split_result, establish-ratchet, establish-full,
  exchange_finished-Agrees,
}

-- The success of a call with what holds of its client, or its failure with the failed client.
abbrev pub Ends : Client → (Client → Type 0) → Client → Result (Unit {0}) → Type 0
Ends client Reached after result =
    ((result ≡ ok tt) × Reached after)
    ⊎ ((code : Error) × (result ≡ err code) × (after ≡ fail client))

-- From `link` to `later`, the ciphertext is sent in sixteen fragments, tagged under `key`, that hold
-- exactly the chunks, and the Finished frames follow.
pub record Transferred (transport : Transport) (before : Client) (key : Bytes) (chunks : List Bytes)
    (shared_secret message : Bytes) (link later : transport.Link) (after : Client) : Type 0 where
  pub middle : transport.Link
  pub fragments : Fragments transport before key link 16 (joined chunks) middle
  pub more : 720 < length (joined chunks)
  pub whole : length (joined chunks) ≤ 768
  pub agreed : Agreed transport before shared_secret (message ++ joined chunks) middle later after

module _ (transport : Transport) where
  open transport use {Link}

  conclude_session-Ends :
      (link : Link) (client : Client) (writer : Writer) (shared_secret message : Bytes)
      → Represents writer.transcript message
      → Ends client
          (Agreed transport client shared_secret message link
            (conclude_session transport link client writer shared_secret).0)
          (conclude_session transport link client writer shared_secret).1
          (conclude_session transport link client writer shared_secret).2
  unfolding conclude_session
  conclude_session-Ends link client writer shared_secret message r =
      let Target : Link × Client × Result (Unit {0}) → Type 0 =
        λ t. Ends client (Agreed transport client shared_secret message link t.0) t.1 t.2 in
      let hash = sha256_final writer.transcript in
      let hashed = final-digest writer.transcript message r in
      let scheduled = derive_session_keys-schedule client.config.psk shared_secret hash in
      split_result Target _ _ _ (λ e h. inr (e, refl, refl))
        (λ keys derived.
          let given : keys ≡ schedule (handshake_secret client.config.psk shared_secret) hash =
            cc (sym derived ∙ scheduled) in
          let same : keys ≡ keys_of client shared_secret message =
            given ∙ ap (schedule (handshake_secret client.config.psk shared_secret)) hashed in
          let call = exchange_finished transport link client keys hash in
          split_result Target call.1 (λ e. (call.0, fail client, err e))
            (λ v. (call.0, establish client keys, ok tt)) (λ e h. inr (e, refl, refl))
            (λ v sent.
              let (frame, exchanged, finished) =
                exchange_finished-Agrees transport link client keys hash sent in
              inl (
                refl,
                record {
                  keys = keys;
                  scheduled = same;
                  ratchet = establish-ratchet client keys;
                  full = establish-full client keys;
                  server_frame = frame;
                  exchanged =
                      subst
                        (λ h.
                          Exchanged transport client
                            (header_bytes 5 0 16 client.session_id
                              ++ finished_of keys.device_finished_key 5 client.session_id h)
                            6 26 link frame call.0)
                        hashed exchanged;
                  finished =
                      subst
                        (λ h.
                          IsFinished (finished_of keys.server_finished_key 6 client.session_id h)
                            frame)
                        hashed finished;
                },
              )))

  pub transfer-Ends :
      (link : Link) (client : Client) (writer : Writer) (chunks : List Bytes)
      (shared_secret message : Bytes)
      → Carries message [] writer
      → Ends client
          (Transferred transport client writer.session_auth_key chunks shared_secret message link
            (transfer transport link client writer chunks shared_secret).0)
          (transfer transport link client writer chunks shared_secret).1
          (transfer transport link client writer chunks shared_secret).2
  unfolding transfer
  transfer-Ends link client writer chunks shared_secret message c =
      let Target : Link × Client × Result (Unit {0}) → Type 0 = λ t.
        Ends client
          (Transferred transport client writer.session_auth_key chunks shared_secret message link
            t.0)
          t.1 t.2 in
      let run =
        conclude_transfer transport client (write_chunks transport link client writer chunks) in
      split_result Target run.2 (λ e. (run.0, fail client, err e))
        (λ passed. conclude_session transport run.0 client run.1 shared_secret)
        (λ e h. inr (e, refl, refl))
        (λ passed h.
          let carried = transfer-Carries transport link client writer message chunks c h in
          elim (conclude_session-Ends run.0 client run.1 shared_secret (message ++ joined chunks)
            carried.0) [
              | inl (done, agreed) ↦ inl (
                done,
                record {
                  middle = run.0;
                  fragments = transfer-Fragments transport link client writer message chunks c h;
                  more = carried.1;
                  whole = carried.2;
                  agreed = agreed;
                },
              )
              | inr failed ↦ inr failed
            ])
