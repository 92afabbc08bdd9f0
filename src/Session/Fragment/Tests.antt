-- ===== src/Session/Fragment/Tests.antt =====
-- A link that loses the first reply, and a client that starts and is closed.
use c0_pqlink_complete.Prelude.{
  ℕ, zero, suc, ◌≡◌, ◌≢◌, ◌↔◌, ◌⊎◌, refl, Bytes, [], ◌∷◌, ◌++◌, true, replicate,
}
use c0_pqlink_complete.Common.{ok, err, err_argument, err_state, secure_zero}
use c0_pqlink_complete.Session.Header.{FrameHeader, encode_header, decode_header, written}
use c0_pqlink_complete.Wire.{store32_be, load32_be}
use c0_pqlink_complete.Session.Aead.Instance.{ascon_aead}
use c0_pqlink_complete.Session.Client.{Client, Config, established}
use c0_pqlink_complete.Session.Ratchet.{seal_record, open_record}
use c0_pqlink_complete.Session.Fragment.{
  Transport, delivered, missed, client_init, client_close, send_and_receive, accepts, judge,
  attempt_once, attempt_loop,
}
use c0_pqlink_complete.Session.Fragment.Exchange.{send_and_receive-checks}
use c0_pqlink_complete.Session.Fragment.Lifecycle.{client_init_iff, client_close-err_state}

abbrev config : Config
config = record {
  device_id = replicate 8 1;
  psk = replicate 32 2;
  epoch = 1;
  public_key_id = replicate 16 3;
  mode = 1;
  timeout_ms = 0;
  maximum_retries = 2;
}

abbrev client : Client
client = record {
  config = config;
  state = established;
  session_id = 77;
  send_secret = replicate 32 4;
  receive_secret = replicate 32 5;
  send_nonce_base = replicate 16 6;
  receive_nonce_base = replicate 16 7;
  send_sequence = 0;
  receive_sequence = 0;
}

client_init_iff_example :
    (((client_init client config).1 ≡ ok tt) ↔ (
      (replicate 32 2 ≢ secure_zero 32)
      × (replicate 16 3 ≢ secure_zero 16)
      × ((config.mode ≡ 0) ⊎ (config.mode ≡ 1))))
    × (((client_init client config).1 ≡ ok tt)
        ⊎ (client_init client config ≡ (client, err err_argument)))
client_init_iff_example = client_init_iff client config

client_close-err_state_example :
    (seal_record ascon_aead (client_close client) (1 ∷ []) 64
      ≡ (client_close client, err err_state))
    × (open_record ascon_aead (client_close client) (replicate 44 0) 44 48
        ≡ (client_close client, err err_state))
client_close-err_state_example =
    client_close-err_state ascon_aead client (1 ∷ []) (replicate 44 0) 64 44 48

abbrev reply : Bytes
reply = written (encode_header 4 0 18 77) ++ replicate 18 0

-- The link counts the receptions; only the second one brings the reply.
abbrev lossy : Transport
lossy = record {
  Link = ℕ;
  send_frame = λ link frame. (link, true);
  receive_frame = λ link frame capacity timeout. elim link [
    | zero ↦ (1, missed frame)
    | suc n ↦ (suc n, delivered reply 28)
  ];
}

answered : (send_and_receive lossy 0 client (replicate 96 0) 60 4 28).2 ≡ ok tt
unfolding send_and_receive attempt_loop attempt_once judge accepts encode_header decode_header
    store32_be load32_be
answered = refl

send_and_receive-checks_example :
    (header : FrameHeader) × (decode_header
        (send_and_receive lossy 0 client (replicate 96 0) 60 4 28).1
        28
      ≡ ok header)
    × (header.frame_type ≡ 4)
    × (header.session_id ≡ 77)
send_and_receive-checks_example =
    send_and_receive-checks lossy 0 client (replicate 96 0) 60 4 28 answered
