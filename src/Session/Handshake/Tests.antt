-- ===== src/Session/Handshake/Tests.antt =====
-- A client that greets an echoing link, and a writer that gets its data in pieces.
use c0_pqlink_complete.Prelude.{
  joined, ℕ, suc, List, ◌<◌, ◌≤◌, ◌≡◌, ◌⊎◌, refl, Bytes, [], ◌∷◌, ◌++◌, true, false, replicate,
  some, length, arith, codes,
}
use c0_pqlink_complete.Common.{ok, err, Error, err_state, secure_zero}
use c0_pqlink_complete.Sha256.Stream.{Represents}
use c0_pqlink_complete.Session.Crypto.{transcript_init}
use c0_pqlink_complete.Session.Crypto.Schedule.{init_transcript}
use c0_pqlink_complete.Session.Client.{Client, ready, failed, is_ready}
use c0_pqlink_complete.Session.Fragment.{Transport, delivered}
use c0_pqlink_complete.Session.Handshake.{Writer, Rng, Kem, write_loop, write_chunks}
use c0_pqlink_complete.Session.Handshake.Transfer.Sending.{Fragments}
use c0_pqlink_complete.Session.Handshake.Transfer.Fuel.{write_loop_enough}
use c0_pqlink_complete.Session.Handshake.Connect.{fresh_writer, conclude_transfer, client_connect}
use c0_pqlink_complete.Session.Handshake.Connect.Chunks.{Carries}
use c0_pqlink_complete.Session.Handshake.Connect.Delivery.{transfer-outcomes}
use c0_pqlink_complete.Session.Handshake.Connect.Agreement.{Connected, client_connect-outcomes}

abbrev device : Client
device = record {
  config = record {
    device_id = replicate 8 1;
    psk = replicate 32 2;
    epoch = 1;
    public_key_id = replicate 16 3;
    mode = 1;
    timeout_ms = 3000;
    maximum_retries = 1;
  };
  state = ready;
  session_id = 0;
  send_secret = secure_zero 32;
  receive_secret = secure_zero 32;
  send_nonce_base = secure_zero 16;
  receive_nonce_base = secure_zero 16;
  send_sequence = 0;
  receive_sequence = 0;
}

-- The link returns the last frame that it was given.
abbrev echo : Transport
echo = record {
  Link = Bytes;
  send_frame = λ link frame. (frame, true);
  receive_frame = λ link frame capacity timeout. (link, delivered link (length link));
}

abbrev counter : Rng
counter = record {
  Source = ℕ;
  random_bytes = λ source size. (suc source, some (replicate size source));
}

abbrev plain : Kem
plain = record {
  encapsulate = λ public_key randomness. ok (public_key ∷ (randomness ∷ []), randomness);
}

abbrev fresh : Writer
fresh = fresh_writer transcript_init (replicate 32 9)

fresh-Carries : Carries (codes "C0PQ/1 transcript") [] fresh
fresh-Carries = record {
  filling = record { counted = refl; short = omega arith; few = omega arith; sound = refl };
  transcript = init_transcript;
}

client_connect-outcomes_example :
    (((client_connect echo counter plain [] 7 device (replicate 736 5)).3 ≡ ok tt)
      × Connected echo counter plain
          (replicate 736 5)
          []
          (client_connect echo counter plain [] 7 device (replicate 736 5)).0
          7
          device
          (client_connect echo counter plain [] 7 device (replicate 736 5)).2)
    ⊎ ((is_ready ready ≡ false)
        × (client_connect echo counter plain [] 7 device (replicate 736 5)
            ≡ ([], 7, device, err err_state)))
    ⊎ ((is_ready ready ≡ true)
        × (code : Error) × (session_id : ℕ) × ((client_connect echo counter plain [] 7 device
              (replicate 736 5)).3
            ≡ err code)
        × ((client_connect echo counter plain [] 7 device (replicate 736 5)).2 ≡ record device {
          state = failed;
          session_id = session_id;
          send_secret = replicate 32 0;
          receive_secret = replicate 32 0;
          send_nonce_base = replicate 16 0;
          receive_nonce_base = replicate 16 0;
        }))
client_connect-outcomes_example =
    client_connect-outcomes echo counter plain [] 7 device (replicate 736 5)

write_loop_enough_example :
    write_loop echo 70 [] device fresh (replicate 60 4)
    ≡ write_loop echo 60 [] device fresh (replicate 60 4)
write_loop_enough_example =
    write_loop_enough echo 70 [] device fresh (replicate 60 4) (omega arith) (omega arith)

abbrev pieces : List Bytes
pieces = replicate 736 5 ∷ (replicate 32 8 ∷ [])

transfer-outcomes_example :
    (((conclude_transfer echo device (write_chunks echo [] device fresh pieces)).2 ≡ ok tt)
      × Fragments echo device
          (replicate 32 9)
          []
          16
          (joined pieces)
          (conclude_transfer echo device (write_chunks echo [] device fresh pieces)).0
      × Represents
          (conclude_transfer echo device (write_chunks echo [] device fresh pieces)).1.transcript
          (codes "C0PQ/1 transcript" ++ joined pieces)
      × (720 < length (joined pieces))
      × (length (joined pieces) ≤ 768))
    ⊎ ((code : Error) × ((conclude_transfer echo device
            (write_chunks echo [] device fresh pieces)).2
          ≡ err code))
transfer-outcomes_example =
    transfer-outcomes echo [] device fresh (codes "C0PQ/1 transcript") pieces fresh-Carries
