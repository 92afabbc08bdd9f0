-- ===== src/Session/Client.antt =====
-- include/c0pqlink/client.h: the client's configuration and its live context. The callbacks of the
-- configuration are the environment of the operations that call them.
use c0_pqlink_complete.Prelude.{ℕ, Bytes, Bool, true, false}

-- `c0pq_session_mode`, kept as a number: `c0pq_client_init` refuses any other.
abbrev pub full_pq_each_session : ℕ
full_pq_each_session = 0

abbrev pub pq_bootstrap_ratchet : ℕ
pq_bootstrap_ratchet = 1

pub data ClientState : Type 0 where
  uninitialized ready connecting established failed : ClientState

abbrev pub is_established : ClientState → Bool
is_established established = true
is_established _ = false

abbrev pub is_ready : ClientState → Bool
is_ready ready = true
is_ready _ = false

pub record Config : Type 0 where
  pub device_id : Bytes
  pub psk : Bytes
  pub epoch : ℕ
  pub public_key_id : Bytes
  pub mode : ℕ
  pub timeout_ms : ℕ
  pub maximum_retries : ℕ

-- `c0pq_client`. In the full mode only the first 16 bytes of a secret are a key.
pub record Client : Type 0 where
  pub config : Config
  pub state : ClientState
  pub session_id : ℕ
  pub send_secret : Bytes
  pub receive_secret : Bytes
  pub send_nonce_base : Bytes
  pub receive_nonce_base : Bytes
  pub send_sequence : ℕ
  pub receive_sequence : ℕ
