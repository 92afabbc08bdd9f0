-- ===== src/Lib.antt =====
-- C0-PQLink: a session layer for small devices, with a post-quantum key exchange under a
-- pre-shared key. A client sends a Hello, checks the authenticated Challenge of the server,
-- transfers an ML-KEM ciphertext in fragments and exchanges Finished tags; the keys of the session
-- then protect application records, each under a nonce of its sequence number, with an optional
-- key ratchet for each record. A journal of two slots keeps the migration state of the device over
-- power loss.
--
-- The files, and the code that each is about:
--   Common         include/c0pqlink/common.h, and c0pqlink_secure_zero and c0pqlink_ct_equal of
--                  src/core/mlkem512_stream.c. A status code with what is stored through the out
--                  parameters is a `Result`.
--   Wire           the big-endian integers of src/session/crypto.c (c0pq_store16_be ...).
--   Sha256, Hmac   src/core/sha256.c: the compression function, the streaming contexts, HMAC, HKDF.
--                  Sha256/Digest and Hmac/Laws hold the specifications without streaming.
--   Session/Header, Session/Preflight
--                  src/session/preflight.c: the frame header, Hello and Challenge.
--   Session/Crypto src/session/crypto.c: tags, the transcript and the key schedule.
--   Session/Client include/c0pqlink/client.h: the configuration and the live client.
--   Ascon          src/core/ascon_aead128.c: the permutation, encryption and decryption.
--   Keccak         src/core/keccak.c: the permutation and the sponge of SHA-3 and SHAKE.
--   Mlkem          src/core/mlkem512_stream.c: the multiplications and reductions of coefficients,
--                  and the compression and packing of the ciphertext. A signed machine integer is its
--                  bit pattern.
--   Mlkem/Transform, Mlkem/Sample, Mlkem/Encapsulate
--                  the same file: the number-theoretic transforms; the sampling from SHAKE; and
--                  c0_mlkem512_encapsulate_derand, which hands its arrays to a writer. A key that
--                  is read byte by byte is an array. Mlkem/Multiply, Mlkem/Montgomery,
--                  Mlkem/Product and Mlkem/Barrett are about the arithmetic of coefficients.
--                  Transform/Reference and Transform/Inverse have the transforms of FIPS 203 on
--                  residues, Transform/Pairs the products of pairs, Encapsulate/Scheme its
--                  encryption over whole polynomials, with the transforms of the code, and
--                  Sample/Matrix the polynomials that the code samples in pieces. Sample/Uniform has
--                  the sampling of FIPS 203.
--   Session/Aead   what the records use of include/c0pqlink/ascon_aead128.h, as an interface, which
--                  Ascon fills (Session/Aead/Instance).
--   Session/Ratchet
--                  src/session/ratchet.c: c0pq_client_seal_record, c0pq_client_open_record.
--                  Ratchet/Sealing has the frame of a record by itself.
--   Session/Migration
--                  src/session/migration.c: the journal, over the storage callbacks.
--   Session/Fragment
--                  src/session/fragment.c: c0pq_client_init, c0pq_client_close, send_and_receive.
--                  Fragment/Traffic has its calls of the callbacks.
--   Session/Handshake
--                  src/session/fragment.c: the ciphertext writer (write_ciphertext and
--                  flush_ciphertext_fragment), exchange_finished and c0pq_client_connect.
--                  Transfer/Sending has the fragments on the link, Connect/Delivery those of a
--                  whole transfer, and Connect/Finished the Finished frames.
--   Prelude        numbers, lists, bits and arrays. The Tests modules run the code.
--
-- How the code is modelled. Integers are natural numbers, with the reduction of their C type
-- written out where the code can exceed it (u8, u32, u64). Arrays are lists of byte values; a
-- pointer argument is the array it points to, so the tests for NULL do not occur, nor do those of
-- c0pq_client_init for its callbacks. An operation on a context takes and returns the record of its
-- fields. Callbacks are parameters: the storage
-- of the journal is the record `Storage`, and what its documentation promises is `IsTwoSlot`: a
-- write, also one that fails, touches its own slot only. What a read returns, also its failure, is a
-- function of the stored contents: a read that fails once and succeeds later does not occur. The
-- transport is the record `Transport`, over the state of the link. send_and_receive makes one attempt more than the
-- retries of the configuration. In the full mode only the first 16 bytes of a client's secret
-- are a key. The loop over whole blocks in c0_sha256_update and the loop of
-- c0_hkdf_sha256_expand run on a fuel that is the length of the input and the number of bytes
-- wanted; each pass takes at least one byte, which Sha256/Stream and Hmac/Expand use. The loops
-- of Ascon run on the length of their text and one more, the loop of write_ciphertext on the
-- length of its data. The loop of sample_ntt_next has no bound in the code: it runs on a fuel, and a
-- run that needs more is `none`. The handshake takes c0_mlkem512_encapsulate_derand as the record
-- `Kem`: for a public key and 32 random bytes, the arrays that it hands to the ciphertext writer and
-- the shared secret. Mlkem/Encapsulate computes these under fuel, and so the record is not filled
-- with it: the handshake is stated for any encapsulation. A client draws randomness from the
-- record `Rng`.
--
-- Not modelled: the bindings for Arduino and MicroPython, the JavaScript peer, and
-- the firmware under NanoPQ-SecureLink-1.0.0. Erasing local buffers has no effect that a value
-- can show, and timing is outside the model.
mod Prelude
pub mod Common
pub mod Wire
pub mod Sha256
pub mod Hmac
pub mod Ascon
pub mod Keccak
pub mod Mlkem
pub mod Session
mod Tests
