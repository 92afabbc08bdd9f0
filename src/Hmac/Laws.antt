-- ===== src/Hmac/Laws.antt =====
-- HMAC in pieces is HMAC of the whole, and has the shape of RFC 2104.
use c0_pqlink_complete.Prelude.{
  ◌≡◌, refl, ap, ap₂, ◌∙◌, Bytes, [], ◌++◌, append_assoc, append-nil, length,
}
use c0_pqlink_complete.Sha256.{sha256_init, sha256_update, sha256_final}
use c0_pqlink_complete.Sha256.Compress.{store_digest}
use c0_pqlink_complete.Sha256.Stream.{Represents, init-Represents, update-Represents}
use c0_pqlink_complete.Sha256.Digest.{digest, final-digest}
use c0_pqlink_complete.Hmac.{
  HmacCtx, key_block, mask, hmac_sha256_init, hmac_sha256_update, hmac_sha256_final, hmac_sha256,
}

pub length-digest : (m : Bytes) → length (digest m) ≡ 32
unfolding store_digest
length-digest m = refl

-- HMAC of a message in one piece, by the digest alone.
abbrev pub hmac : Bytes → Bytes → Bytes
hmac key m = digest (mask 0x5c (key_block key) ++ digest (mask 0x36 (key_block key) ++ m))

-- The context has been given the message `m` after its key.
pub record Keyed (key : Bytes) (ctx : HmacCtx) (m : Bytes) : Type 0 where
  pub inner : Represents ctx.inner (mask 0x36 (key_block key) ++ m)
  pub outer : ctx.outer_pad ≡ mask 0x5c (key_block key)

pub init-Keyed : (key : Bytes) → Keyed key (hmac_sha256_init key) []
unfolding hmac_sha256_init
init-Keyed key = record {
  inner =
      rw (append-nil (mask 0x36 (key_block key)))
        (update-Represents sha256_init [] (mask 0x36 (key_block key)) init-Represents);
  outer = refl;
}

pub update-Keyed :
    (key : Bytes) (ctx : HmacCtx) (m input : Bytes)
    → Keyed key ctx m
    → Keyed key (hmac_sha256_update ctx input) (m ++ input)
unfolding hmac_sha256_update
update-Keyed key ctx m input k = record {
  inner =
      rw (append_assoc (mask 0x36 (key_block key)) m input) at
        (update-Represents ctx.inner (mask 0x36 (key_block key) ++ m) input k.inner);
  outer = k.outer;
}

-- The tag of a context is HMAC of all that it was given.
pub final-hmac :
    (key : Bytes) (ctx : HmacCtx) (m : Bytes) → Keyed key ctx m → hmac_sha256_final ctx ≡ hmac key m
unfolding hmac_sha256_final
final-hmac key ctx m k =
    final-digest (sha256_update (sha256_update sha256_init ctx.outer_pad) (sha256_final ctx.inner))
      (ctx.outer_pad ++ sha256_final ctx.inner)
      (update-Represents (sha256_update sha256_init ctx.outer_pad) ctx.outer_pad
        (sha256_final ctx.inner) (update-Represents sha256_init [] ctx.outer_pad init-Represents))
    ∙ ap₂ (λ pad inner. digest (pad ++ inner)) k.outer (final-digest ctx.inner _ k.inner)

-- `c0_hmac_sha256` is HMAC over the digest, for all keys and messages.
pub hmac_sha256_lem : (key m : Bytes) → hmac_sha256 key m ≡ hmac key m
unfolding hmac_sha256
hmac_sha256_lem key m =
    final-hmac key (hmac_sha256_update (hmac_sha256_init key) m) m
      (update-Keyed key (hmac_sha256_init key) [] m (init-Keyed key))

pub length-hmac_sha256 : (key m : Bytes) → length (hmac_sha256 key m) ≡ 32
length-hmac_sha256 key m = ap length (hmac_sha256_lem key m) ∙ length-digest _
