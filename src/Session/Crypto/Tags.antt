-- ===== src/Session/Crypto/Tags.antt =====
-- The 16-byte tags: truncated HMAC of label and data, and what a successful check means.
use c0_pqlink_complete.Prelude.{
  ℕ, codes, ◌≡◌, refl, ap, ◌∙◌, sym, ◌↔◌, Bytes, [], ◌++◌, take, length, length-take, arith, Bool,
  true, false, Bool-cases, inl, inr,
}
use c0_pqlink_complete.Prelude.Arrays.{IsBytes, IsBytes-take}
use c0_pqlink_complete.Common.{Error, ok, err, err_auth, ct_equal}
use c0_pqlink_complete.Common.Secrets.{ct_equal_iff, ct_equal_self}
use c0_pqlink_complete.Sha256.Compress.{store_digest}
use c0_pqlink_complete.Sha256.Digest.{digest}
use c0_pqlink_complete.Hmac.{mask, key_block}
use c0_pqlink_complete.Hmac.Laws.{hmac, init-Keyed, update-Keyed, final-hmac, length-digest}
use c0_pqlink_complete.Session.Header.Laws.{header_bytes, header-bytes}
use c0_pqlink_complete.Session.Crypto.{auth_tag, verify_auth_tag, finished_tag}

digest-IsBytes : (m : Bytes) → IsBytes (digest m)
unfolding store_digest
digest-IsBytes m = omega arith

-- HMAC16 of the protocol description.
pub auth_tag-hmac :
    (key label message : Bytes) → auth_tag key label message ≡ take 16 (hmac key (label ++ message))
unfolding auth_tag
auth_tag-hmac key label message =
    ap (λ t. take 16 t)
      (final-hmac key _ (label ++ message)
        (update-Keyed key _ label message (update-Keyed key _ [] label (init-Keyed key))))

pub length-auth_tag : (key label message : Bytes) → length (auth_tag key label message) ≡ 16
length-auth_tag key label message = rw (auth_tag-hmac key label message) (
    omega (
      arith,
      length-take 16 (hmac key (label ++ message)),
      length-digest
          (mask 0x5c (key_block key) ++ digest (mask 0x36 (key_block key) ++ (label ++ message))),
    ))

pub auth_tag-IsBytes : (key label message : Bytes) → IsBytes (auth_tag key label message)
auth_tag-IsBytes key label message =
    rw (auth_tag-hmac key label message)
      (IsBytes-take 16 (hmac key (label ++ message)) (digest-IsBytes _))

-- A check of a 16-byte tag succeeds exactly for the tag that the key gives.
pub verify_auth_tag_iff :
    (tag key label message : Bytes)
    → length tag ≡ 16
    → IsBytes tag
    → (verify_auth_tag tag key label message ≡ ok tt) ↔ (tag ≡ auth_tag key label message)
unfolding verify_auth_tag
verify_auth_tag_iff tag key label message n b =
    elim (Bool-cases (ct_equal (auth_tag key label message) tag)) [
      | inl e ↦ rw e (λ _. sym (same.0 e), λ _. refl)
      | inr e ↦ rw e (λ h. cc, λ h. absurd (differs e (same.1 (sym h))))
    ]
  where
    same : (ct_equal (auth_tag key label message) tag ≡ true) ↔ (auth_tag key label message ≡ tag)
    same =
        ct_equal_iff (auth_tag key label message) tag (length-auth_tag key label message ∙ sym n)
          (auth_tag-IsBytes key label message) b

    differs : {t : Bool} → t ≡ false → t ≡ true → ⊥
    differs e h = cc

-- Any other outcome is C0PQLINK_ERR_AUTH.
pub verify_auth_tag_err :
    (tag key label message : Bytes) (e : Error)
    → verify_auth_tag tag key label message ≡ err e
    → e ≡ err_auth
unfolding verify_auth_tag
verify_auth_tag_err tag key label message e h = ground arith

-- The tag that the same key made is accepted.
pub verify_auth_tag_self :
    (key label message : Bytes)
    → verify_auth_tag (auth_tag key label message) key label message ≡ ok tt
unfolding verify_auth_tag
verify_auth_tag_self key label message = rw (ct_equal_self (auth_tag key label message))

-- HMAC16 of a Finished frame.
abbrev pub finished_of : Bytes → ℕ → ℕ → Bytes → Bytes
finished_of key kind session_id hash =
    take 16 (hmac key (codes "C0PQ/1 finished tag" ++ (header_bytes kind 0 16 session_id ++ hash)))

pub finished_tag-hmac :
    (key : Bytes) (kind session_id : ℕ) (hash : Bytes)
    → finished_tag key kind session_id hash ≡ finished_of key kind session_id hash
unfolding finished_tag
finished_tag-hmac key kind session_id hash =
    auth_tag-hmac key (codes "C0PQ/1 finished tag") _
    ∙ ap (λ h. take 16 (hmac key (codes "C0PQ/1 finished tag" ++ (h ++ hash))))
        (header-bytes kind 0 16 session_id (omega arith))

pub length-finished_tag :
    (key : Bytes) (kind session_id : ℕ) (hash : Bytes)
    → length (finished_tag key kind session_id hash) ≡ 16
unfolding finished_tag
length-finished_tag key kind session_id hash = length-auth_tag key (codes "C0PQ/1 finished tag") _
