-- ===== src/Crypto/Blst.antt =====
-- The BLS12-381 library (crate `blst`, `min_pk`) as crates/crypto calls it. It is not part of the
-- repository: the development takes it as a parameter, with its documented laws apart.
use mev_relay_rs.Prelude.{ℕ, Bytes, Result, ok, Message, Eq, Bool, true, ◌≡◌, length}

-- `BLST_ERROR`
pub data BlstError : Type 0 where
  success : BlstError
  failure : ℕ → BlstError

pub record Bls : Type 1 where
  pub PublicKey : Type 0
  pub SecretKey : Type 0
  pub Signature : Type 0
  -- `PartialEq` of `PublicKey`
  pub pk_eq : Eq PublicKey
  pub pk_compress : PublicKey → Bytes
  pub key_validate : Bytes → Result Message PublicKey
  pub sk_to_bytes : SecretKey → Bytes
  pub sk_from_bytes : Bytes → Result Message SecretKey
  pub sk_to_pk : SecretKey → PublicKey
  -- message, domain separation tag, augmentation
  pub sk_sign : SecretKey → Bytes → Bytes → Bytes → Signature
  pub sig_compress : Signature → Bytes
  pub sig_from_bytes : Bytes → Result Message Signature
  -- group check, message, tag, augmentation, key, key check
  pub sig_verify : Signature → Bool → Bytes → Bytes → Bytes → PublicKey → Bool → BlstError

-- What the documentation of `blst` promises: sizes of compressed points, decoding of what was
-- encoded, and acceptance of a signature under the key that made it.
pub record BlsLaws (b : Bls) : Type 0 where
  pub pk_compress_length : (k : b.PublicKey) → length (b.pk_compress k) ≡ 48
  pub sk_to_bytes_length : (s : b.SecretKey) → length (b.sk_to_bytes s) ≡ 32
  pub sig_compress_length : (g : b.Signature) → length (b.sig_compress g) ≡ 96
  pub key_validate_compress :
      (s : b.SecretKey) → b.key_validate (b.pk_compress (b.sk_to_pk s)) ≡ ok (b.sk_to_pk s)
  pub sk_from_to : (s : b.SecretKey) → b.sk_from_bytes (b.sk_to_bytes s) ≡ ok s
  pub sig_from_compress : (g : b.Signature) → b.sig_from_bytes (b.sig_compress g) ≡ ok g
  pub verify_sign :
      (s : b.SecretKey) (m tag aug : Bytes)
      → b.sig_verify (b.sk_sign s m tag aug) true m tag aug (b.sk_to_pk s) true ≡ BlstError.success
