-- ===== src/Crypto/Keys.antt =====
-- crates/crypto/src/{public_key,secret_key,signature}.rs: the newtypes over `blst`.
use mev_relay_rs.Prelude.{
  Bytes, Result, ok, err, Message, msg, Bool, true, false, not, ◌≡◌, length, arith, ℕ, [], codes,
  Option, none, some, ◌==◌, ◌>>=◌, if◌then◌else◌,
}
use mev_relay_rs.Crypto.Blst.{Bls, BlsLaws, BlstError}

abbrev pub public_key_bytes_len : ℕ
public_key_bytes_len = 48

abbrev pub secret_key_bytes_len : ℕ
secret_key_bytes_len = 32

abbrev pub signature_bytes_len : ℕ
signature_bytes_len = 96

-- `DST`
pub dst : Bytes
dst = codes "BLS_SIG_BLS12381G2_XMD:SHA-256_SSWU_RO_POP_"

abbrev pub BlsPublicKey : Bls → Type 0
BlsPublicKey b = b.PublicKey

abbrev pub BlsSecretKey : Bls → Type 0
BlsSecretKey b = b.SecretKey

abbrev pub BlsSignature : Bls → Type 0
BlsSignature b = b.Signature

-- `BlsPublicKey::serialize`
unfoldable pub pk_serialize : (b : Bls) → BlsPublicKey b → Bytes
pk_serialize b k = b.pk_compress k

-- `BlsPublicKey::deserialize`
unfoldable pub pk_deserialize : (b : Bls) → Bytes → Result Message (BlsPublicKey b)
pk_deserialize b bytes =
    if not (length bytes == public_key_bytes_len)
    then err (msg "invalid length")
    else b.key_validate bytes

-- `BlsPublicKey::from_secret_key`, `BlsSecretKey::public_key`
unfoldable pub from_secret_key : (b : Bls) → BlsSecretKey b → BlsPublicKey b
from_secret_key b sk = b.sk_to_pk sk

unfoldable pub public_key : (b : Bls) → BlsSecretKey b → BlsPublicKey b
unfolding from_secret_key
public_key b sk = from_secret_key b sk

-- `BlsSecretKey::random`, from the 32 bytes that the generator drew; `key_gen` is that of `blst`, with
-- an empty `key_info`. `none` is the panic of the `unwrap`.
unfoldable pub random :
    (b : Bls) → (Bytes → Bytes → Result Message b.SecretKey) → Bytes → Option (BlsSecretKey b)
random b key_gen ikm = elim (key_gen ikm []) [ ok sk ↦ some sk | err e ↦ none ]

-- `BlsSecretKey::serialize`
unfoldable pub sk_serialize : (b : Bls) → BlsSecretKey b → Bytes
sk_serialize b sk = b.sk_to_bytes sk

-- `BlsSecretKey::deserialize`. The conversion to an array cannot fail after the test.
unfoldable pub sk_deserialize : (b : Bls) → Bytes → Result Message (BlsSecretKey b)
sk_deserialize b bytes =
    if not (length bytes == secret_key_bytes_len)
    then err (msg "invalid secret key length")
    else b.sk_from_bytes bytes

-- `BlsSecretKey::sign`
unfoldable pub sk_sign : (b : Bls) → BlsSecretKey b → Bytes → BlsSignature b
sk_sign b sk m = b.sk_sign sk m dst []

-- `BlsSignature::serialize`
unfoldable pub sig_serialize : (b : Bls) → BlsSignature b → Bytes
sig_serialize b g = b.sig_compress g

-- `BlsSignature::deserialize`
unfoldable pub sig_deserialize : (b : Bls) → Bytes → Result Message (BlsSignature b)
sig_deserialize b bytes =
    if not (length bytes == signature_bytes_len)
    then err (msg "invalid signature bytes length")
    else b.sig_from_bytes bytes

unfoldable pub is_success : BlstError → Bool
is_success BlstError.success = true
is_success (BlstError.failure n) = false

-- `BlsSignature::verify`
unfoldable pub sig_verify : (b : Bls) → BlsSignature b → BlsPublicKey b → Bytes → Bool
unfolding is_success
sig_verify b g k m = is_success (b.sig_verify g true m dst [] k true)

-- `tree_hash_root` of a public key, by that of an array of 48 bytes
unfoldable pub pk_tree_hash_root : (b : Bls) → (Bytes → Bytes) → BlsPublicKey b → Bytes
unfolding pk_serialize
pk_tree_hash_root b array_root k = array_root (pk_serialize b k)

-- `alloy_primitives::hex`, which the keys and signatures are written and read with in JSON.
pub record Hex : Type 0 where
  pub encode_prefixed : Bytes → Bytes
  pub decode : Bytes → Result Message Bytes

module _ (b : Bls) (x : Hex) where
  -- `serde::Serialize` and `serde::Deserialize` of a public key and of a signature
  unfoldable pub pk_to_text : BlsPublicKey b → Bytes
  unfolding pk_serialize
  pk_to_text k = x.encode_prefixed (pk_serialize b k)

  unfoldable pub pk_from_text : Bytes → Result Message (BlsPublicKey b)
  unfolding pk_deserialize
  pk_from_text s = x.decode s >>= pk_deserialize b

  unfoldable pub sig_to_text : BlsSignature b → Bytes
  unfolding sig_serialize
  sig_to_text g = x.encode_prefixed (sig_serialize b g)

  unfoldable pub sig_from_text : Bytes → Result Message (BlsSignature b)
  unfolding sig_deserialize
  sig_from_text s = x.decode s >>= sig_deserialize b

module _ (b : Bls) (laws : BlsLaws b) where
  -- A key that was made from a secret key, a secret key and a signature are each read back from
  -- their own serialisation.
  pub deserialize-serialize :
      (sk : BlsSecretKey b) (g : BlsSignature b)
      → (pk_deserialize b (pk_serialize b (public_key b sk)) ≡ ok (public_key b sk))
        × (sk_deserialize b (sk_serialize b sk) ≡ ok sk)
        × (sig_deserialize b (sig_serialize b g) ≡ ok g)
  unfolding pk_deserialize pk_serialize public_key sk_deserialize sk_serialize sig_deserialize
      sig_serialize
  deserialize-serialize sk g = (
    rw (laws.pk_compress_length (b.sk_to_pk sk)) (laws.key_validate_compress sk),
    rw (laws.sk_to_bytes_length sk) (laws.sk_from_to sk),
    rw (laws.sig_compress_length g) (laws.sig_from_compress g),
  )

  -- The texts that stand for a public key and a signature in JSON are read back as they were.
  pub from_text-to_text :
      (x : Hex) (sk : BlsSecretKey b) (g : BlsSignature b)
      → ((bytes : Bytes) → x.decode (x.encode_prefixed bytes) ≡ ok bytes)
      → (pk_from_text b x (pk_to_text b x (public_key b sk)) ≡ ok (public_key b sk))
        × (sig_from_text b x (sig_to_text b x g) ≡ ok g)
  unfolding pk_from_text pk_to_text sig_from_text sig_to_text
  from_text-to_text x sk g decoded =
      let (key, _, signature) = deserialize-serialize sk g in
      (
        rw (decoded (pk_serialize b (public_key b sk))) key,
        rw (decoded (sig_serialize b g)) signature,
      )

  -- A signature made by a secret key verifies under that key's public key.
  pub verify-sign :
      (sk : BlsSecretKey b) (m : Bytes) → sig_verify b (sk_sign b sk m) (public_key b sk) m ≡ true
  unfolding sig_verify sk_sign public_key
  verify-sign sk m = rw (laws.verify_sign sk m dst [])

-- Whatever is accepted has exactly the length of its kind: 48, 32 and 96 bytes.
pub deserialize_length :
    (b : Bls) (bytes : Bytes)
    → ((k : BlsPublicKey b) → pk_deserialize b bytes ≡ ok k → length bytes ≡ 48)
      × ((s : BlsSecretKey b) → sk_deserialize b bytes ≡ ok s → length bytes ≡ 32)
      × ((g : BlsSignature b) → sig_deserialize b bytes ≡ ok g → length bytes ≡ 96)
unfolding pk_deserialize sk_deserialize sig_deserialize
deserialize_length b bytes = (λ k e. ground arith, λ s e. ground arith, λ g e. ground arith)
