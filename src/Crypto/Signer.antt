-- ===== src/Crypto/Signer.antt =====
-- crates/crypto/src/signer.rs: the relay's own BLS signer.
use mev_relay_rs.Prelude.{Bytes, Bool, true, ◌≡◌, Option, none, some, Result, Message}
use mev_relay_rs.Crypto.Blst.{Bls, BlsLaws}
use mev_relay_rs.Crypto.Keys.{
  BlsPublicKey, BlsSecretKey, BlsSignature, public_key, sk_sign, sig_verify, verify-sign, random,
}
use mev_relay_rs.Crypto.Fork.{
  fork_datas_default, ForkDatas, ForkName, ForkRoots, compute_builder_domain, signing_root,
}

pub record BlsSigner (b : Bls) : Type 0 where
  pub secret_key : BlsSecretKey b
  pub fork_data : ForkDatas
  pub fork_name : ForkName

-- `BlsSigner::default`, with the 32 bytes that its random key is drawn from; `none` is a panic.
unfoldable pub default_signer :
    {b : Bls} → (Bytes → Bytes → Result Message b.SecretKey) → Bytes → Option (BlsSigner b)
unfolding random
default_signer {b} key_gen ikm = elim (random b key_gen ikm) [
  | none ↦ none
  | some secret_key ↦ some (record {
    secret_key = secret_key;
    fork_data = fork_datas_default;
    fork_name = ForkName.electra;
  })
]

-- `BlsSigner::new`
unfoldable pub new_signer : {b : Bls} → BlsSecretKey b → ForkDatas → ForkName → BlsSigner b
new_signer secret_key fork_data fork_name = record {
  secret_key = secret_key;
  fork_data = fork_data;
  fork_name = fork_name;
}

module _ (b : Bls) (h : ForkRoots) where
  -- `BlsSigner::sign`
  unfoldable pub sign : {T : Type 0} → (T → Bytes) → BlsSigner b → T → BlsSignature b
  sign root s message =
      sk_sign b s.secret_key (signing_root h root message (compute_builder_domain h s.fork_data))

  -- `BlsSigner::verify`
  unfoldable pub verify :
      {T : Type 0} → (T → Bytes) → BlsSigner b → BlsSignature b → BlsPublicKey b → T → Bool
  verify root s sig pubkey message =
      sig_verify b sig pubkey (signing_root h root message (compute_builder_domain h s.fork_data))

-- `BlsSigner::public_key`
unfoldable pub signer_public_key : (b : Bls) → BlsSigner b → BlsPublicKey b
signer_public_key b s = public_key b s.secret_key

-- What a signer signs, any signer with the same fork data accepts under the first one's public key.
pub verify-sign_message :
    (b : Bls) (laws : BlsLaws b) (h : ForkRoots) {T : Type 0} (root : T → Bytes) (s t : BlsSigner b)
    (message : T)
    → s.fork_data ≡ t.fork_data
    → verify b h root t (sign b h root s message) (signer_public_key b s) message ≡ true
unfolding sign verify signer_public_key
verify-sign_message b laws h root s t message same = rw (← same) (verify-sign b laws s.secret_key _)
