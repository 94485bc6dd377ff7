-- ===== src/Examples/Toy.antt =====
-- Toy instances of the libraries: keys, signatures and secret keys are numbers, and a signature is
-- valid under the key with its number.
use mev_relay_rs.Prelude.{
  ℕ, refl, Bytes, [], ◌∷◌, replicate, Option, none, some, Result, ok, err, Message, msg, nat_eq,
  ◌==◌, if◌then◌else◌, beq_refl,
}
use mev_relay_rs.Crypto.Blst.{Bls, BlsLaws, BlstError}
use mev_relay_rs.Crypto.Fork.{ForkRoots}
use mev_relay_rs.Entity.Bid.{EntityRoots}
use mev_relay_rs.Datastore.Cache.{Cache, CacheLaws, entry_value}

abbrev first_byte : Bytes → Result Message ℕ
first_byte [] = err (msg "empty")
first_byte (n ∷ rest) = ok n

abbrev pub bls : Bls
bls = record {
  PublicKey = ℕ;
  SecretKey = ℕ;
  Signature = ℕ;
  pk_eq = nat_eq;
  pk_compress = λ k. k ∷ replicate 47 0;
  key_validate = first_byte;
  sk_to_bytes = λ s. s ∷ replicate 31 0;
  sk_from_bytes = first_byte;
  sk_to_pk = λ s. s;
  sk_sign = λ s m tag aug. s;
  sig_compress = λ g. g ∷ replicate 95 0;
  sig_from_bytes = first_byte;
  sig_verify =
      λ g check m tag aug k checked. if g == k then BlstError.success else BlstError.failure 1;
}

pub bls_laws : BlsLaws bls
bls_laws = record {
  pk_compress_length = λ k. refl;
  sk_to_bytes_length = λ s. refl;
  sig_compress_length = λ g. refl;
  key_validate_compress = λ s. refl;
  sk_from_to = λ s. refl;
  sig_from_compress = λ g. refl;
  verify_sign = λ s m tag aug. rw (beq_refl nat_eq s) refl;
}

abbrev pub fork_roots : ForkRoots
fork_roots = record {
  fork_data_root = λ d. replicate 32 1;
  signing_data_root = λ d. replicate 32 2;
}

abbrev pub roots : EntityRoots bls
roots = record {
  bid_trace_root = λ t. replicate 32 3;
  registration_root = λ r. replicate 32 4;
  header_root = λ h. replicate 32 5;
  transactions_root = λ t. replicate 32 6;
  withdrawals_root = λ t. replicate 32 7;
}

-- A hash of 32 bytes that keeps the first of its input.
abbrev pub keccak : Bytes → Bytes
keccak [] = replicate 32 0
keccak (x ∷ xs) = x ∷ replicate 31 0

-- The cache that never forgets.
abbrev pub cache : {V : Type 0} → Cache V
cache {V} = record {
  State = ℕ → Option V;
  build = λ ttl k. none;
  get = λ k s. (s k, s);
  or_insert_with_if = λ k init f s.
      (entry_value (s k) init f, λ j. if k == j then some (entry_value (s k) init f) else s j);
  peek = λ s k. s k;
}

pub cache_laws : {V : Type 0} → CacheLaws (cache {V = V})
cache_laws = record {
  build_empty = λ ttl k. refl;
  get_value = λ k s. refl;
  get_keeps = λ k j s. refl;
  entry_lem = λ k init f s. refl;
  peek-entry = λ k j init f s. refl;
}
