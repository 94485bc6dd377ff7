-- ===== src/UseCase/UnblindBlock/SigningRoot.antt =====
-- What the proposer's signature binds: crates/usecase/src/unblind_block.rs, its last function.
use mev_relay_rs.Prelude.{
  ℕ, ◌≡◌, ◌≢◌, ◌⊎◌, inl, inr, arith, Bytes, length, ◌++◌, append-injective, ◌<◌, bytes_eq,
  bytes_eq_iff, Bool-cases, sym, ◌∙◌,
}
use mev_relay_rs.Entity.Types.{to_le_bytes, u64_mod}
use mev_relay_rs.Entity.Types.Laws.{length-to_le_bytes, to_le_bytes-injective}
use mev_relay_rs.UseCase.UnblindBlock.{blinded_block_signing_root}

-- Two inputs that differ and have one hash.
abbrev pub Collision : (Bytes → Bytes) → Type 0
Collision keccak256 = (x : Bytes) × (y : Bytes) × (x ≢ y) × (keccak256 x ≡ keccak256 y)

equal_or_Collision :
    (keccak256 : Bytes → Bytes) (x y : Bytes)
    → keccak256 x ≡ keccak256 y
    → (x ≡ y) ⊎ Collision keccak256
equal_or_Collision keccak256 x y e = elim (Bool-cases (bytes_eq x y)) [
  | inl same ↦ inl ((bytes_eq_iff x y).0 same)
  | inr differ ↦ inr (x, y, (λ q. cc ((bytes_eq_iff x y).1 q)), e)
]

-- The first hash is over fixed-width fields, so it determines them.
fields_injective :
    (slot slot' index index' : ℕ) (hash hash' : Bytes)
    → slot < u64_mod
    → slot' < u64_mod
    → index < u64_mod
    → index' < u64_mod
    → to_le_bytes 8 slot ++ (to_le_bytes 8 index ++ hash)
      ≡ to_le_bytes 8 slot' ++ (to_le_bytes 8 index' ++ hash')
    → (slot ≡ slot') × (index ≡ index') × (hash ≡ hash')
fields_injective s s' i i' m m' hs hs' hi hi' e =
    let (p, r) =
      append-injective (to_le_bytes 8 s) _ (to_le_bytes 8 s') _
        (omega (arith, length-to_le_bytes 8 s, length-to_le_bytes 8 s')) e in
    let (q, t) =
      append-injective (to_le_bytes 8 i) _ (to_le_bytes 8 i') _
        (omega (arith, length-to_le_bytes 8 i, length-to_le_bytes 8 i')) r in
    (to_le_bytes-injective 8 s s' hs hs' p, to_le_bytes-injective 8 i i' hi hi' q, t)

-- Two requests with one signing root are the same request under the same domain, or else a collision
-- of `keccak256` is at hand. Slots and indices are below 2^64, and every hash has 32 bytes.
pub signing_root_binds :
    (keccak256 : Bytes → Bytes) (slot slot' index index' : ℕ) (hash hash' domain domain' : Bytes)
    → ((x : Bytes) → length (keccak256 x) ≡ 32)
    → slot < u64_mod
    → slot' < u64_mod
    → index < u64_mod
    → index' < u64_mod
    → blinded_block_signing_root keccak256 slot index hash domain
      ≡ blinded_block_signing_root keccak256 slot' index' hash' domain'
    → ((slot ≡ slot') × (index ≡ index') × (hash ≡ hash') × (domain ≡ domain'))
      ⊎ Collision keccak256
unfolding blinded_block_signing_root
signing_root_binds k s s' i i' m m' d d' len hs hs' hi hi' e = elim (equal_or_Collision k _ _ e) [
  | inr c ↦ inr c
  | inl outer ↦
      let (p, q) =
        append-injective (k (to_le_bytes 8 s ++ (to_le_bytes 8 i ++ m))) d
          (k (to_le_bytes 8 s' ++ (to_le_bytes 8 i' ++ m'))) d' (len _ ∙ sym (len _)) outer in
      elim (equal_or_Collision k _ _ p) [
        | inr c ↦ inr c
        | inl inner ↦
            let (x, y, z) = fields_injective s s' i i' m m' hs hs' hi hi' inner in inl (x, y, z, q)
      ]
]
