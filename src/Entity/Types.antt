-- ===== src/Entity/Types.antt =====
-- crates/entity/src/types.rs. `B256` and `Address` are their 32 and 20 bytes, a `U256` is the number
-- below 2^256, and `TreeHash` of each is its 32-byte root.
pub mod Laws
use mev_relay_rs.Prelude.{
  ℕ, zero, suc, ◌/◌, ◌%◌, ◌^◌, Bytes, [], ◌∷◌, replicate, copy_at, Eq, Result, Message, map_err,
  bytes_eq, bytes_eq_iff,
}

abbrev pub B256 : Type 0
B256 = Bytes

abbrev pub Address : Type 0
Address = Bytes

abbrev pub U256 : Type 0
U256 = ℕ

abbrev pub b256_eq : Eq B256
b256_eq = record { beq = bytes_eq; beq_iff = bytes_eq_iff }

-- `B256::default()`, `Address::default()`
abbrev pub b256_default : B256
b256_default = replicate 32 0

abbrev pub address_default : Address
address_default = replicate 20 0

abbrev pub u64_mod : ℕ
u64_mod = 2 ^ 64

-- `to_le_bytes` of an integer of `n` bytes
unfoldable pub to_le_bytes : ℕ → ℕ → Bytes
to_le_bytes zero v = []
to_le_bytes (suc n) v = (v % 256) ∷ to_le_bytes n (v / 256)

-- The `FromStr` of the three types, over that of `alloy_primitives` and how its error is shown
unfoldable pub from_str :
    {E T : Type 0} → (Bytes → Result E T) → (E → Message) → Bytes → Result Message T
from_str parse show s = map_err (parse s) show

-- `B256::tree_hash_root`
pub b256_tree_hash_root : B256 → Bytes
b256_tree_hash_root h = h

-- `Address::tree_hash_root`, and the packed encoding, which has the same body
pub address_tree_hash_root : Address → Bytes
address_tree_hash_root a = copy_at 0 a (replicate 32 0)

-- `U256::tree_hash_root`
pub u256_tree_hash_root : U256 → Bytes
u256_tree_hash_root v = to_le_bytes 32 v
