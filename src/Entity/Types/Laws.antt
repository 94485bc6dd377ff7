-- ===== src/Entity/Types/Laws.antt =====
-- Encodings of crates/entity/src/types.rs: their lengths, and that they lose nothing.
use native.Mathlib.Nat.{pow-suc}
use mev_relay_rs.Prelude.{
  ℕ, zero, suc, ◌/◌, ◌^◌, ◌<◌, ◌≡◌, refl, Bytes, ◌∷◌, length, append-injective, arith,
}
use mev_relay_rs.Entity.Types.{to_le_bytes, address_tree_hash_root}

pub length-to_le_bytes : (n v : ℕ) → length (to_le_bytes n v) ≡ n
unfolding to_le_bytes
length-to_le_bytes zero v = refl
length-to_le_bytes (suc n) v = omega (arith, length-to_le_bytes n (v / 256))

head_eq : {a b : ℕ} {r s : Bytes} → a ∷ r ≡ b ∷ s → (a ≡ b) × (r ≡ s)
head_eq e = (cc, cc)

-- Little-endian bytes determine the number, up to the width.
pub to_le_bytes-injective :
    (n v w : ℕ) → v < 256 ^ n → w < 256 ^ n → to_le_bytes n v ≡ to_le_bytes n w → v ≡ w
unfolding to_le_bytes
to_le_bytes-injective zero v w hv hw e = omega arith
to_le_bytes-injective (suc n) v w hv hw e =
    let (low, rest) = head_eq e in
    let quotients =
      to_le_bytes-injective n (v / 256) (w / 256) (omega (arith, pow-suc 256 n))
        (omega (arith, pow-suc 256 n)) rest in
    omega arith

-- Padding an address to 32 bytes keeps it apart from every other address.
pub address_tree_hash_root-injective :
    (a c : Bytes)
    → length a ≡ 20
    → length c ≡ 20
    → address_tree_hash_root a ≡ address_tree_hash_root c
    → a ≡ c
unfolding address_tree_hash_root
address_tree_hash_root-injective a c ha hc e = (append-injective a _ c _ (omega arith) e).0
