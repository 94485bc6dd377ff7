-- ===== src/Crypto/Fork/Laws.antt =====
-- What crates/crypto/src/fork.rs promises of fork versions and signing domains.
use mev_relay_rs.Prelude.{
  list_laws, Bytes, some, ◌≡◌, ◌≢◌, refl, ◌↔◌, length, length-take, take, arith, [], ◌∷◌,
  bytes_eq_sound,
}
use mev_relay_rs.Crypto.Fork.{
  Chain, fork_version, from_fork_version, ForkData, ForkRoots, fork_builder_domain,
  fork_proposer_domain,
}

from-fork_version : (c : Chain) → from_fork_version (fork_version c) ≡ some c
unfolding from_fork_version fork_version
from-fork_version Chain.mainnet = refl
from-fork_version Chain.goerli = refl
from-fork_version Chain.holesky = refl
from-fork_version Chain.sepolia = refl
from-fork_version Chain.dev = refl

fork_version-from :
    (c : Chain) (bytes : Bytes) → from_fork_version bytes ≡ some c → bytes ≡ fork_version c
unfolding from_fork_version fork_version
fork_version-from c bytes h = ground (
  arith,
  bytes_eq_sound bytes (0x00 ∷ 0x00 ∷ 0x00 ∷ 0x00 ∷ []),
  bytes_eq_sound bytes (0x00 ∷ 0x00 ∷ 0x10 ∷ 0x20 ∷ []),
  bytes_eq_sound bytes (0x01 ∷ 0x01 ∷ 0x70 ∷ 0x00 ∷ []),
  bytes_eq_sound bytes (0x90 ∷ 0x00 ∷ 0x00 ∷ 0x69 ∷ []),
  bytes_eq_sound bytes (0x20 ∷ 0x00 ∷ 0x00 ∷ 0x89 ∷ []),
)

-- A chain is recovered from bytes exactly when they are its fork version, so no two chains share
-- one.
pub from_fork_version_iff :
    (c : Chain) (bytes : Bytes) → (from_fork_version bytes ≡ some c) ↔ (bytes ≡ fork_version c)
from_fork_version_iff c bytes = (fork_version-from c bytes, λ e. rw e (from-fork_version c))

-- A builder domain starts with 0, 0, 0, 1 and a proposer domain with four zeros; both carry on with
-- the first 28 bytes of the fork data's 32-byte root, are 32 bytes long, and differ, whatever the
-- two fork data are.
pub domains_lem :
    (h : ForkRoots) (fd fd' : ForkData)
    → length (h.fork_data_root fd) ≡ 32
    → length (h.fork_data_root fd') ≡ 32
    → (fork_builder_domain h fd ≡ 0 ∷ 0 ∷ 0 ∷ 1 ∷ take 28 (h.fork_data_root fd))
      × (fork_proposer_domain h fd' ≡ 0 ∷ 0 ∷ 0 ∷ 0 ∷ take 28 (h.fork_data_root fd'))
      × (length (fork_builder_domain h fd) ≡ 32)
      × (length (fork_proposer_domain h fd') ≡ 32)
      × (fork_builder_domain h fd ≢ fork_proposer_domain h fd')
unfolding fork_builder_domain fork_proposer_domain
domains_lem h fd fd' e e' =
    let t = length-take 28 (h.fork_data_root fd) (omega arith) in
    let t' = length-take 28 (h.fork_data_root fd') (omega arith) in
    (
      rw t (simp list_laws),
      rw t' (simp list_laws),
      rw t (simp list_laws (omega arith)),
      rw t' (simp list_laws (omega arith)),
      λ p. cc,
    )
