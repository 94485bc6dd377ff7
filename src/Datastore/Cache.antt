-- ===== src/Datastore/Cache.antt =====
-- The concurrent cache of crate `moka` as the auctioneer calls it, keyed by slot. It is not part of
-- the repository: its state and operations are a parameter, with its documented laws apart.
use mev_relay_rs.Prelude.{ℕ, Bool, Option, none, some, ◌≡◌, ◌⊎◌, ◌==◌, if◌then◌else◌}

pub record Cache (V : Type 0) : Type 1 where
  pub State : Type 0
  -- `Cache::builder().time_to_live(ttl).time_to_idle(ttl).build()`
  pub build : ℕ → State
  -- `get`; reading resets the idle time of the entry
  pub get : ℕ → State → Option V × State
  -- `entry(k).or_insert_with_if(init, replace_if)`: the value of the entry afterwards
  pub or_insert_with_if : ℕ → V → (V → Bool) → State → V × State
  -- What a `get` of a key would find.
  pub peek : State → ℕ → Option V

-- A stored value is replaced only where `replace_if` asks for it.
abbrev pub entry_value : {V : Type 0} → Option V → V → (V → Bool) → V
entry_value none init replace_if = init
entry_value (some old) init replace_if = if replace_if old then init else old

pub record CacheLaws {V : Type 0} (c : Cache V) : Type 0 where
  pub build_empty : (ttl k : ℕ) → c.peek (c.build ttl) k ≡ none
  pub get_value : (k : ℕ) (s : c.State) → (c.get k s).0 ≡ c.peek s k
  pub get_keeps : (k j : ℕ) (s : c.State) → c.peek (c.get k s).1 j ≡ c.peek s j
  pub entry_lem :
      (k : ℕ) (init : V) (f : V → Bool) (s : c.State)
      → (c.or_insert_with_if k init f s).0 ≡ entry_value (c.peek s k) init f
  pub peek-entry :
      (k j : ℕ) (init : V) (f : V → Bool) (s : c.State)
      → c.peek (c.or_insert_with_if k init f s).1 j
        ≡ (if k == j then some (entry_value (c.peek s k) init f) else c.peek s j)

-- Time passes: entries may expire, and nothing else changes.
abbrev pub Expires : {V : Type 0} (c : Cache V) → c.State → c.State → Type 0
Expires c s t = (k : ℕ) → (c.peek t k ≡ c.peek s k) ⊎ (c.peek t k ≡ none)
