-- ===== src/Cache.antt =====
-- packages/delta/src/shared/cache.ts: the cache that is bounded by its entries and by their age, with string
-- keys. `t` is the reading of the clock in an operation; one stands for all that an operation takes.
pub mod Bounds
use delta_agents.Common.{
  ℕ, ◌+◌, String, Bool, true, false, Option, none, some, List, [], ◌∷◌, ltb, leb, length,
  if◌then◌else◌,
}
use delta_agents.Common.Dict
use delta_agents.Common.Dict.{Dict}

pub record CacheConfig : Type 0 where
  pub max_entries : ℕ
  pub ttl_ms : ℕ

abbrev pub default_config : CacheConfig
default_config = record { max_entries = 1000; ttl_ms = 300000 }

pub record CacheEntry (V : Type 0) : Type 0 where
  pub value : V
  pub last_access : ℕ
  pub expires_at : ℕ

abbrev pub Cache : Type 0 → Type 0
Cache V = Dict (CacheEntry V)

unfoldable pub key_of : Option (String × ℕ) → Option String
key_of none = none
key_of (some (key, access)) = some key

module _ {V : Type 0} where
  -- the smallest `lastAccess` so far, with the first key that has it
  unfoldable pub oldest : Option (String × ℕ) → Cache V → Option (String × ℕ)
  oldest best [] = best
  oldest none ((k, e) ∷ rest) = oldest (some (k, e.last_access)) rest
  oldest (some (key, access)) ((k, e) ∷ rest) =
      oldest (if ltb e.last_access access then some (k, e.last_access) else some (key, access)) rest

  unfoldable pub find_eviction_key : Cache V → Option String
  unfolding key_of
  find_eviction_key c = key_of (oldest none c)

  unfoldable pub is_expired : ℕ → CacheEntry V → Bool
  is_expired t e = leb e.expires_at t

  -- `evictExpired`, with the number of the entries that go
  unfoldable pub evict_expired : ℕ → Cache V → ℕ × Cache V
  evict_expired t [] = (0, [])
  evict_expired t ((k, e) ∷ rest) =
      let (removed, kept) = evict_expired t rest in
      if is_expired t e then (removed + 1, kept) else (removed, (k, e) ∷ kept)

  unfoldable pub delete : String → Cache V → Cache V
  delete key c = Dict.remove c key

  has_found : Option (CacheEntry V) → ℕ → String → Cache V → Bool × Cache V
  has_found none t key c = (false, c)
  has_found (some e) t key c = if is_expired t e then (false, Dict.remove c key) else (true, c)

  -- a hit of `has` does not refresh the entry
  unfoldable pub has : ℕ → String → Cache V → Bool × Cache V
  unfolding has_found
  has t key c = has_found (Dict.get c key) t key c

  drop_victim : Option String → Cache V → Cache V
  drop_victim none c = c
  drop_victim (some victim) c = Dict.remove c victim

  module _ (config : CacheConfig) where
    unfoldable pub entry : ℕ → V → CacheEntry V
    entry t value = record { value = value; last_access = t; expires_at = t + config.ttl_ms }

    get_found : Option (CacheEntry V) → ℕ → String → Cache V → Option V × Cache V
    get_found none t key c = (none, c)
    get_found (some e) t key c =
        if is_expired t e
        then (none, Dict.remove c key)
        else (some e.value, Dict.put c key (entry t e.value))

    unfoldable pub get : ℕ → String → Cache V → Option V × Cache V
    unfolding get_found
    get t key c = get_found (Dict.get c key) t key c

    -- the cap is exact: the eviction comes after the insertion
    insert_new : ℕ → String → V → Cache V → Cache V
    unfolding drop_victim
    insert_new t key value c =
        let inserted = Dict.put c key (entry t value) in
        if ltb config.max_entries (length inserted)
        then drop_victim (find_eviction_key inserted) inserted
        else inserted

    set_found : Option (CacheEntry V) → ℕ → String → V → Cache V → Cache V
    unfolding insert_new
    set_found none t key value c = insert_new t key value c
    set_found (some existing) t key value c = Dict.put c key (entry t value)

    unfoldable pub set : ℕ → String → V → Cache V → Cache V
    unfolding set_found
    set t key value c = set_found (Dict.get c key) t key value c
