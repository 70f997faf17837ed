-- ===== src/Cache/Bounds.antt =====
-- The cap of the cache, and what a read sees after a write (shared/cache.ts).
use delta_agents.Common.{
  ℕ, ◌+◌, ◌≤◌, ◌<◌, String, ◌≡◌, ◌⊎◌, ap, refl, true, Option, none, some, List, [], ◌∷◌, arith,
  eq_iff, eq_refl, ltb, length, Bool-cases, Option-cases, inl, inr, is_some,
}
use delta_agents.Common.Dict
use delta_agents.Common.Dict.{get-put, get-remove, length-put, length-remove}
use delta_agents.Cache.{
  CacheConfig, CacheEntry, Cache, oldest, find_eviction_key, key_of, is_expired, evict_expired,
  delete, has_found, has, drop_victim, entry, get_found, get, insert_new, set_found, set,
}

module _ {V : Type 0} where
  length-put-stored :
      (c : Cache V) (k : String) (e x : CacheEntry V)
      → Dict.get c k ≡ some x
      → length (Dict.put c k e) ≡ length c
  unfolding Dict.put Dict.get
  length-put-stored [] k e x h = absurd (ground arith)
  length-put-stored ((j, y) ∷ c) k e x h = ground (arith, length-put-stored c k e x)

  length-remove-stored :
      (c : Cache V) (k : String) (x : CacheEntry V)
      → Dict.get c k ≡ some x
      → length (Dict.remove c k) + 1 ≤ length c
  unfolding Dict.remove Dict.get
  length-remove-stored [] k x h = absurd (ground arith)
  length-remove-stored ((j, y) ∷ c) k x h =
      ground (arith, length-remove-stored c k x, length-remove c k)

  -- the scan ends with what it had, or with an entry of the cache
  oldest-stored :
      (c : Cache V) (key : String) (access : ℕ)
      → (r : String × ℕ) × (oldest (some (key, access)) c ≡ some r)
        × ((r.0 ≡ key) ⊎ (is_some (Dict.get c r.0) ≡ true))
  unfolding oldest Dict.get
  oldest-stored [] key access = ((key, access), refl, inl refl)
  oldest-stored ((k, e) ∷ c) key access = elim (Bool-cases (ltb e.last_access access)) [
    | inl older ↦ rw older (
        let (r, found, stored) = oldest-stored c k e.last_access in
        (r, found, inr (ground (arith, eq_iff k r.0, eq_refl k))))
    | inr newer ↦ rw newer (
        let (r, found, stored) = oldest-stored c key access in
        (r, found, elim stored [ inl same ↦ inl same | inr there ↦ inr (ground arith) ]))
  ]

  -- of a cache with an entry, a stored key is evicted
  find_eviction_key-stored :
      (k : String) (e : CacheEntry V) (c : Cache V)
      → (key : String) × (x : CacheEntry V) × (find_eviction_key ((k, e) ∷ c) ≡ some key)
        × (Dict.get ((k, e) ∷ c) key ≡ some x)
  unfolding find_eviction_key key_of oldest Dict.get
  find_eviction_key-stored k e c =
      let (r, found, stored) = oldest-stored c k e.last_access in
      let there : is_some (Dict.get ((k, e) ∷ c) r.0) ≡ true = elim stored [
        | inl same ↦ ground (arith, eq_iff k r.0)
        | inr later ↦ ground (arith, eq_iff k r.0)
      ] in
      elim (Option-cases (Dict.get ((k, e) ∷ c) r.0)) [
        | inl missing ↦ absurd (ground arith)
        | inr (x, at) ↦ (r.0, x, ap key_of found, at)
      ]

  -- an eviction makes room where there is an entry
  length-drop_victim :
      (c : Cache V) → 0 < length c → length (drop_victim (find_eviction_key c) c) + 1 ≤ length c
  unfolding drop_victim
  length-drop_victim [] h = absurd (omega (arith, h))
  length-drop_victim ((k, e) ∷ c) h =
      let (key, x, chosen, stored) = find_eviction_key-stored k e c in
      rw (chosen, drop_victim) (length-remove-stored ((k, e) ∷ c) key x stored)

  length-evict_expired :
      (t : ℕ) (c : Cache V) → (evict_expired t c).0 + length (evict_expired t c).1 ≡ length c
  unfolding evict_expired
  length-evict_expired t [] = omega arith
  length-evict_expired t ((k, e) ∷ c) = ground (arith, length-evict_expired t c)

pub data Operation (V : Type 0) : Type 0 where
  getting having deleting : String → Operation V
  setting : String → V → Operation V
  sweeping clearing : Operation V

module _ {V : Type 0} (config : CacheConfig) where
  -- an operation at a time
  pub run_operation : ℕ → Operation V → Cache V → Cache V
  run_operation t (getting key) c = (get config t key c).1
  run_operation t (having key) c = (has t key c).1
  run_operation t (deleting key) c = delete key c
  run_operation t (setting key value) c = set config t key value c
  run_operation t sweeping c = (evict_expired t c).1
  run_operation t clearing c = []

  pub run_operations : List (ℕ × Operation V) → Cache V → Cache V
  unfolding run_operation
  run_operations [] c = c
  run_operations ((t, o) ∷ os) c = run_operations os (run_operation t o c)

  get_found-bounded :
      (found : Option (CacheEntry V)) (t : ℕ) (key : String) (c : Cache V)
      → Dict.get c key ≡ found
      → length (get_found config found t key c).1 ≤ length c
  unfolding get_found
  get_found-bounded none t key c h = omega arith
  get_found-bounded (some x) t key c h = elim (Bool-cases (is_expired t x)) [
    | inl old ↦ rw old (length-remove c key)
    | inr live ↦ rw live (omega (arith, length-put-stored c key (entry config t x.value) x h))
  ]

  has_found-bounded :
      (found : Option (CacheEntry V)) (t : ℕ) (key : String) (c : Cache V)
      → length (has_found found t key c).1 ≤ length c
  unfolding has_found
  has_found-bounded none t key c = omega arith
  has_found-bounded (some x) t key c = elim (Bool-cases (is_expired t x)) [
    | inl old ↦ rw old (length-remove c key)
    | inr live ↦ rw live (omega arith)
  ]

  insert_new-bounded :
      (t : ℕ) (key : String) (value : V) (c : Cache V)
      → length c ≤ config.max_entries
      → length (insert_new config t key value c) ≤ config.max_entries
  unfolding insert_new
  insert_new-bounded t key value c h =
      let inserted = Dict.put c key (entry config t value) in
      let longer = length-put c key (entry config t value) in
      elim (Bool-cases (ltb config.max_entries (length inserted))) [
        | inl full ↦ rw full (omega (arith, h, longer, length-drop_victim inserted (ground arith)))
        | inr room ↦ rw room (ground arith)
      ]

  set_found-bounded :
      (found : Option (CacheEntry V)) (t : ℕ) (key : String) (value : V) (c : Cache V)
      → Dict.get c key ≡ found
      → length c ≤ config.max_entries
      → length (set_found config found t key value c) ≤ config.max_entries
  unfolding set_found
  set_found-bounded none t key value c e h = insert_new-bounded t key value c h
  set_found-bounded (some x) t key value c e h =
      omega (arith, h, length-put-stored c key (entry config t value) x e)

  run_operation-bounded :
      (t : ℕ) (o : Operation V) (c : Cache V)
      → length c ≤ config.max_entries
      → length (run_operation t o c) ≤ config.max_entries
  unfolding run_operation get has delete set
  run_operation-bounded t (getting key) c h =
      omega (arith, h, get_found-bounded (Dict.get c key) t key c refl)
  run_operation-bounded t (having key) c h =
      omega (arith, h, has_found-bounded (Dict.get c key) t key c)
  run_operation-bounded t (deleting key) c h = omega (arith, h, length-remove c key)
  run_operation-bounded t (setting key value) c h =
      set_found-bounded (Dict.get c key) t key value c refl h
  run_operation-bounded t sweeping c h = omega (arith, h, length-evict_expired t c)
  run_operation-bounded t clearing c h = omega arith

  -- Whatever is done at whatever times, a cache within its cap stays within it.
  pub run_operations-bounded :
      (os : List (ℕ × Operation V)) (c : Cache V)
      → length c ≤ config.max_entries
      → length (run_operations os c) ≤ config.max_entries
  unfolding run_operations
  run_operations-bounded [] c h = h
  run_operations-bounded ((t, o) ∷ os) c h =
      run_operations-bounded os (run_operation t o c) (run_operation-bounded t o c h)
