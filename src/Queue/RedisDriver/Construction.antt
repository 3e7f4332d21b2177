-- ===== src/Queue/RedisDriver/Construction.antt =====
-- How a driver is made (pkg/queue/redis_driver.go, pkg/queue/redis_driver_options.go), and its cache of
-- keys, which all callers share. A clock is a parameter; `none` is a nil option or clock.
use async_queue_go.Prelude.{
  String, ◌≡◌, refl, ap, Option, none, some, List, [], ◌∷◌, arith, if◌then◌else◌, str_eq, eq_iff,
  Bool-cases, inl, inr,
}
use async_queue_go.Queue.Keys.{Keys, new_keys}

abbrev pub KeyCache : Type 0
KeyCache = String → Option Keys

pub record RedisDriver (C : Type 0) : Type 0 where
  pub clock : C
  pub key_cache : KeyCache

-- `WithRedisDriverClock`
pub data RedisDriverOption (C : Type 0) : Type 0 where
  with_clock : Option C → RedisDriverOption C

module _ {C : Type 0} where
  unfoldable pub apply_driver : Option (RedisDriverOption C) → C → C
  apply_driver (some (with_clock (some c))) clock = c
  apply_driver _ clock = clock

  unfoldable pub driver_clock : List (Option (RedisDriverOption C)) → C → C
  driver_clock [] clock = clock
  driver_clock (o ∷ options) clock = driver_clock options (apply_driver o clock)

  unfoldable pub new_redis_driver : C → List (Option (RedisDriverOption C)) → RedisDriver C
  new_redis_driver real options = record {
    clock = driver_clock options real;
    key_cache = λ channel. none;
  }

-- What is found is answered, with the cache as it is.
abbrev found_or : Keys × KeyCache → KeyCache → Option Keys → Keys × KeyCache
found_or rest cache (some k) = (k, cache)
found_or rest cache none = rest

-- `LoadOrStore`: the keys that are there by then, or else these.
unfoldable pub load_or_store : String → Keys → KeyCache → Keys × KeyCache
load_or_store channel keys cache =
    found_or (keys, λ j. if str_eq channel j then some keys else cache j) cache (cache channel)

-- What other callers store for these channels meanwhile.
unfoldable pub meanwhile : List String → KeyCache → KeyCache
meanwhile [] cache = cache
meanwhile (channel ∷ channels) cache =
    meanwhile channels (load_or_store channel (new_keys channel) cache).1

-- `getKeys`, with what others do between its two looks at the cache.
unfoldable pub get_keys : String → List String → KeyCache → Keys × KeyCache
get_keys channel others cache =
    found_or (load_or_store channel (new_keys channel) (meanwhile others cache)) cache
      (cache channel)

-- Every entry is what `NewKeys` gives.
abbrev pub IsFaithful : KeyCache → Type 0
IsFaithful cache = (channel : String) (k : Keys) → cache channel ≡ some k → k ≡ new_keys channel

abbrev IsGood : String → Keys × KeyCache → Type 0
IsGood channel (k, cache) = (k ≡ new_keys channel) × IsFaithful cache

added-IsFaithful :
    (channel : String) (cache : KeyCache)
    → IsFaithful cache
    → IsFaithful (λ j. if str_eq channel j then some (new_keys channel) else cache j)
added-IsFaithful channel cache h j k p = elim (Bool-cases (str_eq channel j)) [
  | inl e ↦ ground (arith, p, ap new_keys ((eq_iff channel j).0 e))
  | inr e ↦ ground (arith, p, h j k)
]

found_or-IsGood :
    (channel : String) (rest : Keys × KeyCache) (cache : KeyCache) (found : Option Keys)
    → IsFaithful cache
    → cache channel ≡ found
    → IsGood channel rest
    → IsGood channel (found_or rest cache found)
found_or-IsGood channel rest cache (some k) h e good = (h channel k e, h)
found_or-IsGood channel rest cache none h e good = good

load_or_store-IsGood :
    (channel : String) (cache : KeyCache)
    → IsFaithful cache
    → IsGood channel (load_or_store channel (new_keys channel) cache)
unfolding load_or_store
load_or_store-IsGood channel cache h =
    found_or-IsGood channel _ cache (cache channel) h refl (refl, added-IsFaithful channel cache h)

meanwhile-IsFaithful :
    (others : List String) (cache : KeyCache)
    → IsFaithful cache
    → IsFaithful (meanwhile others cache)
unfolding meanwhile
meanwhile-IsFaithful [] cache h = h
meanwhile-IsFaithful (channel ∷ others) cache h =
    meanwhile-IsFaithful others (load_or_store channel (new_keys channel) cache).1
      (load_or_store-IsGood channel cache h).1

-- The cache of keys is not seen: whatever callers store meanwhile, a driver's keys are those that
-- `NewKeys` gives, and every entry of the cache stays so.
pub get_keys-new_keys :
    (channel : String) (others : List String) (cache : KeyCache)
    → IsFaithful cache
    → let (k, cache') = get_keys channel others cache in (k ≡ new_keys channel) × IsFaithful cache'
unfolding get_keys
get_keys-new_keys channel others cache h =
    found_or-IsGood channel _ cache (cache channel) h refl
      (load_or_store-IsGood channel (meanwhile others cache) (meanwhile-IsFaithful others cache h))

-- A new driver has a faithful cache.
pub key_cache-new_redis_driver :
    {C : Type 0} (real : C) (options : List (Option (RedisDriverOption C)))
    → IsFaithful (new_redis_driver real options).key_cache
unfolding new_redis_driver
key_cache-new_redis_driver real options channel k p = ground arith
