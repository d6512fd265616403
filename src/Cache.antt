-- ===== src/Cache.antt =====
-- src/lru-memo-cache.ts: `LruMemoCache` over keys with an equality. The values are not `undefined`,
-- and times are whole milliseconds; a method that reads the clock takes the time.
pub mod Valid
pub mod Reads
pub mod Snapshot
pub mod Calls
use stream_fi_sdk.Base.{
  ℕ, ◌+◌, Bool, true, false, ◌&&◌, Option, none, some, List, [], ◌∷◌, ◌++◌, Eq, length, leb,
  if◌then◌else◌,
}
use stream_fi_sdk.Base.JsMap

pub record LruMemoCache {ℓ} (K V : Type ℓ) : Type ℓ where
  pub store : List (K × V)
  pub expires_at : List (K × ℕ)
  pub cache_hits : ℕ
  pub cache_misses : ℕ
  pub hit_execution_time_ms : ℕ
  pub miss_execution_time_ms : ℕ
  pub max_size : ℕ
  pub default_ttl_ms : Option ℕ

-- The errors that the methods throw.
pub data CacheError : Type 0 where
  range_error type_error : CacheError

pub data Result {ℓ} (A : Type ℓ) : Type ℓ where
  ok : A → Result A
  throw : CacheError → Result A

-- `ttlMs !== undefined && ttlMs <= 0`.
abbrev pub bad_ttl : Option ℕ → Bool
bad_ttl none = false
bad_ttl (some t) = leb t 0

pub record Options : Type 0 where
  pub max_entries : ℕ
  pub ttl_ms : Option ℕ

unfoldable pub empty {ℓ} : {K V : Type ℓ} → Options → LruMemoCache K V
empty o = record {
  store = [];
  expires_at = [];
  cache_hits = 0;
  cache_misses = 0;
  hit_execution_time_ms = 0;
  miss_execution_time_ms = 0;
  max_size = o.max_entries;
  default_ttl_ms = o.ttl_ms;
}

unfoldable pub new {ℓ} : {K V : Type ℓ} → Options → Result (LruMemoCache K V)
new o = if bad_ttl o.ttl_ms then throw range_error else ok (empty o)

abbrev pub or_else : Option ℕ → Option ℕ → Option ℕ
or_else none d = d
or_else (some t) d = some t

abbrev pub deadline : ℕ → Option ℕ → Option ℕ
deadline now none = none
deadline now (some t) = some (now + t)

abbrev pub reached : ℕ → Option ℕ → Bool
reached now none = false
reached now (some t) = leb t now

abbrev pub set_deadline {ℓ} : {K : Type ℓ} ⦃e : Eq K⦄ → K → Option ℕ → List (K × ℕ) → List (K × ℕ)
set_deadline key none m = m
set_deadline key (some t) m = JsMap.set key t m

module _ {ℓ} {K V : Type ℓ} where
  abbrev pub size : LruMemoCache K V → ℕ
  size c = length c.store

  pub record_hit : LruMemoCache K V → ℕ → LruMemoCache K V
  record_hit c elapsed_ms = record c {
    cache_hits = c.cache_hits + 1;
    hit_execution_time_ms = c.hit_execution_time_ms + elapsed_ms;
  }

  pub record_miss : LruMemoCache K V → ℕ → LruMemoCache K V
  record_miss c elapsed_ms = record c {
    cache_misses = c.cache_misses + 1;
    miss_execution_time_ms = c.miss_execution_time_ms + elapsed_ms;
  }

  pub clear : LruMemoCache K V → LruMemoCache K V
  clear c = record c {
    store = [];
    expires_at = [];
    cache_hits = 0;
    cache_misses = 0;
    hit_execution_time_ms = 0;
    miss_execution_time_ms = 0;
  }

module _ {ℓ} {K V : Type ℓ} ⦃e : Eq K⦄ where
  abbrev pub is_expired : LruMemoCache K V → K → ℕ → Bool
  is_expired c key now = reached now (JsMap.get key c.expires_at)

  unfoldable pub remove : LruMemoCache K V → K → LruMemoCache K V
  remove c key = record c {
    store = JsMap.delete key c.store;
    expires_at = JsMap.delete key c.expires_at;
  }

  -- Deleting the key and setting it again moves it to the end.
  abbrev pub refresh : LruMemoCache K V → K → Option V → LruMemoCache K V
  refresh c key none = c
  refresh c key (some value) = record c { store = JsMap.set key value (JsMap.delete key c.store) }

  unfoldable pub get : LruMemoCache K V → K → ℕ → LruMemoCache K V × Option V
  get c key now =
      if is_expired c key now
      then (remove c key, none)
      else (refresh c key (JsMap.get key c.store), JsMap.get key c.store)

  -- The first key of the store is the least recently used one.
  abbrev pub evict_oldest : LruMemoCache K V → List (K × V) → LruMemoCache K V
  evict_oldest c [] = c
  evict_oldest c (p ∷ ps) = remove c p.0

  unfoldable pub make_room : LruMemoCache K V → K → LruMemoCache K V
  make_room c key =
      if JsMap.has key c.store
      then remove c key
      else if leb c.max_size (size c)
      then evict_oldest c c.store
      else c

  unfoldable pub insert : LruMemoCache K V → K → V → Option ℕ → LruMemoCache K V
  insert c key value expires_at =
      let room = make_room c key in
      record room {
        store = JsMap.set key value room.store;
        expires_at = set_deadline key expires_at room.expires_at;
      }

  unfoldable pub set : LruMemoCache K V → K → V → Option ℕ → ℕ → Result (LruMemoCache K V)
  set c key value ttl_ms now =
      let ttl = or_else ttl_ms c.default_ttl_ms in
      if bad_ttl ttl then throw range_error else ok (insert c key value (deadline now ttl))
