-- ===== src/Cache/Snapshot.antt =====
-- src/lru-memo-cache.ts: `serialize` and `hydrate`. The text of a snapshot is what `JSON.parse` makes of
-- it; `is_key` tells the keys that are texts or numbers.
use stream_fi_sdk.Base.{
  ℕ, ◌+◌, Bool, true, false, Option, none, some, List, [], ◌∷◌, Eq, if◌then◌else◌,
}
use stream_fi_sdk.Base.JsMap
use stream_fi_sdk.Cache.{LruMemoCache, Result, ok, throw, type_error, reached, insert}
use stream_fi_sdk.Cache.Valid.{IsValid}

pub record SerializedCacheEntry {ℓ} (K V : Type ℓ) : Type ℓ where
  pub key : K
  pub value : V
  pub expires_at : Option ℕ

pub record SerializedCache {ℓ} (K V : Type ℓ) : Type ℓ where
  pub version : ℕ
  pub max_size : ℕ
  pub entries : List (SerializedCacheEntry K V)

-- An element of `entries`: an object with a key, or anything else, which is passed over.
pub data RawEntry {ℓ} (K V : Type ℓ) : Type ℓ where
  other_value : RawEntry K V
  raw_entry : K → V → Option ℕ → RawEntry K V

-- A parsed text: whether the version is 1, and the elements of `entries` if it is an array.
pub data Parsed {ℓ} (K V : Type ℓ) : Type ℓ where
  invalid_json not_an_object : Parsed K V
  object : Bool → Option (List (RawEntry K V)) → Parsed K V

pub data Hydrated : Type 0 where
  restored : ℕ → Hydrated
  threw_syntax_error threw_type_error : Hydrated

abbrev pub add_entry {ℓ} :
    {K V : Type ℓ}
    → SerializedCacheEntry K V
    → Result (List (SerializedCacheEntry K V))
    → Result (List (SerializedCacheEntry K V))
add_entry e (ok es) = ok (e ∷ es)
add_entry e (throw x) = throw x

abbrev pub envelope {ℓ} :
    {K V : Type ℓ} → ℕ → Result (List (SerializedCacheEntry K V)) → Result (SerializedCache K V)
envelope max_size (ok es) = ok (record { version = 1; max_size = max_size; entries = es })
envelope max_size (throw x) = throw x

module _ {ℓ} {K V : Type ℓ} ⦃e : Eq K⦄ (is_key : K → Bool) where
  unfoldable pub serialize_from :
      List (K × V) → List (K × ℕ) → ℕ → Result (List (SerializedCacheEntry K V))
  serialize_from [] deadlines now = ok []
  serialize_from (p ∷ ps) deadlines now =
      let expires_at = JsMap.get p.0 deadlines in
      let rest = serialize_from ps deadlines now in
      if is_key p.0
      then if reached now expires_at
        then rest
        else add_entry (record { key = p.0; value = p.1; expires_at = expires_at }) rest
      else throw type_error

  unfoldable pub serialize : LruMemoCache K V → ℕ → Result (SerializedCache K V)
  serialize c now = envelope c.max_size (serialize_from c.store c.expires_at now)

  -- The loop over the entries; an error leaves what was inserted before it.
  unfoldable pub hydrate_from :
      LruMemoCache K V → List (RawEntry K V) → ℕ → ℕ → LruMemoCache K V × Hydrated
  hydrate_from c [] now count = (c, restored count)
  hydrate_from c (other_value ∷ raws) now count = hydrate_from c raws now count
  hydrate_from c (raw_entry key value expires_at ∷ raws) now count =
      if is_key key
      then if reached now expires_at
        then hydrate_from c raws now count
        else hydrate_from (insert c key value expires_at) raws now (count + 1)
      else (c, threw_type_error)

  unfoldable pub hydrate : LruMemoCache K V → Parsed K V → ℕ → LruMemoCache K V × Hydrated
  hydrate c invalid_json now = (c, threw_syntax_error)
  hydrate c not_an_object now = (c, threw_type_error)
  hydrate c (object false entries) now = (c, threw_type_error)
  hydrate c (object true none) now = (c, threw_type_error)
  hydrate c (object true (some raws)) now = hydrate_from c raws now 0

  Kept : LruMemoCache K V × Hydrated → Type ℓ
  Kept r = IsValid r.0
