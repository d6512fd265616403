-- ===== src/Cache/Calls.antt =====
-- src/lru-memo-cache.ts: any calls of the methods that change the cache, and that they keep its invariant.
use stream_fi_sdk.Base.{Option, ℕ, Bool, List, [], ◌∷◌, Eq}
use stream_fi_sdk.Cache.{LruMemoCache, Result, ok, throw, get, set, record_hit, record_miss, clear}
use stream_fi_sdk.Cache.Snapshot.{Parsed, hydrate}

-- A call of a method that changes the cache; `hydrates` has what `JSON.parse` makes of the text.
pub data Call {ℓ} (K V : Type ℓ) : Type ℓ where
  gets : K → Call K V
  sets : K → V → Option ℕ → Call K V
  hits misses : ℕ → Call K V
  clears : Call K V
  hydrates : Parsed K V → Call K V

abbrev pub after {ℓ} :
    {K V : Type ℓ} → LruMemoCache K V → Result (LruMemoCache K V) → LruMemoCache K V
after c (ok c') = c'
after c (throw x) = c

module _ {ℓ} {K V : Type ℓ} ⦃e : Eq K⦄ (is_key : K → Bool) where
  -- A `set` that throws leaves the cache as it was.
  unfoldable pub call : LruMemoCache K V → Call K V → ℕ → LruMemoCache K V
  call c (gets key) now = (get c key now).0
  call c (sets key value ttl) now = after c (set c key value ttl now)
  call c (hits ms) now = record_hit c ms
  call c (misses ms) now = record_miss c ms
  call c clears now = clear c
  call c (hydrates text) now = (hydrate is_key c text now).0

  unfoldable pub run : LruMemoCache K V → List (Call K V × ℕ) → LruMemoCache K V
  unfolding call
  run c [] = c
  run c ((x, now) ∷ calls) = run (call c x now) calls
