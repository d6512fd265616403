-- ===== src/Tests/Caches.antt =====
-- src/lru-memo-cache.ts at small inputs.
use stream_fi_sdk.Base.{ℕ, max, ◌≡◌, refl, none, some, true, List, [], ◌∷◌, String, arith, nat_eq}
use stream_fi_sdk.Base.JsMap
use stream_fi_sdk.Cache.{LruMemoCache, Options, empty, remove, make_room, insert, set, get}
use stream_fi_sdk.Cache.Valid.{IsValid}
use stream_fi_sdk.Cache.Calls.{Call, sets, gets, hydrates, call, run}
use stream_fi_sdk.Cache.Snapshot.{
  Parsed, object, raw_entry, other_value, restored, hydrate, hydrate_from,
}
use stream_fi_sdk.Cache.Reads.{touched, newest, insert-store}

abbrev two_entries : Options
two_entries = record { max_entries = 2; ttl_ms = none }

abbrev calls : List (Call ℕ String × ℕ)
calls = (sets 1 "a" none, 10) ∷ (sets 2 "b" (some 50), 11) ∷ (gets 1, 12) ∷ []

abbrev full : LruMemoCache ℕ String
full = record {
  store = (2, "b") ∷ (1, "a") ∷ [];
  expires_at = (2, 61) ∷ [];
  cache_hits = 0;
  cache_misses = 0;
  hit_execution_time_ms = 0;
  miss_execution_time_ms = 0;
  max_size = 2;
  default_ttl_ms = none;
}

-- The read of key 1 makes it the newest.
fills : run (λ k. true) (empty two_entries) calls ≡ full
unfolding empty run call get set insert make_room remove JsMap.get JsMap.set JsMap.has JsMap.delete
fills = refl

-- Three entries, one of them expired, are hydrated into a cache for two that is full.
abbrev text : Parsed ℕ String
text = object true (
    some (
      raw_entry 5 "e" none
      ∷ raw_entry 6 "f" (some 40)
      ∷ other_value
      ∷ raw_entry 7 "g" (some 99)
      ∷ []))

abbrev more_calls : List (Call ℕ String × ℕ)
more_calls = (sets 1 "a" none, 10) ∷ (hydrates text, 50) ∷ (gets 5, 51) ∷ []

full-IsValid : IsValid full
unfolding JsMap.has
full-IsValid = record {
  distinct = ((λ q. absurd (omega arith), tt), (tt, tt));
  deadlines = (tt, tt);
  bounded = omega arith;
  owned = (refl, tt);
}

-- Key 2 is the oldest and makes room for key 3.
insert-store_example :
    (insert full 3 "c" (some 90)).store ≡ newest (max 1 2) (touched 3 "c" full.store)
insert-store_example = insert-store full 3 "c" (some 90) full-IsValid

two_restored : (hydrate (λ k. true) full text 50).1 ≡ restored 2
unfolding hydrate hydrate_from
two_restored = refl

abbrev no_entries : Options
no_entries = record { max_entries = 0; ttl_ms = none }

-- A cache that may hold nothing keeps one entry of a snapshot.
one_kept : (hydrate (λ k. true) (empty no_entries) text 50).0.store ≡ (7, "g") ∷ []
unfolding hydrate hydrate_from empty insert make_room remove JsMap.get JsMap.set JsMap.has
    JsMap.delete
one_kept = refl
