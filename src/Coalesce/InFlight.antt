-- ===== src/Coalesce/InFlight.antt =====
-- src/coalesce-async.ts: `coalesceInFlight` makes one call for a key at a time.
use stream_fi_sdk.Base.{
  ℕ, ◌≤◌, ◌≡◌, refl, sym, true, none, some, List, [], ◌∷◌, ◌==◌, ◌===◌, ===_iff, if◌then◌else◌,
  nat_eq, Eq, arith, Bool-cases, Option-cases, inl, inr, subst,
}
use stream_fi_sdk.Base.JsMap.{
  get, delete, Distinct, get-set, get-delete_ne, get-delete_self, set-Distinct, delete-Distinct,
  get-eq-none,
}
use stream_fi_sdk.Coalesce.{
  Flights, start_call, coalesce, evict, settle_in_flight, Happening, call, settle, run_in_flight,
  no_flights,
}

-- The map has the calls in flight, and nothing else: one promise for each of their keys.
pub record IsShared {K : Type 0} ⦃e : Eq K⦄ (s : Flights K) : Type 0 where
  pub current : (k : K) (p : ℕ) → get k s.cache ≡ some p → get p s.calls ≡ some k
  pub kept : (k : K) (p : ℕ) → get p s.calls ≡ some k → get k s.cache ≡ some p
  pub new : (p : ℕ) → s.next ≤ p → get p s.calls ≡ none
  pub once : Distinct s.calls
  pub keyed : Distinct s.cache

get-delete :
    {J V : Type 0} ⦃e : Eq J⦄ (k j : J) (m : List (J × V))
    → Distinct m
    → get j (delete k m) ≡ (if k === j then none else get j m)
get-delete k j m d = elim (Bool-cases (k === j)) [
  | inl same ↦
      let eq : k ≡ j = (===_iff k j).0 same in
      rw same (subst (λ i. get i (delete k m) ≡ none) eq (get-delete_self k m d))
  | inr other ↦ rw other (get-delete_ne k j m (λ eq. absurd (cc (other, (===_iff k j).1 (sym eq)))))
]

module _ {K : Type 0} ⦃e : Eq K⦄ where
  start_call-IsShared :
      (key : K) (s : Flights K)
      → get key s.cache ≡ none
      → IsShared s
      → IsShared (start_call key s).0
  unfolding get
  start_call-IsShared key s absent v =
      let free : get s.next s.calls ≡ none = v.new s.next (omega arith) in
      record {
        current = λ k p h.
            ground (arith, get-set key k s.next s.cache, ===_iff key k, v.current k p, free, h);
        kept = λ k p h.
            ground (arith, get-set key k s.next s.cache, ===_iff key k, v.kept k p, absent, h);
        new = λ p h. ground (arith, v.new p);
        once = (get-eq-none s.next s.calls free, v.once);
        keyed = set-Distinct key s.next s.cache v.keyed;
      }

  coalesce-IsShared : (key : K) (s : Flights K) → IsShared s → IsShared (coalesce key s).0
  unfolding coalesce
  coalesce-IsShared key s v = elim (Option-cases (get key s.cache)) [
    | inl absent ↦ rw absent (start_call-IsShared key s absent v)
    | inr (p, present) ↦ rw present v
  ]

  evicted-IsShared :
      (promise : ℕ) (key : K) (s : Flights K)
      → get promise s.calls ≡ some key
      → IsShared s
      → IsShared (record s { cache = delete key s.cache; calls = delete promise s.calls })
  evicted-IsShared promise key s called v =
      let held : get key s.cache ≡ some promise = v.kept key promise called in
      record {
        current = λ k p h. ground (
          arith,
          get-delete key k s.cache v.keyed,
          get-delete promise p s.calls v.once,
          ===_iff key k,
          v.current k p,
          held,
          called,
          h,
        );
        kept = λ k p h. ground (
          arith,
          get-delete key k s.cache v.keyed,
          get-delete promise p s.calls v.once,
          ===_iff key k,
          v.kept k p,
          held,
          called,
          h,
        );
        new = λ p h. ground (arith, get-delete promise p s.calls v.once, v.new p h);
        once = delete-Distinct promise s.calls v.once;
        keyed = delete-Distinct key s.cache v.keyed;
      }

  settle-IsShared :
      (promise : ℕ) (s : Flights K) → IsShared s → IsShared (settle_in_flight promise s)
  unfolding settle_in_flight evict
  settle-IsShared promise s v = elim (Option-cases (get promise s.calls)) [
    | inl none_called ↦ rw none_called v
    | inr (key, called) ↦
        let held : get key s.cache ≡ some promise = v.kept key promise called in
        let same : (promise == promise) ≡ true = ground arith in
        rw (called, held, same) (evicted-IsShared promise key s called v)
  ]

  run-IsShared :
      (s : Flights K) (hs : List (Happening K)) → IsShared s → IsShared (run_in_flight s hs)
  unfolding run_in_flight
  run-IsShared s [] v = v
  run-IsShared s (call key ∷ hs) v = run-IsShared (coalesce key s).0 hs (coalesce-IsShared key s v)
  run-IsShared s (settle p ∷ hs) v = run-IsShared (settle_in_flight p s) hs (settle-IsShared p s v)

  -- Whatever is called and settles: the map has a promise for a key exactly when its call is in flight,
  -- so that no two calls in flight have one key.
  pub run_in_flight-IsShared : (hs : List (Happening K)) → IsShared (run_in_flight no_flights hs)
  run_in_flight-IsShared hs = run-IsShared no_flights hs (
      unfold get in
      record {
        current = λ k p h. absurd (cc h);
        kept = λ k p h. absurd (cc h);
        new = λ p h. refl;
        once = tt;
        keyed = tt;
      })
