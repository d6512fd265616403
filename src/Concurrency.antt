-- ===== src/Concurrency.antt =====
-- src/map-with-concurrency.ts: `mapWithConcurrency` without a rate limit. The calls of `fn` in flight
-- are the indices of their items; which of them ends next is a list of indices. A call that is
-- rejected gives `none`, and its place among the results stays empty.
pub mod Places
pub mod Order
pub mod Results
pub mod Adaptive
use stream_fi_sdk.Base.{
  ℕ, zero, suc, ◌+◌, min, max, Bool, true, false, Option, none, some, List, [], ◌∷◌, ◌++◌, ltb,
  ◌==◌, if◌then◌else◌, length, get_elem?, replicate,
}

pub record Pool (R : Type 0) : Type 0 where
  pub index : ℕ
  pub results : List (Option R)
  pub in_flight : List ℕ
  pub rejected : Bool

abbrev pub contains : ℕ → List ℕ → Bool
contains i [] = false
contains i (j ∷ js) = let rest = contains i js in if j == i then true else rest

abbrev pub remove : ℕ → List ℕ → List ℕ
remove i [] = []
remove i (j ∷ js) = let rest = remove i js in if j == i then js else j ∷ rest

abbrev pub write : {A : Type 0} → ℕ → A → List A → List A
write i a [] = []
write zero a (x ∷ xs) = a ∷ xs
write (suc i) a (x ∷ xs) = x ∷ write i a xs

abbrev pub and_then : {A B : Type 0} → Option A → (A → Option B) → Option B
and_then none f = none
and_then (some a) f = f a

module _ {T R : Type 0} (fn : T → Option R) (items : List T) where
  -- The head of a worker's loop, up to the call of `fn`.
  unfoldable pub take_item : Pool R → Pool R
  take_item p =
      if ltb p.index (length items)
      then record p { index = p.index + 1; in_flight = p.index ∷ p.in_flight }
      else p

  unfoldable pub start_workers : ℕ → Pool R → Pool R
  start_workers zero p = p
  start_workers (suc n) p = start_workers n (take_item p)

  -- The call for an item ends. A worker whose call is rejected ends, and so does the whole promise.
  abbrev pub on_result : ℕ → Option R → Pool R → Pool R
  on_result i none p = record p { rejected = true }
  on_result i (some r) p = take_item (record p { results = write i (some r) p.results })

  unfoldable pub finish : ℕ → Pool R → Pool R
  finish i p =
      if contains i p.in_flight
      then on_result i (and_then (get_elem? items i) fn)
          (record p { in_flight = remove i p.in_flight })
      else p

  unfoldable pub finish_all : List ℕ → Pool R → Pool R
  finish_all [] p = p
  finish_all (i ∷ is) p = finish_all is (finish i p)

  abbrev pub empty_pool : Pool R
  empty_pool = record {
    index = 0;
    results = replicate (length items) none;
    in_flight = [];
    rejected = false;
  }

  unfoldable pub map_with_concurrency : ℕ → List ℕ → Pool R
  map_with_concurrency concurrency order =
      let limit = max 1 concurrency in
      finish_all order (start_workers (min limit (length items)) empty_pool)
