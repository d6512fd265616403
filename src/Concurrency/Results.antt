-- ===== src/Concurrency/Results.antt =====
-- src/map-with-concurrency.ts: the results, when all calls have ended.
use stream_fi_sdk.Base.{
  ℕ, zero, suc, ◌≤◌, ◌<◌, min, max, ◌≡◌, refl, sym, ◌∙◌, ap, false, Option, none, some, List, [],
  ◌∷◌, map, ltb, if_cases, length, get_elem?, length-map, arith, Bool-cases, inl, inr,
}
use stream_fi_sdk.Concurrency.{
  Pool, contains, remove, write, and_then, take_item, start_workers, on_result, finish, finish_all,
  empty_pool, map_with_concurrency,
}
use stream_fi_sdk.Concurrency.Places.{list_ext, get_elem?-map}
use stream_fi_sdk.Concurrency.Order.{IsRunning, map_with_concurrency-IsRunning}

module _ {T R : Type 0} (fn : T → Option R) (items : List T) where
  -- While no call was rejected, items that were not called have calls before them in flight.
  IsBusy : Pool R → Type 0
  IsBusy p = p.rejected ≡ false → p.index < length items → 0 < length p.in_flight

  take_item-IsBusy : (p : Pool R) → IsBusy (take_item fn items p)
  unfolding take_item IsBusy
  take_item-IsBusy p =
      if_cases
        (λ (q : Pool R). q.rejected ≡ false → q.index < length items → 0 < length q.in_flight)
        (ltb p.index (length items)) (λ h r b. omega arith) (λ h r b. absurd (ground arith))

  on_result-IsBusy : (i : ℕ) (o : Option R) (p : Pool R) → IsBusy (on_result fn items i o p)
  unfolding IsBusy
  on_result-IsBusy i none p = λ r b. absurd (cc r)
  on_result-IsBusy i (some r) p =
      take_item-IsBusy (record p { results = write i (some r) p.results })

  finish_all-IsBusy :
      (order : List ℕ) (p : Pool R) → IsBusy p → IsBusy (finish_all fn items order p)
  unfolding finish_all finish
  finish_all-IsBusy [] p v = v
  finish_all-IsBusy (i ∷ is) p v = finish_all-IsBusy is (finish fn items i p) (
      if_cases IsBusy (contains i p.in_flight)
        (λ c.
          on_result-IsBusy i (and_then (get_elem? items i) fn)
            (record p { in_flight = remove i p.in_flight }))
        (λ c. v))

  start_workers-IsBusy : (n : ℕ) (p : Pool R) → IsBusy p → IsBusy (start_workers fn items n p)
  unfolding start_workers
  start_workers-IsBusy zero p v = v
  start_workers-IsBusy (suc n) p v =
      start_workers-IsBusy n (take_item fn items p) (take_item-IsBusy p)

  started-IsBusy :
      (n : ℕ) (p : Pool R) → (n ≡ 0 → length items ≡ 0) → IsBusy (start_workers fn items n p)
  unfolding start_workers IsBusy
  started-IsBusy zero p h = λ r b. absurd (omega (arith, b, h refl))
  started-IsBusy (suc n) p h = start_workers-IsBusy n (take_item fn items p) (take_item-IsBusy p)

  -- In whatever order the calls end: once none is in flight and none was rejected, the results are
  -- those of a plain map over the items, in their order.
  pub map_with_concurrency-map :
      (concurrency : ℕ) (order : List ℕ)
      → (map_with_concurrency fn items concurrency order).in_flight ≡ []
      → (map_with_concurrency fn items concurrency order).rejected ≡ false
      → (map_with_concurrency fn items concurrency order).results ≡ map fn items
  unfolding map_with_concurrency IsBusy
  map_with_concurrency-map concurrency order e r =
      let p : Pool R = map_with_concurrency fn items concurrency order in
      let v : IsRunning fn items (max 1 concurrency) p =
        map_with_concurrency-IsRunning fn items concurrency order in
      let busy : IsBusy p = finish_all-IsBusy order _ (
        started-IsBusy (min (max 1 concurrency) (length items)) (empty_pool fn items)
          (λ z. omega (arith, z))) in
      let none_left : length p.in_flight ≡ 0 = ap length e in
      let whole : length items ≤ p.index = elim (Bool-cases (ltb p.index (length items))) [
        | inl l ↦ absurd (omega (arith, none_left, busy r (ground arith)))
        | inr l ↦ ground arith
      ] in
      list_ext p.results (map fn items) (v.size ∙ sym (length-map items fn)) (λ i b.
        let inside : i < length items = omega (arith, b, v.size) in
        v.placed i (omega (arith, inside, whole)) (ap (contains i) e)
        ∙ sym (get_elem?-map fn items i inside))
