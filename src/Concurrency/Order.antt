-- ===== src/Concurrency/Order.antt =====
-- src/map-with-concurrency.ts: the results are in the order of the items, and the calls in flight are
-- within the limit.
use stream_fi_sdk.Base.{
  ℕ, zero, suc, ◌+◌, ◌≤◌, ◌<◌, min, max, ◌≡◌, ◌≢◌, refl, sym, ◌∙◌, ap, Bool, true, false, Option,
  none, some, List, [], ◌∷◌, ltb, ◌==◌, if_cases, length, get_elem?, length-replicate, All, arith,
  Bool-cases, inl, inr, subst,
}
use stream_fi_sdk.Concurrency.{
  Pool, contains, remove, write, and_then, take_item, start_workers, on_result, finish, finish_all,
  empty_pool, map_with_concurrency,
}
use stream_fi_sdk.Concurrency.Places.{
  length-write, get_elem?-write, get_elem?-write_ne, contains-remove_ne, length-remove, remove-All,
  contains-lt, All-suc, get_elem?-replicate, Distinct, contains-remove_self, remove-Distinct,
  contains_of_lt,
}

module _ {T R : Type 0} (fn : T → Option R) (items : List T) where
  -- An item whose call has ended has its result at its place; the places of the others are empty.
  pub record IsRunning (limit : ℕ) (p : Pool R) : Type 0 where
    pub within : p.index ≤ length items
    pub called : All (λ i. i < p.index) p.in_flight
    pub distinct : Distinct p.in_flight
    pub size : length p.results ≡ length items
    pub placed :
        (i : ℕ)
        → i < p.index
        → contains i p.in_flight ≡ false
        → get_elem? p.results i ≡ some (and_then (get_elem? items i) fn)
    pub waiting :
        (i : ℕ)
        → i < length items
        → contains i p.in_flight ≡ true
        → get_elem? p.results i ≡ some none
    pub later : (i : ℕ) → i < length items → p.index ≤ i → get_elem? p.results i ≡ some none
    pub bounded : length p.in_flight ≤ limit

  -- A worker with room for its call takes the next item.
  take_item-IsRunning :
      (limit : ℕ) (p : Pool R)
      → length p.in_flight < limit
      → IsRunning limit p
      → IsRunning limit (take_item fn items p)
  unfolding take_item
  take_item-IsRunning limit p l v =
      if_cases (IsRunning limit) (ltb p.index (length items))
        (λ h. record {
          within = ground (arith, h);
          called = (omega arith, All-suc p.index p.in_flight v.called);
          distinct = (contains_of_lt p.index p.in_flight v.called, v.distinct);
          size = v.size;
          placed = λ i b c. placed i b c;
          waiting = λ i b c. waiting i b c;
          later = λ i b c. v.later i b (omega (arith, c));
          bounded = omega (arith, l);
        })
        (λ h. v)
    where
      placed :
          (i : ℕ)
          → i < p.index + 1
          → contains i (p.index ∷ p.in_flight) ≡ false
          → get_elem? p.results i ≡ some (and_then (get_elem? items i) fn)
      placed i b c = elim (Bool-cases (p.index == i)) [
        | inl e ↦ absurd (ground arith)
        | inr e ↦ v.placed i (ground arith) (ground arith)
      ]

      waiting :
          (i : ℕ)
          → i < length items
          → contains i (p.index ∷ p.in_flight) ≡ true
          → get_elem? p.results i ≡ some none
      waiting i b c = elim (Bool-cases (p.index == i)) [
        | inl e ↦ v.later i b (ground arith)
        | inr e ↦ v.waiting i b (ground arith)
      ]

  -- A call ends, and its item's place is as it should be.
  end_call :
      (limit i : ℕ) (p : Pool R) (results : List (Option R)) (rejected : Bool)
      → contains i p.in_flight ≡ true
      → length results ≡ length items
      → get_elem? results i ≡ some (and_then (get_elem? items i) fn)
      → ((j : ℕ) → i ≢ j → get_elem? results j ≡ get_elem? p.results j)
      → IsRunning limit p
      → IsRunning limit
          (record p { in_flight = remove i p.in_flight; results = results; rejected = rejected })
  end_call limit i p results rejected c size at others v = record {
    within = v.within;
    called = remove-All p.index i p.in_flight v.called;
    distinct = remove-Distinct i p.in_flight v.distinct;
    size = size;
    placed = placed;
    waiting = λ j b k.
        others j (ne j k) ∙ v.waiting j b (sym (contains-remove_ne i j p.in_flight (ne j k)) ∙ k);
    later = λ j b k. others j (λ e. absurd (omega (arith, e, k, called))) ∙ v.later j b k;
    bounded = omega (arith, length-remove i p.in_flight c, v.bounded);
  }
    where
      called : i < p.index
      called = contains-lt p.index i p.in_flight v.called c

      ne : (j : ℕ) → contains j (remove i p.in_flight) ≡ true → i ≢ j
      ne j k e = absurd (cc (k, e, contains-remove_self i p.in_flight v.distinct))

      placed :
          (j : ℕ)
          → j < p.index
          → contains j (remove i p.in_flight) ≡ false
          → get_elem? results j ≡ some (and_then (get_elem? items j) fn)
      placed j b k = elim (Bool-cases (i == j)) [
        | inl e ↦
            let same : i ≡ j = ground arith in
            subst (λ j. get_elem? results j ≡ some (and_then (get_elem? items j) fn)) same at
        | inr e ↦
            let other : i ≢ j = ground arith in
            others j other ∙ v.placed j b (sym (contains-remove_ne i j p.in_flight other) ∙ k)
      ]

  on_result-IsRunning :
      (limit i : ℕ) (p : Pool R) (o : Option R)
      → contains i p.in_flight ≡ true
      → and_then (get_elem? items i) fn ≡ o
      → IsRunning limit p
      → IsRunning limit (on_result fn items i o (record p { in_flight = remove i p.in_flight }))
  on_result-IsRunning limit i p none c e v =
      let called : i < p.index = contains-lt p.index i p.in_flight v.called c in
      end_call limit i p p.results true c v.size
        (v.waiting i (omega (arith, called, v.within)) c ∙ ap some (sym e)) (λ j n. refl) v
  on_result-IsRunning limit i p (some r) c e v =
      let called : i < p.index = contains-lt p.index i p.in_flight v.called c in
      let inside : i < length p.results = omega (arith, called, v.within, v.size) in
      take_item-IsRunning limit _ (omega (arith, length-remove i p.in_flight c, v.bounded)) (
        end_call limit i p (write i (some r) p.results) p.rejected c
          (length-write i (some r) p.results ∙ v.size)
          (get_elem?-write i (some r) p.results inside ∙ ap some (sym e))
          (λ j n. get_elem?-write_ne i j (some r) p.results n) v)

  finish_all-IsRunning :
      (limit : ℕ) (order : List ℕ) (p : Pool R)
      → IsRunning limit p
      → IsRunning limit (finish_all fn items order p)
  unfolding finish_all finish
  finish_all-IsRunning limit [] p v = v
  finish_all-IsRunning limit (i ∷ is) p v = finish_all-IsRunning limit is (finish fn items i p) (
      if_cases (IsRunning limit) (contains i p.in_flight)
        (λ c. on_result-IsRunning limit i p (and_then (get_elem? items i) fn) c refl v) (λ c. v))

  length-take_item : (p : Pool R) → length (take_item fn items p).in_flight ≤ length p.in_flight + 1
  unfolding take_item
  length-take_item p =
      if_cases (λ (q : Pool R). length q.in_flight ≤ length p.in_flight + 1)
        (ltb p.index (length items)) (λ h. omega arith) (λ h. omega arith)

  start_workers-IsRunning :
      (limit n : ℕ) (p : Pool R)
      → length p.in_flight + n ≤ limit
      → IsRunning limit p
      → IsRunning limit (start_workers fn items n p)
  unfolding start_workers
  start_workers-IsRunning limit zero p l v = v
  start_workers-IsRunning limit (suc n) p l v =
      start_workers-IsRunning limit n (take_item fn items p) (omega (arith, length-take_item p, l))
        (take_item-IsRunning limit p (omega (arith, l)) v)

  -- However the calls end, at most the limit of them are in flight, no item is called twice, and the
  -- item of a call that ended has its result at its own place.
  pub map_with_concurrency-IsRunning :
      (concurrency : ℕ) (order : List ℕ)
      → IsRunning (max 1 concurrency) (map_with_concurrency fn items concurrency order)
  unfolding map_with_concurrency
  map_with_concurrency-IsRunning concurrency order =
      finish_all-IsRunning (max 1 concurrency) order _ (
        start_workers-IsRunning (max 1 concurrency) (min (max 1 concurrency) (length items))
          (empty_pool fn items) (omega arith)
          (record {
            within = omega arith;
            called = tt;
            distinct = tt;
            size = length-replicate (length items) none;
            placed = λ i b c. absurd (omega arith);
            waiting = λ i b c. absurd (cc c);
            later = λ i b c. get_elem?-replicate (length items) i none b;
            bounded = omega arith;
          }))
