-- ===== src/Cache/Reads.antt =====
-- src/lru-memo-cache.ts: the order of the entries after an insertion and after a hit, and what a
-- read returns after an insertion.
use stream_fi_sdk.Base.{
  ℕ, ◌≤◌, ◌-◌, max, true, false, ◌≡◌, refl, Option, none, some, List, [], ◌∷◌, ◌++◌, Eq, ===_refl,
  length, length-append, drop, leb, if◌then◌else◌, All, arith, inl, inr, Bool-cases,
}
use stream_fi_sdk.Base.JsMap
use stream_fi_sdk.Cache.{
  LruMemoCache, size, is_expired, remove, get, evict_oldest, make_room, set_deadline, insert,
  reached,
}
use stream_fi_sdk.Cache.Valid.{IsValid, HasRoom, make_room-HasRoom}

module _ {ℓ} {K V : Type ℓ} ⦃e : Eq K⦄ where
  -- The entries with `key` made the newest.
  abbrev pub touched : K → V → List (K × V) → List (K × V)
  touched key value m = JsMap.delete key m ++ (key, value) ∷ []

  -- The newest entries, as many as `bound` allows.
  abbrev pub newest : ℕ → List (K × V) → List (K × V)
  newest bound m = drop (length m - bound) m

  delete_first : (p : K × V) (ps : List (K × V)) → JsMap.delete p.0 (p ∷ ps) ≡ ps
  unfolding JsMap.delete
  delete_first p ps = rw (===_refl p.0) refl

  absent-touched :
      (key : K) (value : V) (m : List (K × V))
      → JsMap.has key m ≡ false
      → touched key value m ≡ m ++ (key, value) ∷ []
  absent-touched key value m h = rw (JsMap.delete_absent key m (JsMap.has-eq-false key m h)) refl

  whole : (bound : ℕ) (m : List (K × V)) → length m ≤ bound → newest bound m ≡ m
  whole bound m h = let none_left : length m - bound ≡ 0 = omega (arith, h) in rw none_left refl

  evicted :
      (c : LruMemoCache K V) (key : K) (value : V) (m : List (K × V))
      → c.store ≡ m
      → length m ≤ max 1 c.max_size
      → c.max_size ≤ length m
      → JsMap.has key m ≡ false
      → JsMap.set key value (evict_oldest c m).store
        ≡ newest (max 1 c.max_size) (m ++ (key, value) ∷ [])
  unfolding remove
  evicted c key value [] s fits full h =
      rw (s, whole (max 1 c.max_size) ((key, value) ∷ []) (omega arith))
        (JsMap.set_absent key value [] tt)
  evicted c key value (p ∷ ps) s fits full h =
      let fresh = JsMap.has-eq-false key (p ∷ ps) h in
      let one : length ((p ∷ ps) ++ (key, value) ∷ []) - max 1 c.max_size ≡ 1 =
        omega (arith, length-append (p ∷ ps) ((key, value) ∷ [])) in
      rw (s, delete_first p ps, one) (JsMap.set_absent key value ps fresh.1)

  -- In a well-formed cache, an insertion removes an earlier entry of the key, puts the new one at the end, and keeps the
  -- newest entries that the capacity (at least one) allows: what it evicts is the least recently
  -- used one.
  pub insert-store :
      (c : LruMemoCache K V) (key : K) (value : V) (expires_at : Option ℕ)
      → IsValid c
      → (insert c key value expires_at).store
        ≡ newest (max 1 c.max_size) (touched key value c.store)
  unfolding insert make_room remove
  insert-store c key value expires_at v = elim (Bool-cases (JsMap.has key c.store)) [
    | inl h ↦
        let gone = JsMap.IsFresh-delete_self key c.store v.distinct in
        let fits : length (touched key value c.store) ≤ max 1 c.max_size = omega (
          arith,
          v.bounded,
          length-append (JsMap.delete key c.store) ((key, value) ∷ []),
          JsMap.length-delete_present key c.store h,
        ) in
        rw (h, whole (max 1 c.max_size) (touched key value c.store) fits)
          (JsMap.set_absent key value (JsMap.delete key c.store) gone)
    | inr h ↦ elim (Bool-cases (leb c.max_size (size c))) [
      | inl full ↦
          rw (h, full, absent-touched key value c.store h)
            (evicted c key value c.store refl v.bounded (ground arith) h)
      | inr free ↦
          let fits : length (c.store ++ (key, value) ∷ []) ≤ max 1 c.max_size =
            ground (arith, length-append c.store ((key, value) ∷ []), free) in
          rw
            (
              h,
              free,
              absent-touched key value c.store h,
              whole (max 1 c.max_size) (c.store ++ (key, value) ∷ []) fits,
            )
            (JsMap.set_absent key value c.store (JsMap.has-eq-false key c.store h))
    ]
  ]

  -- In a well-formed cache, a read of an entry that has not expired returns its value and makes it
  -- the newest; nothing else of the store changes.
  pub get_hit :
      (c : LruMemoCache K V) (key : K) (value : V) (now : ℕ)
      → IsValid c
      → is_expired c key now ≡ false
      → JsMap.get key c.store ≡ some value
      → ((get c key now).1 ≡ some value) × ((get c key now).0.store ≡ touched key value c.store)
  unfolding get
  get_hit c key value now v live h =
      rw (live, h)
        (
          refl,
          JsMap.set_absent key value (JsMap.delete key c.store)
              (JsMap.IsFresh-delete_self key c.store v.distinct),
        )

  unowned :
      (key : K) (m : List (K × V)) (ds : List (K × ℕ))
      → JsMap.IsFresh key m
      → All (λ (p : K × ℕ). JsMap.has p.0 m ≡ true) ds
      → JsMap.IsFresh key ds
  unowned key m [] f h = tt
  unowned key m (d ∷ ds) f h =
      (λ q. cc (JsMap.has_of_IsFresh key m f, h.0, q), unowned key m ds f h.1)

  deadline_of_insert :
      (c : LruMemoCache K V) (key : K) (expires_at : Option ℕ)
      → HasRoom key c
      → JsMap.get key (set_deadline key expires_at c.expires_at) ≡ expires_at
  deadline_of_insert c key none r =
      JsMap.get_of_IsFresh key c.expires_at
        (unowned key c.store c.expires_at r.absent r.valid.owned)
  deadline_of_insert c key (some t) r = rw (JsMap.get-set key key t c.expires_at, ===_refl key) refl

  -- In a well-formed cache, a read of the key just inserted returns the value until its deadline, if
  -- it has one, and nothing from the deadline on.
  pub get-insert :
      (c : LruMemoCache K V) (key : K) (value : V) (expires_at : Option ℕ) (now : ℕ)
      → IsValid c
      → (get (insert c key value expires_at) key now).1
        ≡ (if reached now expires_at then none else some value)
  unfolding get insert
  get-insert c key value expires_at now v = elim (Bool-cases (reached now expires_at)) [
    | inl late ↦ rw (held, late) refl
    | inr early ↦ rw (held, early, JsMap.get-set, ===_refl key) refl
  ]
    where
      held : JsMap.get key (set_deadline key expires_at (make_room c key).expires_at) ≡ expires_at
      held = deadline_of_insert (make_room c key) key expires_at (make_room-HasRoom c key v)
