-- ===== src/Cache/Valid.antt =====
-- src/lru-memo-cache.ts: the invariant of the cache, and how reads and insertions keep it.
use stream_fi_sdk.Base.{
  ℕ, ◌+◌, ◌≤◌, max, true, false, ◌≡◌, refl, sym, ap, ◌≢◌, Option, none, some, List, [], ◌∷◌, Eq,
  ◌===◌, ===_iff, length, leb, All, arith, inl, inr, Bool-cases,
}
use stream_fi_sdk.Base.JsMap
use stream_fi_sdk.Cache.{
  LruMemoCache, size, is_expired, remove, refresh, get, evict_oldest, make_room, insert,
}

module _ {ℓ} {K V : Type ℓ} ⦃e : Eq K⦄ where
  -- Each key once, at most the entries allowed (one at least is kept), and no deadline without its
  -- entry.
  pub record IsValid (c : LruMemoCache K V) : Type ℓ where
    pub distinct : JsMap.Distinct c.store
    pub deadlines : JsMap.Distinct c.expires_at
    pub bounded : size c ≤ max 1 c.max_size
    pub owned : All (λ (p : K × ℕ). JsMap.has p.0 c.store ≡ true) c.expires_at

  -- After `make_room` the key is absent and there is a place for it.
  pub record HasRoom (key : K) (c : LruMemoCache K V) : Type ℓ where
    pub valid : IsValid c
    pub absent : JsMap.IsFresh key c.store
    pub room : size c + 1 ≤ max 1 c.max_size

  owned-delete :
      (key : K) (m : List (K × V)) (ds : List (K × ℕ))
      → JsMap.IsFresh key ds
      → All (λ (p : K × ℕ). JsMap.has p.0 m ≡ true) ds
      → All (λ (p : K × ℕ). JsMap.has p.0 (JsMap.delete key m) ≡ true) ds
  owned-delete key m [] f h = tt
  owned-delete key m (d ∷ ds) f h =
      (rw (JsMap.has-delete_ne key d.0 m f.0) h.0, owned-delete key m ds f.1 h.1)

  owned-set :
      (key : K) (v : V) (m : List (K × V)) (ds : List (K × ℕ))
      → All (λ (p : K × ℕ). JsMap.has p.0 m ≡ true) ds
      → All (λ (p : K × ℕ). JsMap.has p.0 (JsMap.set key v m) ≡ true) ds
  owned-set key v m [] h = tt
  owned-set key v m (d ∷ ds) h =
      (ground (arith, JsMap.has-set key d.0 v m), owned-set key v m ds h.1)

  remove-IsValid : (c : LruMemoCache K V) (key : K) → IsValid c → IsValid (remove c key)
  unfolding remove
  remove-IsValid c key v = record {
    distinct = JsMap.delete-Distinct key c.store v.distinct;
    deadlines = JsMap.delete-Distinct key c.expires_at v.deadlines;
    bounded = omega (arith, JsMap.length-delete-le key c.store);
    owned =
        owned-delete key c.store (JsMap.delete key c.expires_at)
          (JsMap.IsFresh-delete_self key c.expires_at v.deadlines)
          (JsMap.delete-All _ key c.expires_at v.owned);
  }

  remove-HasRoom :
      (c : LruMemoCache K V) (key : K)
      → JsMap.has key c.store ≡ true
      → IsValid c
      → HasRoom key (remove c key)
  unfolding remove
  remove-HasRoom c key h v = record {
    valid = remove-IsValid c key v;
    absent = JsMap.IsFresh-delete_self key c.store v.distinct;
    room = omega (arith, JsMap.length-delete_present key c.store h);
  }

  evict_oldest-HasRoom :
      (c : LruMemoCache K V) (key : K) (m : List (K × V))
      → c.store ≡ m
      → JsMap.has key c.store ≡ false
      → c.max_size ≤ size c
      → IsValid c
      → HasRoom key (evict_oldest c m)
  evict_oldest-HasRoom c key [] s h full v = record {
    valid = v;
    absent = JsMap.has-eq-false key c.store h;
    room = omega (arith, ap length s);
  }
  evict_oldest-HasRoom c key (p ∷ ps) s h full v =
      let first : JsMap.has p.0 c.store ≡ true = rw s (has_first p ps) in
      let r = remove-HasRoom c p.0 first v in
      record { valid = r.valid; absent = fresh_after p.0; room = r.room }
    where
      has_first : (p : K × V) (ps : List (K × V)) → JsMap.has p.0 (p ∷ ps) ≡ true
      has_first p ps = unfold JsMap.has in ground (arith, ===_iff p.0 p.0)

      fresh_after : (k : K) → JsMap.IsFresh key (remove c k).store
      fresh_after k =
          unfold remove in JsMap.delete-IsFresh k key c.store (JsMap.has-eq-false key c.store h)

  pub make_room-HasRoom :
      (c : LruMemoCache K V) (key : K) → IsValid c → HasRoom key (make_room c key)
  unfolding make_room
  make_room-HasRoom c key v = elim (Bool-cases (JsMap.has key c.store)) [
    | inl h ↦ rw h (remove-HasRoom c key h v)
    | inr h ↦ elim (Bool-cases (leb c.max_size (size c))) [
      | inl full ↦ rw (h, full) (evict_oldest-HasRoom c key c.store refl h (ground arith) v)
      | inr free ↦
          rw (h, free)
            (record { valid = v; absent = JsMap.has-eq-false key c.store h; room = ground arith })
    ]
  ]

  pub insert-IsValid :
      (c : LruMemoCache K V) (key : K) (value : V) (expires_at : Option ℕ)
      → IsValid c
      → IsValid (insert c key value expires_at)
  unfolding insert
  insert-IsValid c key value expires_at v = placed expires_at
    where
      r : HasRoom key (make_room c key)
      r = make_room-HasRoom c key v

      added : length (JsMap.set key value (make_room c key).store) ≡ size (make_room c key) + 1
      added =
          JsMap.length-set_absent key value (make_room c key).store
            (JsMap.has_of_IsFresh key (make_room c key).store r.absent)

      present : JsMap.has key (JsMap.set key value (make_room c key).store) ≡ true
      present = ground (arith, JsMap.has-set key key value (make_room c key).store, ===_iff key key)

      bound :
          length (JsMap.set key value (make_room c key).store) ≤ max 1 (make_room c key).max_size
      bound = omega (arith, added, r.room)

      placed : (t : Option ℕ) → IsValid (insert c key value t)
      placed none = record {
        distinct = JsMap.set-Distinct key value _ r.valid.distinct;
        deadlines = r.valid.deadlines;
        bounded = bound;
        owned = owned-set key value _ _ r.valid.owned;
      }
      placed (some t) = record {
        distinct = JsMap.set-Distinct key value _ r.valid.distinct;
        deadlines = JsMap.set-Distinct key t _ r.valid.deadlines;
        bounded = bound;
        owned = JsMap.set-All _ key t _ present (owned-set key value _ _ r.valid.owned);
      }

  owned-moved :
      (key : K) (value : V) (m : List (K × V)) (ds : List (K × ℕ))
      → All (λ (p : K × ℕ). JsMap.has p.0 m ≡ true) ds
      → All (λ (p : K × ℕ). JsMap.has p.0 (JsMap.set key value (JsMap.delete key m)) ≡ true) ds
  owned-moved key value m [] h = tt
  owned-moved key value m (d ∷ ds) h = (
    elim (Bool-cases (key === d.0)) [
      | inl same ↦ rw (JsMap.has-set, same)
      | inr other ↦
          let apart : d.0 ≢ key = λ q. cc ((===_iff key d.0).1 (sym q)) in
          rw (JsMap.has-set, other, JsMap.has-delete_ne key d.0 m apart) h.0
    ],
    owned-moved key value m ds h.1,
  )

  refresh-IsValid :
      (c : LruMemoCache K V) (key : K) (o : Option V)
      → JsMap.get key c.store ≡ o
      → IsValid c
      → IsValid (refresh c key o)
  refresh-IsValid c key none h v = v
  refresh-IsValid c key (some value) h v =
      let absent : JsMap.has key (JsMap.delete key c.store) ≡ false =
        JsMap.has_of_IsFresh key _ (JsMap.IsFresh-delete_self key c.store v.distinct) in
      let present = JsMap.has_of_get key value c.store h in
      let same : length (JsMap.set key value (JsMap.delete key c.store)) ≡ length c.store = omega (
        arith,
        JsMap.length-set_absent key value (JsMap.delete key c.store) absent,
        JsMap.length-delete_present key c.store present,
      ) in
      record {
        distinct = JsMap.set-Distinct key value _ (JsMap.delete-Distinct key c.store v.distinct);
        deadlines = v.deadlines;
        bounded = rw same v.bounded;
        owned = owned-moved key value c.store c.expires_at v.owned;
      }

  pub get-IsValid :
      (c : LruMemoCache K V) (key : K) (now : ℕ) → IsValid c → IsValid (get c key now).0
  unfolding get
  get-IsValid c key now v = elim (Bool-cases (is_expired c key now)) [
    | inl gone ↦ rw gone (remove-IsValid c key v)
    | inr live ↦ rw live (refresh-IsValid c key (JsMap.get key c.store) refl v)
  ]
