-- ===== src/Base/JsMap.antt =====
-- A JavaScript `Map`: the entries in order of insertion, each key once. `set` on a key that is
-- there writes in place, and otherwise appends.
use Prim.Native.Nat.{◌+◌, ◌≤◌}
use mathlib.Core.Path.{◌≡◌, refl}
use mathlib.Core.Logic.{◌≢◌}
use mathlib.Core.Bool.{Bool, true, false}
use mathlib.Core.Option.{Option, none, some}
use mathlib.Core.List.{List, [], ◌∷◌, ◌++◌}
use native.Mathlib.Omega.{arith}
use package.stream_fi_sdk.Base.Tests.{if◌then◌else◌}
use package.stream_fi_sdk.Base.Lists.{length, All}
use package.stream_fi_sdk.Base.Keys.{Eq, ◌===◌, ===_iff}

module _ {ℓ κ} {K : Type ℓ} {V : Type κ} ⦃e : Eq K⦄ where
  unfoldable pub get : K → List (K × V) → Option V
  get k [] = none
  get k ((j, v) ∷ m) = if j === k then some v else get k m

  unfoldable pub has : K → List (K × V) → Bool
  has k [] = false
  has k ((j, v) ∷ m) = if j === k then true else has k m

  unfoldable pub set : K → V → List (K × V) → List (K × V)
  set k v [] = (k, v) ∷ []
  set k v ((j, w) ∷ m) = if j === k then (j, v) ∷ m else (j, w) ∷ set k v m

  unfoldable pub delete : K → List (K × V) → List (K × V)
  delete k [] = []
  delete k ((j, w) ∷ m) = if j === k then m else (j, w) ∷ delete k m

  pub get-set :
      (k j : K) (v : V) (m : List (K × V))
      → get j (set k v m) ≡ (if k === j then some v else get j m)
  unfolding get set
  get-set k j v [] = refl
  get-set k j v ((i, w) ∷ m) =
      ground (arith, ===_iff k j, ===_iff i k, ===_iff i j, get-set k j v m)

  pub get-delete_ne : (k j : K) (m : List (K × V)) → j ≢ k → get j (delete k m) ≡ get j m
  unfolding get delete
  get-delete_ne k j [] h = refl
  get-delete_ne k j ((i, w) ∷ m) h = ground (arith, ===_iff i k, ===_iff i j, get-delete_ne k j m h)

  -- No key stands twice.
  abbrev pub IsFresh : K → List (K × V) → Type ℓ
  IsFresh k m = All (λ (p : K × V). p.0 ≢ k) m

  abbrev pub Distinct : List (K × V) → Type ℓ
  Distinct [] = Unit
  Distinct (p ∷ m) = IsFresh p.0 m × Distinct m

  pub has-eq-false : (k : K) (m : List (K × V)) → has k m ≡ false → IsFresh k m
  unfolding has
  has-eq-false k [] h = tt
  has-eq-false k ((j, v) ∷ m) h = ground (arith, ===_iff j k, has-eq-false k m)

  pub get-eq-none : (k : K) (m : List (K × V)) → get k m ≡ none → IsFresh k m
  unfolding get
  get-eq-none k [] h = tt
  get-eq-none k ((j, v) ∷ m) h = ground (arith, ===_iff j k, get-eq-none k m)

  pub get_of_IsFresh : (k : K) (m : List (K × V)) → IsFresh k m → get k m ≡ none
  unfolding get
  get_of_IsFresh k [] h = refl
  get_of_IsFresh k ((j, v) ∷ m) h = ground (arith, ===_iff j k, get_of_IsFresh k m h.1)

  pub delete-IsFresh : (k j : K) (m : List (K × V)) → IsFresh j m → IsFresh j (delete k m)
  unfolding delete
  delete-IsFresh k j [] h = tt
  delete-IsFresh k j ((i, w) ∷ m) h = ground (arith, delete-IsFresh k j m h.1)

  pub delete-Distinct : (k : K) (m : List (K × V)) → Distinct m → Distinct (delete k m)
  unfolding delete
  delete-Distinct k [] h = tt
  delete-Distinct k ((i, w) ∷ m) h =
      ground (arith, delete-Distinct k m h.1, delete-IsFresh k i m h.0)

  pub delete_absent : (k : K) (m : List (K × V)) → IsFresh k m → delete k m ≡ m
  unfolding delete
  delete_absent k [] h = refl
  delete_absent k ((i, w) ∷ m) h = ground (arith, ===_iff i k, delete_absent k m h.1)

  pub IsFresh-delete_self : (k : K) (m : List (K × V)) → Distinct m → IsFresh k (delete k m)
  unfolding delete
  IsFresh-delete_self k [] h = tt
  IsFresh-delete_self k ((i, w) ∷ m) h = ground (arith, ===_iff i k, IsFresh-delete_self k m h.1)

  pub get-delete_self : (k : K) (m : List (K × V)) → Distinct m → get k (delete k m) ≡ none
  get-delete_self k m h = get_of_IsFresh k (delete k m) (IsFresh-delete_self k m h)

  pub set-IsFresh :
      (k j : K) (v : V) (m : List (K × V)) → IsFresh j m → k ≢ j → IsFresh j (set k v m)
  unfolding set
  set-IsFresh k j v [] h n = (n, tt)
  set-IsFresh k j v ((i, w) ∷ m) h n = ground (arith, set-IsFresh k j v m h.1 n)

  pub set-Distinct : (k : K) (v : V) (m : List (K × V)) → Distinct m → Distinct (set k v m)
  unfolding set
  set-Distinct k v [] h = (tt, tt)
  set-Distinct k v ((i, w) ∷ m) h =
      ground (arith, ===_iff i k, set-Distinct k v m h.1, set-IsFresh k i v m h.0)

  pub set_absent : (k : K) (v : V) (m : List (K × V)) → IsFresh k m → set k v m ≡ m ++ (k, v) ∷ []
  unfolding set
  set_absent k v [] h = refl
  set_absent k v ((i, w) ∷ m) h = ground (arith, ===_iff i k, set_absent k v m h.1)

  pub length-delete-le : (k : K) (m : List (K × V)) → length (delete k m) ≤ length m
  unfolding delete
  length-delete-le k [] = omega arith
  length-delete-le k ((i, w) ∷ m) = ground (arith, length-delete-le k m)

  pub length-delete_present :
      (k : K) (m : List (K × V)) → has k m ≡ true → length (delete k m) + 1 ≡ length m
  unfolding delete has
  length-delete_present k [] h = cc
  length-delete_present k ((i, w) ∷ m) h = ground (arith, length-delete_present k m)

  -- A property of all entries survives a write of an entry that has it, and a deletion.
  pub set-All {μ} :
      (P : K × V → Type μ) (k : K) (v : V) (m : List (K × V))
      → P (k, v)
      → All P m
      → All P (set k v m)
  unfolding set
  set-All P k v [] p h = (p, tt)
  set-All P k v ((i, w) ∷ m) p h = ground (arith, ===_iff i k, set-All P k v m p h.1)

  pub delete-All {μ} :
      (P : K × V → Type μ) (k : K) (m : List (K × V)) → All P m → All P (delete k m)
  unfolding delete
  delete-All P k [] h = tt
  delete-All P k ((i, w) ∷ m) h = ground (arith, delete-All P k m h.1)

  pub get-All {μ} :
      (P : K × V → Type μ) (k : K) (v : V) (m : List (K × V))
      → get k m ≡ some v
      → All P m
      → P (k, v)
  unfolding get
  get-All P k v [] g h = cc
  get-All P k v ((i, w) ∷ m) g h = ground (arith, ===_iff i k, get-All P k v m)

  pub has-set :
      (k j : K) (v : V) (m : List (K × V)) → has j (set k v m) ≡ (if k === j then true else has j m)
  unfolding has set
  has-set k j v [] = refl
  has-set k j v ((i, w) ∷ m) =
      ground (arith, ===_iff k j, ===_iff i k, ===_iff i j, has-set k j v m)

  pub has-delete_ne : (k j : K) (m : List (K × V)) → j ≢ k → has j (delete k m) ≡ has j m
  unfolding has delete
  has-delete_ne k j [] h = refl
  has-delete_ne k j ((i, w) ∷ m) h = ground (arith, ===_iff i k, ===_iff i j, has-delete_ne k j m h)

  pub has_of_get : (k : K) (v : V) (m : List (K × V)) → get k m ≡ some v → has k m ≡ true
  unfolding get has
  has_of_get k v [] h = cc
  has_of_get k v ((i, w) ∷ m) h = ground (arith, has_of_get k v m)

  pub has_of_IsFresh : (k : K) (m : List (K × V)) → IsFresh k m → has k m ≡ false
  unfolding has
  has_of_IsFresh k [] h = refl
  has_of_IsFresh k ((i, w) ∷ m) h = ground (arith, ===_iff i k, has_of_IsFresh k m h.1)

  pub length-set_absent :
      (k : K) (v : V) (m : List (K × V)) → has k m ≡ false → length (set k v m) ≡ length m + 1
  unfolding set has
  length-set_absent k v [] h = omega arith
  length-set_absent k v ((i, w) ∷ m) h = ground (arith, length-set_absent k v m)
