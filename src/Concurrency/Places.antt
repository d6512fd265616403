-- ===== src/Concurrency/Places.antt =====
-- src/map-with-concurrency.ts: lists of indices and of places.
use stream_fi_sdk.Base.{
  ℕ, zero, suc, ◌+◌, ◌<◌, ◌≡◌, ◌≢◌, refl, ap, true, false, Option, some, List, [], ◌∷◌, map, length,
  get_elem?, replicate, All, arith,
}
use stream_fi_sdk.Concurrency.{contains, remove, write, and_then}

pub length-write : {A : Type 0} (i : ℕ) (a : A) (xs : List A) → length (write i a xs) ≡ length xs
length-write i a [] = refl
length-write zero a (x ∷ xs) = refl
length-write (suc i) a (x ∷ xs) = ap suc (length-write i a xs)

pub get_elem?-write :
    {A : Type 0} (i : ℕ) (a : A) (xs : List A) → i < length xs → get_elem? (write i a xs) i ≡ some a
get_elem?-write i a [] h = absurd (omega arith)
get_elem?-write zero a (x ∷ xs) h = refl
get_elem?-write (suc i) a (x ∷ xs) h = get_elem?-write i a xs (omega arith)

pub get_elem?-write_ne :
    {A : Type 0} (i j : ℕ) (a : A) (xs : List A)
    → i ≢ j
    → get_elem? (write i a xs) j ≡ get_elem? xs j
get_elem?-write_ne i j a [] h = refl
get_elem?-write_ne zero zero a (x ∷ xs) h = absurd (h refl)
get_elem?-write_ne zero (suc j) a (x ∷ xs) h = refl
get_elem?-write_ne (suc i) zero a (x ∷ xs) h = refl
get_elem?-write_ne (suc i) (suc j) a (x ∷ xs) h = get_elem?-write_ne i j a xs (λ e. h (ap suc e))

pub contains-remove_ne : (i j : ℕ) (is : List ℕ) → i ≢ j → contains j (remove i is) ≡ contains j is
contains-remove_ne i j [] h = refl
contains-remove_ne i j (k ∷ ks) h = ground (arith, contains-remove_ne i j ks h)

pub length-remove :
    (i : ℕ) (is : List ℕ) → contains i is ≡ true → length (remove i is) + 1 ≡ length is
length-remove i [] h = absurd (cc h)
length-remove i (k ∷ ks) h = ground (arith, length-remove i ks)

pub remove-All : (n i : ℕ) (is : List ℕ) → All (λ j. j < n) is → All (λ j. j < n) (remove i is)
remove-All n i [] h = tt
remove-All n i (k ∷ ks) h = ground (arith, remove-All n i ks h.1)

pub contains-lt : (n i : ℕ) (is : List ℕ) → All (λ j. j < n) is → contains i is ≡ true → i < n
contains-lt n i [] h c = absurd (cc c)
contains-lt n i (k ∷ ks) h c = ground (arith, h.0, contains-lt n i ks h.1)

pub All-suc : (n : ℕ) (is : List ℕ) → All (λ j. j < n) is → All (λ j. j < n + 1) is
All-suc n [] h = tt
All-suc n (k ∷ ks) h = (omega (arith, h.0), All-suc n ks h.1)

pub get_elem?-replicate :
    {A : Type 0} (n i : ℕ) (a : A) → i < n → get_elem? (replicate n a) i ≡ some a
get_elem?-replicate zero i a h = absurd (omega arith)
get_elem?-replicate (suc n) zero a h = refl
get_elem?-replicate (suc n) (suc i) a h = get_elem?-replicate n i a (omega arith)

abbrev pub Distinct : List ℕ → Type 0
Distinct [] = Unit
Distinct (i ∷ is) = (contains i is ≡ false) × Distinct is

pub contains-remove_self : (i : ℕ) (is : List ℕ) → Distinct is → contains i (remove i is) ≡ false
contains-remove_self i [] d = refl
contains-remove_self i (k ∷ ks) d = ground (arith, contains-remove_self i ks d.1)

pub contains-remove :
    (i j : ℕ) (is : List ℕ) → contains j is ≡ false → contains j (remove i is) ≡ false
contains-remove i j [] h = refl
contains-remove i j (k ∷ ks) h = ground (arith, contains-remove i j ks)

pub remove-Distinct : (i : ℕ) (is : List ℕ) → Distinct is → Distinct (remove i is)
remove-Distinct i [] d = tt
remove-Distinct i (k ∷ ks) d = ground (arith, contains-remove i k ks d.0, remove-Distinct i ks d.1)

pub contains_of_lt : (n : ℕ) (is : List ℕ) → All (λ j. j < n) is → contains n is ≡ false
contains_of_lt n [] h = refl
contains_of_lt n (k ∷ ks) h = ground (arith, contains_of_lt n ks h.1)

pub list_ext :
    {A : Type 0} (xs ys : List A)
    → length xs ≡ length ys
    → ((i : ℕ) → i < length xs → get_elem? xs i ≡ get_elem? ys i)
    → xs ≡ ys
list_ext [] [] l h = refl
list_ext [] (y ∷ ys) l h = absurd (omega (arith, l))
list_ext (x ∷ xs) [] l h = absurd (omega (arith, l))
list_ext (x ∷ xs) (y ∷ ys) l h =
    let rest : xs ≡ ys = list_ext xs ys (omega (arith, l)) (λ i b. h (suc i) (omega (arith, b))) in
    let first : x ≡ y = cc (h 0 (omega arith)) in cc (rest, first)

pub get_elem?-map :
    {T R : Type 0} (fn : T → Option R) (items : List T) (i : ℕ)
    → i < length items
    → get_elem? (map fn items) i ≡ some (and_then (get_elem? items i) fn)
get_elem?-map fn [] i h = absurd (omega arith)
get_elem?-map fn (x ∷ xs) zero h = refl
get_elem?-map fn (x ∷ xs) (suc i) h = get_elem?-map fn xs i (omega (arith, h))
