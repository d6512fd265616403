-- ===== src/Batch/Chunk.antt =====
-- src/batch-tx.ts: `chunkBatchOperations`.
use stream_fi_sdk.Base.{
  ℕ, zero, suc, ◌+◌, ◌-◌, ◌*◌, ◌≤◌, ◌<◌, ◌≡◌, refl, sym, ap, ◌∙◌, inl, inr, List, [], ◌∷◌, ◌++◌,
  append_assoc, append-nil, length, take, drop, All, All-append, length-append, length-take,
  length-drop, take-append-drop, ltb, ◌==◌, if◌then◌else◌, arith, Bool-cases,
}

-- A result, or the `BatchBuildError` that is thrown.
pub data Build {ℓ} (A : Type ℓ) : Type ℓ where
  built : A → Build A
  build_error : Build A

module _ {ℓ} {A : Type ℓ} where
  -- `items.slice(i, j)`.
  abbrev pub slice : ℕ → ℕ → List A → List A
  slice i j items = take (j - i) (drop i items)

  abbrev pub flat : List (List A) → List A
  flat [] = []
  flat (xs ∷ xss) = xs ++ flat xss

  -- The loop, with as many rounds as there are items.
  pub chunk_from : ℕ → ℕ → List A → ℕ → List (List A) → List (List A)
  chunk_from zero size items i chunks = chunks
  chunk_from (suc rounds) size items i chunks =
      let rest =
        chunk_from rounds size items (i + size) (chunks ++ slice i (i + size) items ∷ []) in
      if ltb i (length items) then rest else chunks

  -- A size is a natural number here, so that the test for an integer is the one below 1.
  unfoldable pub chunk_batch_operations : List A → ℕ → Build (List (List A))
  unfolding chunk_from
  chunk_batch_operations items max_chunk_size =
      if ltb max_chunk_size 1
      then build_error
      else if length items == 0
      then built []
      else built (chunk_from (length items) max_chunk_size items 0 [])

module _ {ℓ} {A : Type ℓ} where
  -- A chunk is not empty and fits.
  abbrev pub Fits : ℕ → List A → Type 0
  Fits size chunk = (0 < length chunk) × (length chunk ≤ size)

  flat-append : (xss yss : List (List A)) → flat (xss ++ yss) ≡ flat xss ++ flat yss
  flat-append [] yss = refl
  flat-append (xs ∷ xss) yss = rw (flat-append xss yss) (sym (append_assoc xs _ _))

  drop-drop : (i n : ℕ) (xs : List A) → drop n (drop i xs) ≡ drop (i + n) xs
  drop-drop zero n xs = let e : 0 + n ≡ n = omega arith in rw e
  drop-drop (suc i) zero [] = let e : suc i + 0 ≡ suc i = omega arith in rw e
  drop-drop (suc i) (suc n) [] = let e : suc i + suc n ≡ suc (i + suc n) = omega arith in rw e
  drop-drop (suc i) n (x ∷ xs) =
      let e : suc i + n ≡ suc (i + n) = omega arith in rw e (drop-drop i n xs)

  drop_all : (i : ℕ) (xs : List A) → length xs ≤ i → drop i xs ≡ []
  drop_all zero [] h = refl
  drop_all zero (x ∷ xs) h = absurd (omega arith)
  drop_all (suc i) [] h = refl
  drop_all (suc i) (x ∷ xs) h = drop_all i xs (omega arith)

  slice-append-drop :
      (i size : ℕ) (xs : List A) → slice i (i + size) xs ++ drop (i + size) xs ≡ drop i xs
  slice-append-drop i size xs =
      let e : i + size - i ≡ size = omega arith in
      rw (e, ← drop-drop i size xs) (take-append-drop size (drop i xs))

  module _ (size : ℕ) (pos : 0 < size) (items : List A) where
    chunk_from-flat :
        (rounds i : ℕ) (chunks : List (List A))
        → length items ≤ i + rounds
        → flat (chunk_from rounds size items i chunks) ≡ flat chunks ++ drop i items
    unfolding chunk_from
    chunk_from-flat zero i chunks h = rw (drop_all i items (omega arith)) (sym (append-nil _))
    chunk_from-flat (suc rounds) i chunks h = elim (Bool-cases (ltb i (length items))) [
      | inl more ↦ rw more (
          chunk_from-flat rounds (i + size) (chunks ++ slice i (i + size) items ∷ []) (omega arith)
          ∙ rw (flat-append chunks, append-nil, append_assoc)
              (ap (◌++◌ (flat chunks)) (slice-append-drop i size items)))
      | inr done ↦ rw (done, drop_all i items (ground arith)) (sym (append-nil _))
    ]

    slice-Fits : (i : ℕ) → i < length items → Fits size (slice i (i + size) items)
    slice-Fits i h = omega (arith, length-take (i + size - i) (drop i items), length-drop i items)

    chunk_from-Fits :
        (rounds i : ℕ) (chunks : List (List A))
        → All (Fits size) chunks
        → All (Fits size) (chunk_from rounds size items i chunks)
    unfolding chunk_from
    chunk_from-Fits zero i chunks h = h
    chunk_from-Fits (suc rounds) i chunks h = elim (Bool-cases (ltb i (length items))) [
      | inl more ↦ rw more (
          chunk_from-Fits rounds (i + size) _
            (All-append (Fits size) chunks _ h (slice-Fits i (ground arith), tt)))
      | inr done ↦ rw done h
    ]

    -- No chunk is wasted: all but the last are full.
    chunk_from-length :
        (rounds i : ℕ) (chunks : List (List A))
        → length chunks * size ≡ i
        → (i < length items + size)
        → length (chunk_from rounds size items i chunks) * size < length items + size
    unfolding chunk_from
    chunk_from-length zero i chunks e h = omega arith
    chunk_from-length (suc rounds) i chunks e h = elim (Bool-cases (ltb i (length items))) [
      | inl more ↦ rw more (
          chunk_from-length rounds (i + size) _
            (omega (
              arith,
              length-append chunks (slice i (i + size) items ∷ []),
              ap (λ n. n * size) (length-append chunks (slice i (i + size) items ∷ [])),
            ))
            (ground arith))
      | inr done ↦ rw done (omega arith)
    ]

  -- For a positive size every list is split into chunks that are not empty and fit the size, whose
  -- concatenation is the list, and of which there are no more than needed: all but one would be too
  -- few. (An empty list gives no chunk.)
  pub chunk_batch_operations_lem :
      (items : List A) (size : ℕ)
      → 0 < size
      → (chunks : List (List A)) × (chunk_batch_operations items size ≡ built chunks)
        × (flat chunks ≡ items)
        × All (Fits size) chunks
        × (length chunks * size < length items + size)
  unfolding chunk_batch_operations
  chunk_batch_operations_lem [] size pos = ([], ground arith, refl, tt, omega arith)
  chunk_batch_operations_lem (x ∷ xs) size pos = (
    chunk_from (length (x ∷ xs)) size (x ∷ xs) 0 [],
    ground arith,
    chunk_from-flat size pos (x ∷ xs) (length (x ∷ xs)) 0 [] (omega arith),
    chunk_from-Fits size pos (x ∷ xs) (length (x ∷ xs)) 0 [] tt,
    chunk_from-length size pos (x ∷ xs) (length (x ∷ xs)) 0 [] (omega arith) (omega arith),
  )
