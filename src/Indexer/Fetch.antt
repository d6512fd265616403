-- ===== src/Indexer/Fetch.antt =====
-- src/indexer.ts: `fetchAll`. The query is a parameter: the page that the indexer answers for a cursor, or
-- `none` when the request fails; `next` is the option `getNextCursor`.
use stream_fi_sdk.Base.{
  ℕ, zero, suc, ◌≤◌, ◌≡◌, refl, ◌∙◌, ap, Option, none, some, List, [], ◌∷◌, ◌++◌, length, arith,
  append_assoc,
}

pub data Fetched (Page : Type 0) : Type 0 where
  done : List Page → Fetched Page
  exceeded : ℕ → Fetched Page
  failed : Fetched Page

module _ {Page Cursor : Type 0} (query : Option Cursor → Option Page)
    (next : Page → Option Cursor) where
  abbrev pub on_cursor : (Cursor → Fetched Page) → List Page → Option Cursor → Fetched Page
  on_cursor again pages none = done pages
  on_cursor again pages (some c) = again c

  abbrev pub on_page : (List Page → Cursor → Fetched Page) → List Page → Option Page → Fetched Page
  on_page again pages none = failed
  on_page again pages (some page) =
      on_cursor (again (pages ++ page ∷ [])) (pages ++ page ∷ []) (next page)

  -- The pages that may still be fetched come first, then the pages fetched.
  unfoldable pub fetch_from : ℕ → List Page → Option Cursor → Fetched Page
  fetch_from zero pages cursor = exceeded (length pages)
  fetch_from (suc left) pages cursor =
      on_page (λ pages' c. fetch_from left pages' (some c)) pages (query cursor)

  unfoldable pub fetch_all : Option ℕ → Fetched Page
  fetch_all none = fetch_from 1000 [] none
  fetch_all (some max_pages) = fetch_from max_pages [] none

  -- The pages from a cursor on, as the indexer links them.
  pub data Linked : Option Cursor → List Page → Type 0 where
    last :
        {cursor : Option Cursor} (page : Page)
        → query cursor ≡ some page
        → next page ≡ none
        → Linked cursor (page ∷ [])
    link :
        {cursor : Option Cursor} (page : Page) (c : Cursor) {pages : List Page}
        → query cursor ≡ some page
        → next page ≡ some c
        → Linked (some c) pages
        → Linked cursor (page ∷ pages)

  fetch_from-Linked :
      (left : ℕ) (before : List Page) (cursor : Option Cursor) (pages : List Page)
      → Linked cursor pages
      → length pages ≤ left
      → fetch_from left before cursor ≡ done (before ++ pages)
  unfolding fetch_from
  fetch_from-Linked zero before cursor [] l h = elim l [ ]
  fetch_from-Linked zero before cursor (page ∷ pages) l h = absurd (omega arith)
  fetch_from-Linked (suc left) before cursor _ (last page q n) h = rw (q, n) refl
  fetch_from-Linked (suc left) before cursor _ (link page c {pages} q n l) h =
      rw (q, n)
        (fetch_from-Linked left (before ++ page ∷ []) (some c) pages l (omega (arith, h))
          ∙ ap done (append_assoc before (page ∷ []) pages))

  -- Linked pages, no more of them than are allowed, are all fetched, in order.
  pub fetch_all_lem :
      (max_pages : ℕ) (pages : List Page)
      → Linked none pages
      → length pages ≤ max_pages
      → fetch_all (some max_pages) ≡ done pages
  unfolding fetch_all
  fetch_all_lem max_pages pages l h = fetch_from-Linked max_pages [] none pages l h
