-- ===== src/History/Csv/RoundTrip.antt =====
-- src/dashboard/transaction-history.ts: what a reader of CSV finds in the export.
use stream_fi_sdk.Base.{
  ◌<◌, ◌≡◌, ◌⊎◌, inl, inr, refl, sym, ap, ◌∙◌, false, Option, List, [], ◌∷◌, ◌++◌, append-nil,
  append_assoc, map, ◌==◌, if_cases, Bool-cases, length, All, arith,
}
use stream_fi_sdk.Amount.{ℤ}
use stream_fi_sdk.Amount.Digits.{Text}
use stream_fi_sdk.History.{TransactionRecord}
use stream_fi_sdk.History.Csv.{
  has_special, double_quotes, escape_csv_cell, join, ExportTransactionsOptions, cells_of, table_of,
  export_transactions_to_csv,
}
use stream_fi_sdk.History.Csv.Reader.{start, plain, quoted, quote_seen, push, new_cell, read}

abbrev Table : Type 0
Table = List (List Text)

put : Text → Table → Table
put [] t = t
put (c ∷ s) t = push c (put s t)

put_lem :
    (s cell : Text) (cells : List Text) (rows : Table)
    → put s ((cell ∷ cells) ∷ rows) ≡ ((s ++ cell) ∷ cells) ∷ rows
unfolding put
put_lem [] cell cells rows = refl
put_lem (c ∷ s) cell cells rows = ap (push c) (put_lem s cell cells rows)

-- A cell ends with the text, a comma or a new line.
abbrev Ends : Text → Type 0
Ends [] = Unit
Ends (c ∷ cs) = (c ≡ 44) ⊎ (c ≡ 10)

read-plain :
    (s rest : Text) → has_special s ≡ false → read plain (s ++ rest) ≡ put s (read plain rest)
unfolding read put
read-plain [] rest h = refl
read-plain (c ∷ s) rest h = ground (arith, read-plain s rest)

read-start :
    (s rest : Text)
    → has_special s ≡ false
    → Ends rest
    → read start (s ++ rest) ≡ put s (read plain rest)
unfolding read put
read-start [] [] h e = refl
read-start [] (c ∷ rest) h e = ground arith
read-start (c ∷ s) rest h e = ground (arith, read-plain s rest)

read-quoted :
    (s rest : Text) → read quoted (double_quotes s ++ 34 ∷ rest) ≡ put s (read quote_seen rest)
unfolding read put
read-quoted [] rest = refl
read-quoted (c ∷ s) rest = elim (Bool-cases (c == 34)) [
  | inl q ↦ rw q (ground (arith, read-quoted s rest))
  | inr n ↦ rw n (ground (arith, read-quoted s rest))
]

read_after_quote : (rest : Text) → Ends rest → read quote_seen rest ≡ read plain rest
unfolding read
read_after_quote [] e = refl
read_after_quote (c ∷ rest) e = ground arith

opened : (t rest : Text) → read start ((34 ∷ (t ++ 34 ∷ [])) ++ rest) ≡ read quoted (t ++ 34 ∷ rest)
unfolding read
opened t rest = ap (read quoted) (append_assoc t (34 ∷ []) rest)

read-escape_csv_cell :
    (s rest : Text) → Ends rest → read start (escape_csv_cell s ++ rest) ≡ put s (read plain rest)
unfolding escape_csv_cell
read-escape_csv_cell s rest e = elim (Bool-cases (has_special s)) [
  | inl q ↦
      rw q
        (opened (double_quotes s) rest ∙ read-quoted s rest ∙ ap (put s) (read_after_quote rest e))
  | inr n ↦ rw n (read-start s rest n e)
]

abbrev row_text : List Text → Text
row_text cells = join 44 (map escape_csv_cell cells)

-- What the reader finds after a row: nothing, or the rows after a new line.
abbrev LineEnds : Text → Table → Type 0
LineEnds [] more = more ≡ []
LineEnds (c ∷ cs) more = (c ≡ 10) × (more ≡ read start cs)

LineEnds-Ends : (rest : Text) (more : Table) → LineEnds rest more → Ends rest
LineEnds-Ends [] more e = tt
LineEnds-Ends (c ∷ rest) more e = inr e.0

read_line_end :
    (rest : Text) (more : Table) → LineEnds rest more → read plain rest ≡ ([] ∷ []) ∷ more
unfolding read
read_line_end [] more e = ground (arith, e)
read_line_end (c ∷ rest) more e = ground (arith, e.0, e.1)

read_comma : (t : Text) → read plain (44 ∷ t) ≡ new_cell (read start t)
unfolding read
read_comma t = refl

read-row_text :
    (cell : Text) (cells : List Text) (rest : Text) (more : Table)
    → LineEnds rest more
    → read start (row_text (cell ∷ cells) ++ rest) ≡ (cell ∷ cells) ∷ more
read-row_text cell [] rest more e =
    read-escape_csv_cell cell rest (LineEnds-Ends rest more e)
    ∙ ap (put cell) (read_line_end rest more e)
    ∙ put_lem cell [] [] more
    ∙ ap (λ (t : Text). (t ∷ []) ∷ more) (append-nil cell)
read-row_text cell (next ∷ cells) rest more e =
    let line = row_text (next ∷ cells) in
    ap (read start) (append_assoc (escape_csv_cell cell) (44 ∷ line) rest)
    ∙ read-escape_csv_cell cell (44 ∷ (line ++ rest)) (inl refl)
    ∙ ap (put cell) (read_comma (line ++ rest) ∙ ap new_cell (read-row_text next cells rest more e))
    ∙ put_lem cell [] (next ∷ cells) more
    ∙ ap (λ (t : Text). (t ∷ next ∷ cells) ∷ more) (append-nil cell)

-- Rows have cells.
abbrev HasCells : List Text → Type 0
HasCells [] = ⊥
HasCells (cell ∷ cells) = Unit

read-table :
    (row : List Text) (rows : Table)
    → All HasCells (row ∷ rows)
    → read start (join 10 (map row_text (row ∷ rows))) ≡ row ∷ rows
read-table [] rows h = absurd h.0
read-table (cell ∷ cells) [] h =
    ap (read start) (sym (append-nil (row_text (cell ∷ cells))))
    ∙ read-row_text cell cells [] [] refl
read-table (cell ∷ cells) (next ∷ rows) h =
    read-row_text cell cells (10 ∷ join 10 (map row_text (next ∷ rows))) _ (refl, refl)
    ∙ ap (λ (t : Table). (cell ∷ cells) ∷ t) (read-table next rows h.1)

read_some :
    (table : Table)
    → 0 < length table
    → All HasCells table
    → read start (join 10 (map row_text table)) ≡ table
read_some [] l h = absurd (omega arith)
read_some (row ∷ rows) l h = read-table row rows h

module _ (iso : ℤ → Option Text) (options : ExportTransactionsOptions) where
  table_of-HasCells :
      (list : List TransactionRecord) → All HasCells (map (cells_of iso options) list)
  unfolding cells_of
  table_of-HasCells [] = tt
  table_of-HasCells (tx ∷ list) = (tt, table_of-HasCells list)

  -- A reader of CSV finds in the export exactly the table that was printed, whatever characters the
  -- values hold, if there is a row or the header.
  pub parse-export_transactions :
      (list : List TransactionRecord)
      → 0 < length (table_of iso options list)
      → read start (export_transactions_to_csv iso options list) ≡ table_of iso options list
  unfolding export_transactions_to_csv
  parse-export_transactions list h =
      let rows = table_of-HasCells list in
      read_some (table_of iso options list) h
        (if_cases (All HasCells) options.include_header (λ _. (tt, rows)) (λ _. rows))
