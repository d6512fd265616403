-- ===== src/History/Csv/Reader.antt =====
-- A reader of CSV as RFC 4180 describes it, which src/dashboard/transaction-history.ts does not have, and
-- what it reads in the export.
use stream_fi_sdk.Base.{ℕ, List, [], ◌∷◌, ◌==◌, if◌then◌else◌}
use stream_fi_sdk.Amount.Digits.{Text}

-- At the start of a cell, in a plain cell, in a quoted one, or after a quotation mark in a quoted one.
pub data Mode : Type 0 where
  start plain quoted quote_seen : Mode

-- A character goes to the first cell.
abbrev pub push : ℕ → List (List Text) → List (List Text)
push c [] = []
push c ([] ∷ rows) = [] ∷ rows
push c ((cell ∷ cells) ∷ rows) = ((c ∷ cell) ∷ cells) ∷ rows

abbrev pub new_cell : List (List Text) → List (List Text)
new_cell [] = []
new_cell (cells ∷ rows) = ([] ∷ cells) ∷ rows

-- What stands after a cell.
unfoldable pub read : Mode → Text → List (List Text)
read mode [] = ([] ∷ []) ∷ []
read start (c ∷ cs) =
    let inside = read quoted cs in
    let cell = new_cell (read start cs) in
    let row = ([] ∷ []) ∷ read start cs in
    let more = push c (read plain cs) in
    if c == 34 then inside else if c == 44 then cell else if c == 10 then row else more
read plain (c ∷ cs) =
    let cell = new_cell (read start cs) in
    let row = ([] ∷ []) ∷ read start cs in
    let more = push c (read plain cs) in if c == 44 then cell else if c == 10 then row else more
read quoted (c ∷ cs) =
    let seen = read quote_seen cs in
    let more = push c (read quoted cs) in if c == 34 then seen else more
read quote_seen (c ∷ cs) =
    let inside = push 34 (read quoted cs) in
    let cell = new_cell (read start cs) in
    let row = ([] ∷ []) ∷ read start cs in
    let more = push c (read plain cs) in
    if c == 34 then inside else if c == 44 then cell else if c == 10 then row else more
