-- ===== src/Base/Reply.antt =====
-- What the streams of rows share: the answers of the server, and how a call on them ends. `raw` is an
-- object of the C extension; what `raw.fetch` gives is what the server sends.
use couchbase_python_client.Base.Outcome.{Error}
use couchbase_python_client.Base.Value.{Value}
use mathlib.Core.Bool.{Bool, true, false}
use mathlib.Core.Option.{Option, none, some}
use mathlib.Core.List.{List, [], ◌∷◌, ◌++◌}

-- One return of `fetch`: the rows, and `raw.done` and `raw.value` after it; or what it raises.
pub data Reply : Type 0 where
  page : List Value → Bool → Value → Reply
  failure : Error → Reply

-- How a call ends; `blocked` waits for an answer that the server does not send.
pub data Ending {ℓ} (A : Type ℓ) : Type ℓ where
  returned : A → Ending A
  raised : Error → Ending A
  blocked : Ending A

abbrev pub prepend :
    List Value → Option (List Value × Value × List Reply) → Option (List Value × Value × List Reply)
prepend vs none = none
prepend vs (some (ws, v, rest)) = some (vs ++ ws, v, rest)

-- A result in what the server sends: its rows in order, its metadata, and the answers after it. The
-- result ends with a page that is done and has no row.
unfoldable pub delivered : List Reply → Option (List Value × Value × List Reply)
delivered [] = none
delivered (failure e ∷ rest) = none
delivered (page (r ∷ rs) done v ∷ rest) = prepend (r ∷ rs) (delivered rest)
delivered (page [] true v ∷ rest) = some ([], v, rest)
delivered (page [] false v ∷ rest) = delivered rest
