-- ===== src/Options/Tests.antt =====
-- Runs of the options, and the theorems at concrete data.
use couchbase_python_client.Base.{true, List, [], ◌∷◌}
use couchbase_python_client.Base.Decimal.{pos, negsuc}
use couchbase_python_client.Base.Value.{null, int, str, bool}
use couchbase_python_client.Options.Bounded.{
  signed_int64, plain as item, verified_value, Cases, verified_value-Cases,
}
use couchbase_python_client.Options.Forward.{Block, plain, duration}

verified_value-Cases_example :
    Cases signed_int64
      (item (int (negsuc 41)))
      (verified_value signed_int64 (item (int (negsuc 41))))
verified_value-Cases_example = verified_value-Cases signed_int64 (item (int (negsuc 41)))

abbrev given : Block
given = ("self", plain null) ∷ ("id", plain (str "key")) ∷ ("cas", plain (int (pos 5))) ∷ []

abbrev keywords : Block
keywords = ("timeout", duration (record { seconds = pos 2; microseconds = pos 2500000 })) ∷ []

abbrev options : List Block
options = (("cas", plain (int (pos 4))) ∷ ("persist", plain (bool true)) ∷ []) ∷ []

abbrev passed : Block
passed =
    ("cas", plain (int (pos 5)))
    ∷ ("persist", plain (bool true))
    ∷ ("timeout", plain (int (pos 2500000)))
    ∷ []
