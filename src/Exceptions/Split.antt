-- ===== src/Exceptions/Split.antt =====
-- couchbase/exceptions.py: `CouchbaseException.split_results`.
pub mod Parts
pub mod Kept
pub mod Whole
use couchbase_python_client.Base.{
  ℕ, ◌+◌, String, ◌<>◌, Bool, true, false, Option, none, some, List, [], ◌∷◌, if◌then◌else◌, ltb,
  string_eq, ◌==◌,
}
use couchbase_python_client.Base.Decimal.{codes, decimal}
use couchbase_python_client.Base.Dict.{Dict, insert}

-- `a <= b` on the code points of texts.
abbrev pub le : List ℕ → List ℕ → Bool
le [] ys = true
le (x ∷ xs) [] = false
le (x ∷ xs) (y ∷ ys) =
    let rest = le xs ys in if ltb x y then true else if ltb y x then false else rest

abbrev pub later : String → String → String
later s t = if le (codes s) (codes t) then t else s

-- A key of `all_results` is a text or `None`.
abbrev pub key_text : Option String → String
key_text none = ""
key_text (some s) = s

-- `([""] + sorted(filter(bool, keys)))[-1]`: an empty key and `None` come before every other.
unfoldable pub last_sorted : {V : Type 0} → List (Option String × V) → String
last_sorted [] = ""
last_sorted ((k, v) ∷ rs) = later (key_text k) (last_sorted rs)

-- `nokey_prefix + ":nokey:" + str(count)`
unfoldable pub nokey : String → ℕ → String
unfolding decimal
nokey prefix count = prefix <> (":nokey:" <> decimal count)

-- The key under which an entry is passed on.
abbrev pub result_key : String → ℕ → String → String
result_key prefix count k = if k == "" then nokey prefix count else k

abbrev pub next_count : ℕ → String → ℕ
next_count count k = if k == "" then count + 1 else count

module _ {V : Type 0} (success : V → Bool) where
  -- The loop, with `count`, `ret_ok` and `ret_fail`.
  unfoldable pub split :
      String
      → List (Option String × V)
      → ℕ
      → Dict String V
      → Dict String V
      → Dict String V × Dict String V
  unfolding nokey insert
  split prefix [] count ret_ok ret_fail = (ret_ok, ret_fail)
  split prefix ((k, v) ∷ rs) count ret_ok ret_fail =
      let name = result_key prefix count (key_text k) in
      split prefix rs (next_count count (key_text k))
        (if success v then insert name v ret_ok else ret_ok)
        (if success v then ret_fail else insert name v ret_fail)

  unfoldable pub split_results : List (Option String × V) → Dict String V × Dict String V
  unfolding split last_sorted
  split_results all_results = split (last_sorted all_results) all_results 0 [] []
