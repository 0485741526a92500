-- ===== src/Options/Again.antt =====
-- couchbase/options.py: options that are converted a second time.
use couchbase_python_client.Base.{
  String, Bool, true, false, Option, none, some, List, [], ◌∷◌, ok, err, Error, Result, bind,
  string_eq, ◌≡◌, refl, sym, ap, subst, ◌∙◌, Result-cases, inl, inr,
}
use couchbase_python_client.Base.Dict.{Dict, lookup, NodupKeys, insert-NodupKeys}
use couchbase_python_client.Base.Value.{Value, int}
use couchbase_python_client.Options.Forward.{
  Argument, plain, duration, durability, bounded, Block, forward_args, forward, step, convert,
  convert_all, Conversion, kept_unless, is_none, arg_mapping, temp_options,
  timedelta_as_microseconds,
}
use couchbase_python_client.Options.Passed.{Timed, forward_args_passes}

pub ok_inj : {A : Type 0} {a b : A} → ok a ≡ ok b → a ≡ b
ok_inj e = cc

pub err_ok : {A : Type 0} {a : A} {e : Error} → err e ≡ ok a → ⊥
err_ok h = cc

pub bind_ok :
    {A B : Type 0} (r : Result A) (k : A → Result B) {b : B}
    → bind r k ≡ ok b
    → (a : A) × (r ≡ ok a) × (k a ≡ ok b)
bind_ok (ok a) k h = (a, refl, h)
bind_ok (err e) k h = absurd (err_ok h)

kept_unless-NodupKeys :
    (b : Bool) (k : String) (v : Argument) (d : Block)
    → NodupKeys d
    → NodupKeys (kept_unless b k v d)
kept_unless-NodupKeys true k v d u = u
kept_unless-NodupKeys false k v d u = insert-NodupKeys k v d u

convert_all-NodupKeys :
    (fs : Dict String Conversion) (v : Argument) (out end : Block)
    → NodupKeys out
    → convert_all fs v out ≡ ok end
    → NodupKeys end
unfolding convert_all
convert_all-NodupKeys [] v out end u h = subst NodupKeys (ok_inj h) u
convert_all-NodupKeys ((k, f) ∷ fs) v out end u h =
    let (w, made, rest) = bind_ok (convert f v) _ h in
    convert_all-NodupKeys fs v (kept_unless (is_none w) k w out) end
      (kept_unless-NodupKeys (is_none w) k w out u) rest

step-NodupKeys :
    (o : Option (Dict String Conversion)) (k : String) (v : Argument) (out end : Block)
    → NodupKeys out
    → step o k v out ≡ ok end
    → NodupKeys end
step-NodupKeys none k v out end u h = subst NodupKeys (ok_inj h) (insert-NodupKeys k v out u)
step-NodupKeys (some fs) k v out end u h = convert_all-NodupKeys fs v out end u h

forward-NodupKeys : (d out end : Block) → NodupKeys out → forward d out ≡ ok end → NodupKeys end
unfolding forward
forward-NodupKeys [] out end u h = subst NodupKeys (ok_inj h) u
forward-NodupKeys ((k, v) ∷ d) out end u h =
    let (w, made, rest) = bind_ok (step (lookup k arg_mapping) k v out) (forward d) h in
    forward-NodupKeys d w end (step-NodupKeys (lookup k arg_mapping) k v out w u made) rest

pub forwarded-NodupKeys :
    (kwargs : Block) (options : List Block) (f : Block)
    → forward_args kwargs [] options ≡ ok f
    → NodupKeys f
unfolding forward_args
forwarded-NodupKeys kwargs options f h =
    forward-NodupKeys (temp_options kwargs [] options) [] f tt h

plain-Timed : (v : Value) (o : Option Argument) → Timed (some (plain v)) o → ⊥
unfolding timedelta_as_microseconds
plain-Timed v o (w, h, e) = cc

-- A timeout that is a plain value cannot be forwarded.
pub refused :
    (final : Block) (v : Value)
    → NodupKeys final
    → lookup "timeout" final ≡ some (plain v)
    → (e : Error) × (forward_args final [] [] ≡ err e)
refused final v u h = elim (Result-cases (forward_args final [] [])) [
  | inr (e, r) ↦ (e, r)
  | inl (end, r) ↦
      let timed = rw h at (forward_args_passes final [] [] u tt tt end r).2 in
      absurd (plain-Timed v (lookup "timeout" end) timed)
]

pub Timed-plain :
    (a : Argument) (o : Option Argument) → Timed (some a) o → (v : Value) × (o ≡ some (plain v))
unfolding timedelta_as_microseconds
Timed-plain (duration d) o (w, h, e) = (int d.microseconds, e ∙ ap some (sym (ok_inj h)))
Timed-plain (plain v) o (w, h, e) = absurd (err_ok h)
Timed-plain (durability l r p) o (w, h, e) = absurd (err_ok h)
Timed-plain (bounded b) o (w, h, e) = absurd (err_ok h)
