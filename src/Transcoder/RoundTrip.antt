-- ===== src/Transcoder/RoundTrip.antt =====
-- couchbase_core/transcoder.py: what is decoded is what was encoded.
use couchbase_python_client.Base.{
  Bool-cases, arith, ℕ, String, Bool, true, false, List, [], ◌∷◌, if◌then◌else◌, nat_eq, ◌==◌,
  contains, Result, ok, err, bind, ◌≡◌, refl, ◌⊎◌, inl, inr, sym, ◌∙◌, ap, subst, value_error,
}
use couchbase_python_client.Base.Value.{
  null, unspec, bool, int, float, str, bytes, list, tuple, dict,
}
use couchbase_python_client.Transcoder.Format.{
  fmt_json, fmt_pickle, fmt_bytes, fmt_utf8, get_decode_format, legacy_mask,
}
use couchbase_python_client.Transcoder.Convert.{
  Object, value, bytearray, instance_of, Format, Codecs, chosen, encode_as, encode_value,
  legacy_flags, decode_as, decode_value, encode_value_legacy, with_flags,
}

abbrev pub Known : ℕ → Type 0
Known f = (f ≡ fmt_pickle) ⊎ ((f ≡ fmt_json) ⊎ ((f ≡ fmt_bytes) ⊎ (f ≡ fmt_utf8)))

Known-contains :
    (f : ℕ) → contains (fmt_pickle ∷ fmt_json ∷ fmt_bytes ∷ fmt_utf8 ∷ []) f ≡ true → Known f
Known-contains f h = ground arith

if_same : (b : Bool) → (if b then false else false) ≡ false
if_same true = refl
if_same false = refl

recognized :
    (f : ℕ)
    → Known f
    → (get_decode_format f ≡ (f, true)) × (get_decode_format (legacy_mask f) ≡ (f, true))
unfolding get_decode_format legacy_mask nat_eq
recognized f (inl h) = rw h (refl, refl)
recognized f (inr (inl h)) = rw h (refl, refl)
recognized f (inr (inr (inl h))) = rw h (refl, refl)
recognized f (inr (inr (inr h))) = rw h (refl, refl)

module _ {P : Type 0} (c : Codecs P) where
  -- What is stored of an object: a bytearray is stored as the bytes it holds.
  unfoldable pub stored : Object P → ℕ → Object P
  stored (bytearray b) f = if f == fmt_bytes then value (bytes b) else bytearray b
  stored v f = v

  stored-same : (v : Object P) (f : ℕ) → (f == fmt_bytes) ≡ false → ok (stored v f) ≡ ok v
  unfolding stored
  stored-same (value v) f h = refl
  stored-same (bytearray b) f h = rw h refl
  stored-same (instance_of p) f h = refl

  -- What the round trip asks of the codecs: that each decodes what it made of this object.
  pub record Faithful (v : Object P) : Type 0 where
    pub utf8 : (s : String) (b : List ℕ) → c.utf8_encode s ≡ ok b → c.utf8_decode b ≡ ok s
    pub json : (s : String) → c.do_json_encode v ≡ ok s → c.do_json_decode s ≡ ok v
    pub pickle : (b : List ℕ) → c.do_pickle_encode v ≡ ok b → c.do_pickle_decode b ≡ ok v

  abbrev Kept : Object P → ℕ → Result (List ℕ × ℕ) → Type 0
  Kept v f (ok (b, fl)) = (fl ≡ f) × (decode_as c b f ≡ ok (stored v f))
  Kept v f (err e) = Unit

  kept_bytes : (v : Object P) → Kept v fmt_bytes (encode_as c v fmt_bytes)
  unfolding encode_as stored nat_eq
  kept_bytes (value (bytes b)) = (refl, refl)
  kept_bytes (bytearray b) = (refl, refl)
  kept_bytes (value null) = tt
  kept_bytes (value unspec) = tt
  kept_bytes (value (bool _)) = tt
  kept_bytes (value (int _)) = tt
  kept_bytes (value (float _)) = tt
  kept_bytes (value (str _)) = tt
  kept_bytes (value (list _)) = tt
  kept_bytes (value (tuple _)) = tt
  kept_bytes (value (dict _)) = tt
  kept_bytes (instance_of p) = tt

  Kept-bind :
      (v : Object P) (f : ℕ) (r : Result (List ℕ))
      → ((b : List ℕ) → r ≡ ok b → decode_as c b f ≡ ok (stored v f))
      → Kept v f (bind r (with_flags c f))
  Kept-bind v f (ok b) h = (refl, h b refl)
  Kept-bind v f (err e) h = tt

  module _ (v : Object P) (faith : Faithful v) where
    decode-json :
        (r : Result String) (b : List ℕ)
        → c.do_json_encode v ≡ r
        → bind r c.utf8_encode ≡ ok b
        → bind (c.utf8_decode b) c.do_json_decode ≡ ok v
    decode-json (ok s) b e h = rw (faith.utf8 s b h) (faith.json s e)
    decode-json (err x) b e h = cc

    kept_json : Kept v fmt_json (encode_as c v fmt_json)
    unfolding encode_as nat_eq
    kept_json =
        Kept-bind v fmt_json (bind (c.do_json_encode v) c.utf8_encode)
          λ b h. decode-json (c.do_json_encode v) b refl h ∙ sym (stored-same v fmt_json refl)

    kept_pickle : Kept v fmt_pickle (encode_as c v fmt_pickle)
    unfolding encode_as nat_eq
    kept_pickle =
        Kept-bind v fmt_pickle (c.do_pickle_encode v)
          λ b h. faith.pickle b h ∙ sym (stored-same v fmt_pickle refl)

    unknown_err :
        (f : ℕ)
        → contains (fmt_pickle ∷ fmt_json ∷ fmt_bytes ∷ fmt_utf8 ∷ []) f ≡ false
        → encode_as c v f ≡ err value_error
    unfolding encode_as
    unknown_err f h = rw h refl

  kept_utf8 : (v : Object P) → Faithful v → Kept v fmt_utf8 (encode_as c v fmt_utf8)
  unfolding encode_as nat_eq stored
  kept_utf8 (value (str s)) faith =
      Kept-bind (value (str s)) fmt_utf8 (c.utf8_encode s) λ b h. rw (faith.utf8 s b h) refl
  kept_utf8 (bytearray b) faith = tt
  kept_utf8 (value (bytes b)) faith = tt
  kept_utf8 (value null) faith = tt
  kept_utf8 (value unspec) faith = tt
  kept_utf8 (value (bool _)) faith = tt
  kept_utf8 (value (int _)) faith = tt
  kept_utf8 (value (float _)) faith = tt
  kept_utf8 (value (list _)) faith = tt
  kept_utf8 (value (tuple _)) faith = tt
  kept_utf8 (value (dict _)) faith = tt
  kept_utf8 (instance_of p) faith = tt

  kept : (v : Object P) (f : ℕ) → Faithful v → Known f → Kept v f (encode_as c v f)
  kept v f faith (inl h) = rw h (kept_pickle v faith)
  kept v f faith (inr (inl h)) = rw h (kept_json v faith)
  kept v f faith (inr (inr (inl h))) = rw h (kept_bytes v)
  kept v f faith (inr (inr (inr h))) = rw h (kept_utf8 v faith)

  abbrev Decodes : Object P → ℕ → List ℕ → ℕ → Type 0
  Decodes v f b fl = decode_value c b fl ≡ (ok (stored v f), false)

  Decodes-Known :
      (v : Object P) (f : ℕ) (b : List ℕ)
      → Known f
      → decode_as c b f ≡ ok (stored v f)
      → Decodes v f b f × Decodes v f b (legacy_mask f)
  unfolding decode_value
  Decodes-Known v f b k h = (
    rw ((recognized f k).0, h) (ap (λ (w : Bool). (ok (stored v f), w)) (if_same (f == fmt_bytes))),
    rw ((recognized f k).1, h) (ap (λ (w : Bool). (ok (stored v f), w)) (if_same (f == fmt_bytes))),
  )

  Decodes-encode_as :
      (v : Object P) (f : ℕ)
      → Faithful v
      → (b : List ℕ) (fl : ℕ) → encode_as c v f ≡ ok (b, fl)
      → Decodes v f b fl × Decodes v f b (legacy_mask fl)
  Decodes-encode_as v f faith b fl e =
      elim (Bool-cases (contains (fmt_pickle ∷ fmt_json ∷ fmt_bytes ∷ fmt_utf8 ∷ []) f)) [
        | inl h ↦
            let k = Known-contains f h in
            let (same, decoded) = subst (Kept v f) e (kept v f faith k) in
            rw same (Decodes-Known v f b k decoded)
        | inr h ↦ let z = unknown_err v faith f h in cc
      ]

  abbrev Fits : Object P → ℕ → Result (List ℕ × ℕ) → Type 0
  Fits v f (ok (b, fl)) = Decodes v f b fl
  Fits v f (err x) = Unit

  Decodes-legacy :
      (v : Object P) (f : ℕ) (r : Result (List ℕ × ℕ))
      → ((b : List ℕ) (fl : ℕ) → r ≡ ok (b, fl) → Decodes v f b (legacy_mask fl))
      → (b : List ℕ) (fl : ℕ) → bind r (legacy_flags c) ≡ ok (b, fl)
      → Decodes v f b fl
  Decodes-legacy v f (ok (b, fl)) h b' fl' e = subst (Fits v f) e (h b fl refl)
  Decodes-legacy v f (err x) h b fl e = cc

  -- Whatever `encode_value` makes of an object under a format, and whatever the legacy transcoder makes of
  -- it, `decode_value` turns back into the object without a warning, if the codecs are faithful on it; of a
  -- bytearray that is stored as bytes it gives the bytes.
  pub decode_value-encode_value :
      (v : Object P) (format : Format)
      → Faithful v
      → ((b : List ℕ) (flags : ℕ)
          → encode_value c v format ≡ ok (b, flags)
          → decode_value c b flags ≡ (ok (stored v (chosen v format)), false))
        × ((b : List ℕ) (flags : ℕ)
            → encode_value_legacy c v format ≡ ok (b, flags)
            → decode_value c b flags ≡ (ok (stored v (chosen v format)), false))
  unfolding encode_value encode_value_legacy
  decode_value-encode_value v format faith = (
    λ b fl e. (Decodes-encode_as v (chosen v format) faith b fl e).0,
    Decodes-legacy v (chosen v format) (encode_value c v format)
        λ b fl e. (Decodes-encode_as v (chosen v format) faith b fl e).1,
  )
