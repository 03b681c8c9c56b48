-- ===== src/Metrics/Service/Enqueue/Ranges.antt =====
-- The affected range of the job that `enqueue_recalculate_metrics_job` of app/metrics/service.py leaves.
use native.Mathlib.Decide.{dec_lt}
use adept_engine.Base.{
  ℕ, ◌≡◌, ◌≤◌, refl, ap, sym, ◌∙◌, true, false, Option, none, some, [], ◌∷◌, Text, codes, same, min,
  max, arith, Bool-cases, inl, inr, same_iff, same_refl,
}
use adept_engine.Values.Json.{Json, Fields, end_fields, field, get, as_text}
use adept_engine.Metrics.Service.Iso.{isoformat}
use adept_engine.Metrics.Service.Iso.Order.{text_ltb, text_ltb-head_eq, isoformat-lt, IsDated}
use adept_engine.Metrics.Service.Enqueue.{
  least, greatest, text_of, json_of, with_field, merge_payload,
}

get-head : (key : Text) (value : Json) (fs : Fields) → get key (field key value fs) ≡ value
unfolding get
get-head key value fs = rw (same_refl key, get) refl

get-tail :
    (k key : Text) (value : Json) (fs : Fields)
    → same k key ≡ false
    → get key (field k value fs) ≡ get key fs
unfolding get
get-tail k key value fs h = rw (h, get) refl

get-with_field :
    (key : Text) (value : Json) (fs : Fields) → get key (with_field key value fs) ≡ value
unfolding with_field
get-with_field key value end_fields = get-head key value end_fields
get-with_field key value (field k v fs) = elim (Bool-cases (same k key)) [
  | inl e ↦ rw (e, with_field) (get-head key value fs)
  | inr e ↦
      rw (e, with_field)
        (get-tail k key v (with_field key value fs) e ∙ get-with_field key value fs)
]

get-field_cong :
    (k other : Text) (v : Json) (fs gs : Fields)
    → get other fs ≡ get other gs
    → get other (field k v fs) ≡ get other (field k v gs)
unfolding get
get-field_cong k other v fs gs h = elim (Bool-cases (same k other)) [
  | inl e ↦ rw (e, get) refl
  | inr e ↦ rw (e, get) h
]

same_left : (a b c : Text) → same a b ≡ true → same a c ≡ same b c
same_left a b c h = ap (λ x. same x c) ((same_iff a b).0 h)

get-with_field_other :
    (key other : Text) (value : Json) (fs : Fields)
    → same key other ≡ false
    → get other (with_field key value fs) ≡ get other fs
unfolding with_field
get-with_field_other key other value end_fields h = get-tail key other value end_fields h
get-with_field_other key other value (field k v fs) h = elim (Bool-cases (same k key)) [
  | inl e ↦
      rw (e, with_field)
        (get-tail key other value fs h ∙ sym (get-tail k other v fs (same_left k key other e ∙ h)))
  | inr e ↦
      rw (e, with_field)
        (get-field_cong k other v (with_field key value fs) fs
          (get-with_field_other key other value fs h))
]

as_text-json_of : (o : Option Text) → as_text (json_of o) ≡ o
as_text-json_of none = refl
as_text-json_of (some s) = refl

abbrev pub from_key : Text
from_key = codes "affected_from"

abbrev pub to_key : Text
to_key = codes "affected_to"

pub merge_from :
    (old excluded : Fields)
    → text_of from_key (merge_payload old excluded)
      ≡ least (text_of from_key old) (text_of from_key excluded)
unfolding merge_payload
merge_from old excluded =
    let from = least (text_of from_key old) (text_of from_key excluded) in
    let to = greatest (text_of to_key old) (text_of to_key excluded) in
    ap as_text (
      get-with_field_other to_key from_key (json_of to)
        (with_field from_key (json_of from) excluded) refl
      ∙ get-with_field from_key (json_of from) excluded)
    ∙ as_text-json_of from

pub merge_to :
    (old excluded : Fields)
    → text_of to_key (merge_payload old excluded)
      ≡ greatest (text_of to_key old) (text_of to_key excluded)
unfolding merge_payload
merge_to old excluded =
    let from = least (text_of from_key old) (text_of from_key excluded) in
    let to = greatest (text_of to_key old) (text_of to_key excluded) in
    ap as_text (get-with_field to_key (json_of to) (with_field from_key (json_of from) excluded))
    ∙ as_text-json_of to

text_ltb_irrefl : (a : Text) → text_ltb a a ≡ false
unfolding text_ltb
text_ltb_irrefl [] = refl
text_ltb_irrefl (x ∷ a) = text_ltb-head_eq x a a ∙ text_ltb_irrefl a

text_ltb_asym : (a b : Text) → text_ltb a b ≡ true → text_ltb b a ≡ false
unfolding text_ltb
text_ltb_asym [] [] h = absurd (ground arith)
text_ltb_asym [] (y ∷ b) h = refl
text_ltb_asym (x ∷ a) [] h = absurd (ground arith)
text_ltb_asym (x ∷ a) (y ∷ b) h = ground (arith, text_ltb_asym a b)

-- The text of an instant is not less than that of one no later.
not_before : (f a : ℕ) → IsDated a → f ≤ a → text_ltb (isoformat a) (isoformat f) ≡ false
not_before f a d h = elim (dec_lt f a) [
  | yes l ↦ text_ltb_asym (isoformat f) (isoformat a) (isoformat-lt f a l d)
  | no l ↦ let e : f ≡ a = omega arith in rw e (text_ltb_irrefl (isoformat a))
]

pub least-isoformat :
    (f a : ℕ)
    → IsDated f
    → IsDated a
    → least (some (isoformat f)) (some (isoformat a)) ≡ some (isoformat (min f a))
least-isoformat f a d e = elim (dec_lt a f) [
  | yes l ↦ let m : min f a ≡ a = omega arith in rw (isoformat-lt a f l d, m) refl
  | no l ↦ let m : min f a ≡ f = omega arith in rw (not_before f a e (omega arith), m) refl
]

pub greatest-isoformat :
    (f a : ℕ)
    → IsDated f
    → IsDated a
    → greatest (some (isoformat f)) (some (isoformat a)) ≡ some (isoformat (max f a))
greatest-isoformat f a d e = elim (dec_lt f a) [
  | yes l ↦ let m : max f a ≡ a = omega arith in rw (isoformat-lt f a l e, m) refl
  | no l ↦ let m : max f a ≡ f = omega arith in rw (not_before a f d (omega arith), m) refl
]
