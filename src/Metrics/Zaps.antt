-- ===== src/Metrics/Zaps.antt =====
-- internal/metrics/metrics.go: the amounts of zaps and nutzaps.
use Prim.Native.Char.{code}
use cipolin.Base.{
  ℕ, suc, ◌+◌, ◌-◌, ◌*◌, ◌/◌, ◌^◌, Bool, true, false, ◌&&◌, List, [], ◌∷◌, Option, none, some, leb,
  ltb, ◌==◌, if◌then◌else◌,
}
use cipolin.Base.Int.{ℤ, pos, negsuc, add64, ◌-ℤ◌}
use cipolin.Base.Texts.{String, str_eq}
use cipolin.Nostr.{Tag, Event}

-- `encoding/json` on the three shapes that the source decodes: the tags of a zap request, a list
-- of Cashu proofs and a single proof, the last two by their amounts.
pub record Json : Type 0 where
  pub zap_tags : String → Option (List Tag)
  pub proofs : String → Option (List ℤ)
  pub proof : String → Option ℤ

-- The digits of `strconv.ParseInt` in base 10, with the value so far.
unfoldable pub parse_digits : ℕ → String → Option ℕ
parse_digits value String.[] = some value
parse_digits value (String.◌∷◌ c s) =
    let rest = parse_digits (value * 10 + (code c - 48)) s in
    if leb 48 (code c) && leb (code c) 57 then rest else none

abbrev pub unsigned : String → Option ℕ
unsigned String.[] = none
unsigned (String.◌∷◌ c s) = parse_digits 0 (String.◌∷◌ c s)

abbrev pub in_range : Bool → Option ℕ → Option ℤ
in_range negative none = none
in_range true (some n) = if leb n (2 ^ 63) then some (pos 0 -ℤ pos n) else none
in_range false (some n) = if ltb n (2 ^ 63) then some (pos n) else none

-- `strconv.ParseInt(s, 10, 64)`; `none` is its error.
unfoldable pub parse_int : String → Option ℤ
unfolding parse_digits ◌-ℤ◌
parse_int String.[] = none
parse_int (String.◌∷◌ c s) =
    if code c == 45
    then in_range true (unsigned s)
    else if code c == 43
    then in_range false (unsigned s)
    else in_range false (unsigned (String.◌∷◌ c s))

-- The division of an int64 by a number, towards zero.
unfoldable pub quot : ℤ → ℕ → ℤ
quot (pos n) d = pos (n / d)
quot (negsuc n) d = elim (suc n / d) [ ℕ.zero ↦ pos 0 | ℕ.suc q ↦ negsuc q ]

-- The value of a tag with this name, which has two entries at least.
unfoldable pub tag_value : String → Tag → Option String
tag_value name [] = none
tag_value name (n ∷ []) = none
tag_value name (n ∷ v ∷ rest) = if str_eq n name then some v else none

module _ (json : Json) where
  open json use {zap_tags, proofs, proof}

  abbrev parsed : Option ℤ → ℤ → ℤ
  parsed none rest = rest
  parsed (some amount) rest = amount

  abbrev named : Option String → (String → Option ℤ) → Option ℤ
  named none f = none
  named (some v) f = f v

  -- The first `amount` tag that holds a number.
  unfoldable pub first_amount : List Tag → ℤ
  unfolding tag_value parse_int
  first_amount [] = pos 0
  first_amount (t ∷ ts) = parsed (named (tag_value "amount" t) parse_int) (first_amount ts)

  unfoldable pub extract_amount_from_zap_request : String → ℤ
  unfolding first_amount
  extract_amount_from_zap_request description = elim (zap_tags description) [
    | none ↦ pos 0
    | some ts ↦ first_amount ts
  ]

  unfoldable pub add_proofs : ℤ → List ℤ → ℤ
  unfolding add64
  add_proofs total [] = total
  add_proofs total (a ∷ amounts) = add_proofs (add64 total a) amounts

  -- A proof tag: a list of proofs, else a single one, else nothing.
  unfoldable pub add_proof_tag : ℤ → String → ℤ
  unfolding add64 add_proofs
  add_proof_tag total value = elim (proofs value) [
    | some amounts ↦ add_proofs total amounts
    | none ↦ elim (proof value) [ none ↦ total | some a ↦ add64 total a ]
  ]

  abbrev with_proof : ℤ → Option String → ℤ
  with_proof total none = total
  with_proof total (some value) = add_proof_tag total value

  unfoldable pub add_proof_tags : ℤ → List Tag → ℤ
  unfolding tag_value add_proof_tag
  add_proof_tags total [] = total
  add_proof_tags total (t ∷ ts) = add_proof_tags (with_proof total (tag_value "proof" t)) ts

  unfoldable pub extract_amount_from_nutzap : Event → ℤ
  unfolding add_proof_tags
  extract_amount_from_nutzap e = add_proof_tags (pos 0) e.tags

  abbrev described : Option String → ℤ → ℤ
  described none rest = rest
  described (some v) rest = quot (extract_amount_from_zap_request v) 1000

  -- The sats of a zap: those of its first description, in millisats there.
  unfoldable pub zap_sats : List Tag → ℤ
  unfolding tag_value extract_amount_from_zap_request quot
  zap_sats [] = pos 0
  zap_sats (t ∷ ts) = described (tag_value "description" t) (zap_sats ts)
