-- ===== src/Metrics/Texts.antt =====
-- internal/metrics/metrics.go: the metrics' values as texts, by `strconv.Itoa` and `FormatInt`.
use Prim.Native.Char.{Char, code}
use Prim.Native.String.{char_at}
use cipolin.Base.{
  ℕ, zero, suc, ◌+◌, ◌*◌, ◌/◌, ◌%◌, ◌-◌, ◌^◌, ◌<◌, ◌≡◌, refl, sym, ap, ◌∙◌, true, false, some, leb,
  ltb, ◌==◌, if◌then◌else◌, arith, Bool-cases, ◌≢◌, ◌⊎◌, false≢true, inl, inr, ==_iff,
}
use cipolin.Base.Int.{ℤ, pos, negsuc, ◌-ℤ◌, IsInt64}
use cipolin.Base.Tables.{holds_until, holds-below}
use cipolin.Base.Texts.{String}
use cipolin.Metrics.Zaps.{parse_digits, unsigned, in_range, parse_int}

abbrev pub digit : ℕ → Char
digit d = char_at "0123456789" d

-- The digits of a number in front of a text, with fuel that no number of digits exceeds.
unfoldable pub put_digits : ℕ → ℕ → String → String
put_digits zero n rest = rest
put_digits (suc fuel) n rest =
    let longer = put_digits fuel (n / 10) (String.◌∷◌ (digit (n % 10)) rest) in
    if n / 10 == 0 then String.◌∷◌ (digit (n % 10)) rest else longer

abbrev pub decimal : ℕ → String
decimal n = put_digits (suc n) n String.[]

-- The text of an integer.
unfoldable pub itoa : ℤ → String
unfolding put_digits
itoa (pos n) = decimal n
itoa (negsuc n) = String.◌∷◌ (char_at "-" 0) (decimal (suc n))

code-digit : (d : ℕ) → d < 10 → code (digit d) ≡ 48 + d
unfolding holds_until
code-digit d h =
    (==_iff (code (digit d)) (48 + d)).0 (holds-below (λ k. code (digit k) == (48 + k)) 10 d h refl)

-- A digit adds to the value that is parsed.
parse_digits-digit :
    (value d : ℕ) (rest : String)
    → d < 10
    → parse_digits value (String.◌∷◌ (digit d) rest) ≡ parse_digits (value * 10 + d) rest
unfolding parse_digits
parse_digits-digit value d rest h =
    let is = code-digit d h in
    let low : leb 48 (48 + d) ≡ true = ground (arith, h) in
    let high : leb (48 + d) 57 ≡ true = ground (arith, h) in
    let back : 48 + d - 48 ≡ d = omega arith in rw (is, low, high, back) refl

-- What is parsed of the digits of a number is the number.
parse_digits-put_digits :
    (fuel n : ℕ) (rest : String)
    → n < fuel
    → parse_digits 0 (put_digits fuel n rest) ≡ parse_digits n rest
unfolding put_digits
parse_digits-put_digits zero n rest h = absurd (omega arith)
parse_digits-put_digits (suc fuel) n rest h = elim (Bool-cases (n / 10 == 0)) [
  | inl last ↦
      let small = (==_iff (n / 10) 0).0 last in
      let same : 0 * 10 + n % 10 ≡ n = omega (arith, small) in
      rw last
        (parse_digits-digit 0 (n % 10) rest (omega arith) ∙ ap (λ v. parse_digits v rest) same)
  | inr more ↦
      let large : n / 10 ≢ 0 = λ e. absurd (false≢true (sym more ∙ (==_iff (n / 10) 0).1 e)) in
      let whole : n / 10 * 10 + n % 10 ≡ n = omega arith in
      rw more (
        parse_digits-put_digits fuel (n / 10) (String.◌∷◌ (digit (n % 10)) rest)
          (omega (arith, large))
        ∙ parse_digits-digit (n / 10) (n % 10) rest (omega arith)
        ∙ ap (λ v. parse_digits v rest) whole)
]

-- A text that begins with a digit, and its first character.
abbrev BeginsDigit : String → Type 0
BeginsDigit String.[] = ⊥
BeginsDigit (String.◌∷◌ c s) = (d : ℕ) × (code c ≡ 48 + d)

put_digits-BeginsDigit :
    (fuel n : ℕ) (rest : String)
    → (0 < fuel) ⊎ BeginsDigit rest
    → BeginsDigit (put_digits fuel n rest)
unfolding put_digits
put_digits-BeginsDigit zero n rest (inl h) = absurd (omega arith)
put_digits-BeginsDigit zero n rest (inr b) = b
put_digits-BeginsDigit (suc fuel) n rest h =
    let first : BeginsDigit (String.◌∷◌ (digit (n % 10)) rest) =
      (n % 10, code-digit (n % 10) (omega arith)) in
    elim (Bool-cases (n / 10 == 0)) [
      | inl last ↦ rw last first
      | inr more ↦
          rw more
            (put_digits-BeginsDigit fuel (n / 10) (String.◌∷◌ (digit (n % 10)) rest) (inr first))
    ]

parse_int-unsigned : (s : String) → BeginsDigit s → parse_int s ≡ in_range false (parse_digits 0 s)
unfolding parse_int
parse_int-unsigned String.[] b = absurd b
parse_int-unsigned (String.◌∷◌ c s) (d, is) =
    let minus : (code c == 45) ≡ false = ground (arith, is) in
    let plus : (code c == 43) ≡ false = ground (arith, is) in rw (minus, plus) refl

parse_digits-decimal : (n : ℕ) → parse_digits 0 (decimal n) ≡ some n
unfolding parse_digits
parse_digits-decimal n = parse_digits-put_digits (suc n) n String.[] (omega arith)

unsigned-digits : (s : String) → BeginsDigit s → unsigned s ≡ parse_digits 0 s
unsigned-digits String.[] b = absurd b
unsigned-digits (String.◌∷◌ c s) b = refl

parse_int-minus :
    (s : String) → parse_int (String.◌∷◌ (char_at "-" 0) s) ≡ in_range true (unsigned s)
unfolding parse_int
parse_int-minus s = refl

zero-sub : (n : ℕ) → pos 0 -ℤ pos (suc n) ≡ negsuc n
unfolding ◌-ℤ◌
zero-sub n = ground arith

-- A text of an int64 parses back to it.
pub parse_int-itoa : (z : ℤ) → IsInt64 z → parse_int (itoa z) ≡ some z
unfolding itoa
parse_int-itoa (pos n) h =
    let begins = put_digits-BeginsDigit (suc n) n String.[] (inl (omega arith)) in
    let below : ltb n (2 ^ 63) ≡ true = ground (arith, h.0) in
    parse_int-unsigned (decimal n) begins
    ∙ ap (in_range false) (parse_digits-decimal n)
    ∙ rw below refl
parse_int-itoa (negsuc n) h =
    let begins = put_digits-BeginsDigit (suc (suc n)) (suc n) String.[] (inl (omega arith)) in
    let below : leb (suc n) (2 ^ 63) ≡ true = ground (arith, h.1) in
    parse_int-minus (decimal (suc n))
    ∙ ap (in_range true) (unsigned-digits (decimal (suc n)) begins ∙ parse_digits-decimal (suc n))
    ∙ rw below (ap some (zero-sub n))
