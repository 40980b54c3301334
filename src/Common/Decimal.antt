-- ===== src/Common/Decimal.antt =====
-- `strconv.FormatUint`, `strconv.ParseUint` in base 10, the verb `%d`, and `strings.Split` at one
-- character.
use Prim.Native.Nat.{ℕ, zero, suc, ◌+◌, ◌-◌, ◌*◌, ◌/◌, ◌%◌, ◌≤◌, ◌<◌}
use mathlib.Core.Path.{◌≡◌, refl, ap, sym, ◌∙◌}
use mathlib.Core.Logic.{inl, inr, ◌≢◌}
use mathlib.Core.Bool.{true, false, ◌&&◌}
use mathlib.Core.Option.{Option, none, some}
use mathlib.Core.List.{List, [], ◌∷◌, ◌++◌, append_assoc}
use mathlib.Core.List.{append-nil}
use native.Mathlib.Omega.{arith}
use blahaj_chat_server.Common.Tests.{◌==◌, ltb, leb, if◌then◌else◌, Bool-cases}
use blahaj_chat_server.Common.Lists.{All, All-append, length, length-append}
use blahaj_chat_server.Common.Texts.{Text}

-- The digits of `n`, the fuel above `n`.
digits : ℕ → ℕ → Text
digits zero n = []
digits (suc f) n =
    let rest = digits f (n / 10) ++ (48 + n % 10) ∷ [] in if ltb n 10 then (48 + n) ∷ [] else rest

unfoldable pub format_uint : ℕ → Text
unfolding digits
format_uint n = digits (suc n) n

unfoldable pub parse_digits : ℕ → Text → Option ℕ
parse_digits acc [] = some acc
parse_digits acc (c ∷ s) = elim (leb 48 c && leb c 57) [
  | true ↦ parse_digits (acc * 10 + (c - 48)) s
  | false ↦ none
]

abbrev pub max_uint64 : ℕ
max_uint64 = 18446744073709551615

-- `none` is the error: no digit, a character that is none, or a value of more than 64 bits.
unfoldable pub parse_uint : Text → Option ℕ
unfolding parse_digits
parse_uint [] = none
parse_uint (c ∷ s) = elim (parse_digits 0 (c ∷ s)) [
  | none ↦ none
  | some n ↦ if leb n max_uint64 then some n else none
]

abbrev pub Digits : Text → Type 0
Digits = All (λ c. (48 ≤ c) × (c ≤ 57))

digits-Digits : (f n : ℕ) → Digits (digits f n)
unfolding digits
digits-Digits zero n = tt
digits-Digits (suc f) n = elim (Bool-cases (ltb n 10)) [
  | inl e ↦ rw e (ground arith)
  | inr e ↦ rw e (
      All-append (λ c. (48 ≤ c) × (c ≤ 57)) (digits f (n / 10)) _ (digits-Digits f (n / 10))
        (omega arith))
]

pub format_uint-Digits : (n : ℕ) → Digits (format_uint n)
unfolding format_uint
format_uint-Digits n = digits-Digits (suc n) n

parse_digits_step :
    (acc c : ℕ) (s : Text)
    → 48 ≤ c
    → c ≤ 57
    → parse_digits acc (c ∷ s) ≡ parse_digits (acc * 10 + (c - 48)) s
unfolding parse_digits
parse_digits_step acc c s h k = ground arith

parse_digits-digits :
    (f n : ℕ) (t : Text) → n < f → parse_digits 0 (digits f n ++ t) ≡ parse_digits n t
unfolding digits
parse_digits-digits zero n t h = absurd (omega arith)
parse_digits-digits (suc f) n t h = elim (Bool-cases (ltb n 10)) [
  | inl e ↦ rw e (
      parse_digits_step 0 (48 + n) t (omega arith) (ground arith)
      ∙ ap (λ m. parse_digits m t) (omega arith))
  | inr e ↦
      rw (e, append_assoc)
        (parse_digits-digits f (n / 10) ((48 + n % 10) ∷ t) (ground arith)
          ∙ parse_digits_step (n / 10) (48 + n % 10) t (omega arith) (omega arith)
          ∙ ap (λ m. parse_digits m t) (omega arith))
]

parse_digits-format_uint :
    (n : ℕ) (t : Text) → parse_digits 0 (format_uint n ++ t) ≡ parse_digits n t
unfolding format_uint
parse_digits-format_uint n t = parse_digits-digits (suc n) n t (omega arith)

append_cons_ne : (s : Text) (c : ℕ) → s ++ c ∷ [] ≢ []
append_cons_ne [] c e = cc
append_cons_ne (x ∷ s) c e = cc

digits_ne : (f n : ℕ) → digits (suc f) n ≢ []
unfolding digits
digits_ne f n = elim (Bool-cases (ltb n 10)) [
  | inl e ↦ rw e (λ h. cc)
  | inr e ↦ rw e (append_cons_ne (digits f (n / 10)) (48 + n % 10))
]

pub format_uint_ne : (n : ℕ) → format_uint n ≢ []
unfolding format_uint
format_uint_ne n = digits_ne n n

parse_uint-some :
    (s : Text) (n : ℕ) → s ≢ [] → parse_digits 0 s ≡ some n → n ≤ max_uint64 → parse_uint s ≡ some n
unfolding parse_uint
parse_uint-some [] n h e k = absurd (h refl)
parse_uint-some (c ∷ s) n h e k = ground arith

-- A number of 64 bits is read back from its decimal form.
pub parse_uint-format_uint : (n : ℕ) → n ≤ max_uint64 → parse_uint (format_uint n) ≡ some n
unfolding parse_digits
parse_uint-format_uint n h =
    parse_uint-some (format_uint n) n (format_uint_ne n)
      (ap (parse_digits 0) (sym (append-nil (format_uint n))) ∙ parse_digits-format_uint n []) h

cons_head : ℕ → List Text → List Text
cons_head c [] = (c ∷ []) ∷ []
cons_head c (s ∷ ss) = (c ∷ s) ∷ ss

-- `strings.Split(s, sep)` for a separator of one character.
unfoldable pub split : ℕ → Text → List Text
unfolding cons_head
split sep [] = [] ∷ []
split sep (c ∷ s) = let rest = split sep s in if c == sep then [] ∷ rest else cons_head c rest

pub split_none : (sep : ℕ) (s : Text) → All (λ c. (c == sep) ≡ false) s → split sep s ≡ s ∷ []
unfolding split
split_none sep [] h = refl
split_none sep (c ∷ s) h = rw (h.0, split_none sep s h.1)

pub split_one :
    (sep : ℕ) (s t : Text)
    → All (λ c. (c == sep) ≡ false) s
    → split sep (s ++ sep ∷ t) ≡ s ∷ split sep t
unfolding split
split_one sep [] t h = ground arith
split_one sep (c ∷ s) t h = rw (h.0, split_one sep s t h.1)

abbrev pub pow10 : ℕ → ℕ
pow10 zero = 1
pow10 (suc k) = 10 * pow10 k

length-digits : (f n k : ℕ) → n < pow10 (suc k) → length (digits f n) ≤ suc k
unfolding digits
length-digits zero n k h = omega arith
length-digits (suc f) n zero h = ground arith
length-digits (suc f) n (suc k) h = elim (Bool-cases (ltb n 10)) [
  | inl e ↦ rw e (omega arith)
  | inr e ↦ rw e (
      omega (
        arith,
        length-append (digits f (n / 10)) ((48 + n % 10) ∷ []),
        length-digits f (n / 10) k (omega arith),
      ))
]

-- A number below 10^k has at most k digits.
pub length-format_uint : (n k : ℕ) → n < pow10 (suc k) → length (format_uint n) ≤ suc k
unfolding format_uint
length-format_uint n k h = length-digits (suc n) n k h
