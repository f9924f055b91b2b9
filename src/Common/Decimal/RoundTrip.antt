-- ===== src/Common/Decimal/RoundTrip.antt =====
-- Reading back the decimal digits of a number.
use Prim.Native.Char.{Char}
use Prim.Native.Nat.{ℕ, zero, suc, ◌+◌, ◌*◌, ◌/◌, ◌%◌, ◌<◌}
use Prim.Native.String
use Prim.Native.String.{String}
use mathlib.Core.Path.{◌≡◌, sym, ap, ◌∙◌}
use mathlib.Core.Option.{some}
use mathlib.Core.Logic.{inl, inr}
use text.Mathlib.TextLemmas.{append-nil, append_assoc, cons-append, nil-append}
use opanel.Common.Tests.{ltb, Bool-cases}
use native.Mathlib.Omega.{arith}
use opanel.Common.Decimal.{digit_names, nth, digit, decimal_from, decimal, number_from, number_of}

number_from-one :
    (a : ℕ) (c : Char) (t : String)
    → number_from a (String.◌++◌ (String.◌∷◌ c "") t) ≡ number_from a (String.◌∷◌ c t)
number_from-one a c t =
    ap (λ s. number_from a s) (cons-append c "" t ∙ ap (String.◌∷◌ c) (nil-append t))

-- A digit that is read moves the number up by a power of ten.
number_from-digit :
    (a d : ℕ) (t : String)
    → d < 10
    → number_from a (String.◌++◌ (digit d) t) ≡ number_from (a * 10 + d) t
unfolding digit nth digit_names number_from
number_from-digit a zero t h = number_from-one a "0" t
number_from-digit a (suc zero) t h = number_from-one a "1" t
number_from-digit a (suc (suc zero)) t h = number_from-one a "2" t
number_from-digit a (suc (suc (suc zero))) t h = number_from-one a "3" t
number_from-digit a (suc (suc (suc (suc zero)))) t h = number_from-one a "4" t
number_from-digit a (suc (suc (suc (suc (suc zero))))) t h = number_from-one a "5" t
number_from-digit a (suc (suc (suc (suc (suc (suc zero)))))) t h = number_from-one a "6" t
number_from-digit a (suc (suc (suc (suc (suc (suc (suc zero))))))) t h = number_from-one a "7" t
number_from-digit a (suc (suc (suc (suc (suc (suc (suc (suc zero)))))))) t h =
    number_from-one a "8" t
number_from-digit a (suc (suc (suc (suc (suc (suc (suc (suc (suc zero))))))))) t h =
    number_from-one a "9" t
number_from-digit a (suc (suc (suc (suc (suc (suc (suc (suc (suc (suc d)))))))))) t h =
    absurd (omega arith)

number_from-decimal :
    (fuel n : ℕ) (t : String)
    → n < fuel
    → number_from 0 (String.◌++◌ (decimal_from fuel n) t) ≡ number_from n t
unfolding decimal_from
number_from-decimal zero n t h = absurd (omega arith)
number_from-decimal (suc fuel) n t h = elim (Bool-cases (ltb n 10)) [
  | inl less ↦
      rw less (number_from-digit 0 n t (ground arith) ∙ ap (λ m. number_from m t) (omega arith))
  | inr more ↦ rw more (
      ap (number_from 0) (append_assoc (decimal_from fuel (n / 10)) (digit (n % 10)) t)
      ∙ number_from-decimal fuel (n / 10) (String.◌++◌ (digit (n % 10)) t) (ground arith)
      ∙ number_from-digit (n / 10) (n % 10) t (omega arith)
      ∙ ap (λ m. number_from m t) (omega arith))
]

-- A number that is written in decimal digits is read back.
pub number_of-decimal : (n : ℕ) → number_of (decimal n) ≡ some n
unfolding number_of decimal number_from
number_of-decimal n =
    ap (number_from 0) (sym (append-nil (decimal_from (suc n) n)))
    ∙ number_from-decimal (suc n) n String.[] (omega arith)
