-- ===== src/Hub/Auth/Decimal.antt =====
-- hub/auth.go, itoa: the decimal text of the seconds to wait, as bytes. The buffer has 20 places.
use sakura_assistant.Base.{
  ℕ, zero, suc, ◌+◌, ◌-◌, ◌*◌, ◌/◌, ◌%◌, ◌^◌, ◌≤◌, ◌<◌, ◌≡◌, refl, Option, none, some, List, [],
  ◌∷◌, arith, inl, inr, Bool-cases, eqb, All, if◌then◌else◌,
}
use mathlib.Core.Path.{subst}

-- The loop `for n > 0`, with as many rounds as there are places left; `none` is an index out of
-- range. The digits made so far stand behind.
unfoldable pub itoa_from : ℕ → ℕ → List ℕ → Option (List ℕ)
itoa_from zero n out = if eqb n 0 then some out else none
itoa_from (suc places) n out =
    let rest = itoa_from places (n / 10) ((48 + n % 10) ∷ out) in if eqb n 0 then some out else rest

unfoldable pub itoa : ℕ → Option (List ℕ)
itoa n = if eqb n 0 then some (49 ∷ []) else itoa_from 20 n []

-- The number that decimal digits spell, behind the number before them.
abbrev pub value : ℕ → List ℕ → ℕ
value n [] = n
value n (c ∷ cs) = value (n * 10 + (c - 48)) cs

abbrev pub IsDigit : ℕ → Type 0
IsDigit c = (48 ≤ c) × (c ≤ 57)

-- A text that is there, that spells the number, in digits only.
abbrev pub Spells : ℕ → Option (List ℕ) → Type 0
Spells n none = ⊥
Spells n (some text) = (value 0 text ≡ n) × All IsDigit text

-- The numbers of that many places are below this one.
abbrev capacity : ℕ → ℕ
capacity zero = 1
capacity (suc places) = 10 * capacity places

itoa_from-Spells :
    (places n : ℕ) (out : List ℕ) (whole : ℕ)
    → n < capacity places
    → value n out ≡ whole
    → All IsDigit out
    → Spells whole (itoa_from places n out)
unfolding itoa_from
itoa_from-Spells zero n out whole fits v d =
    let e : n ≡ 0 = omega arith in rw e (subst (λ k. value k out ≡ whole) e v, d)
itoa_from-Spells (suc places) n out whole fits v d = elim (Bool-cases (eqb n 0)) [
  | inl done ↦ rw done (subst (λ k. value k out ≡ whole) (ground (arith, done)) v, d)
  | inr more ↦ rw more (
      itoa_from-Spells places (n / 10) ((48 + n % 10) ∷ out) whole (omega (arith, fits))
        (subst (λ k. value k out ≡ whole) (omega arith) v) (omega arith, d))
]

-- For every positive int64, the text is there, that is, no index is out of range, it consists of digits
-- only, and it spells the number.
pub itoa-Spells : (n : ℕ) → 0 < n → n < 2 ^ 63 → Spells n (itoa n)
unfolding itoa
itoa-Spells n positive fits = elim (Bool-cases (eqb n 0)) [
  | inl none_left ↦ ground arith
  | inr more ↦ rw more (itoa_from-Spells 20 n [] n (omega arith) refl tt)
]
