-- ===== src/Base/Text/Decimal.antt =====
-- `${n}` determines `n`, and has no character but digits.
use Prim.Native.Nat.{ℕ, zero, suc, ◌+◌, ◌-◌, ◌*◌, ◌/◌, ◌%◌, ◌<◌}
use Prim.Native.Char.{Char, code}
use Prim.Native.String.{String, [], ◌∷◌}
use mathlib.Core.Path.{◌≡◌, refl, ap, ◌∙◌, sym}
use mathlib.Core.Logic.{◌≢◌, inl, inr}
use native.Mathlib.Omega.{arith}
use digital_life_memory_fabr.Base.Tests.{ltb, Bool-cases, ltb→lt}
use digital_life_memory_fabr.Base.Text.{digit, digits_before, decimal}

code-digit : (n : ℕ) → n < 10 → code (digit n) ≡ 48 + n
unfolding digit
code-digit zero h = refl
code-digit (suc zero) h = refl
code-digit (suc (suc zero)) h = refl
code-digit (suc (suc (suc zero))) h = refl
code-digit (suc (suc (suc (suc zero)))) h = refl
code-digit (suc (suc (suc (suc (suc zero))))) h = refl
code-digit (suc (suc (suc (suc (suc (suc zero)))))) h = refl
code-digit (suc (suc (suc (suc (suc (suc (suc zero))))))) h = refl
code-digit (suc (suc (suc (suc (suc (suc (suc (suc zero)))))))) h = refl
code-digit (suc (suc (suc (suc (suc (suc (suc (suc (suc zero))))))))) h = refl
code-digit (suc (suc (suc (suc (suc (suc (suc (suc (suc (suc n)))))))))) h = absurd (omega arith)

-- The number that digits stand for, after `acc`.
value : ℕ → String → ℕ
value acc [] = acc
value acc (c ∷ s) = value (acc * 10 + (code c - 48)) s

value-digits_before :
    (f n : ℕ) (rest : String) → n < f → value 0 (digits_before f n rest) ≡ value n rest
unfolding digits_before value
value-digits_before zero n rest h = absurd (omega arith)
value-digits_before (suc f) n rest h = elim (Bool-cases (ltb n 10)) [
  | inl small ↦ rw small (ap (λ k. value k rest) (omega (arith, code-digit n (ltb→lt n 10 small))))
  | inr big ↦ rw big (
      value-digits_before f (n / 10) (digit (n % 10) ∷ rest) (ground arith)
      ∙ ap (λ k. value k rest) (omega (arith, code-digit (n % 10) (omega arith))))
]

pub decimal-injective : (m n : ℕ) → decimal m ≡ decimal n → m ≡ n
unfolding decimal value
decimal-injective m n h =
    sym (value-digits_before (suc m) m [] (omega arith))
    ∙ (ap (value 0) h ∙ value-digits_before (suc n) n [] (omega arith))

-- The character stands nowhere in the text.
abbrev pub Lacks : Char → String → Type 0
Lacks c [] = Unit {0}
Lacks c (d ∷ s) = (d ≢ c) × Lacks c s

digit-ne-colon : (n : ℕ) → n < 10 → digit n ≢ ":"
digit-ne-colon n h e = absurd (omega (arith, code-digit n h, ap code e))

digits_before-Lacks :
    (f n : ℕ) (rest : String) → Lacks ":" rest → Lacks ":" (digits_before f n rest)
unfolding digits_before
digits_before-Lacks zero n rest h = h
digits_before-Lacks (suc f) n rest h = elim (Bool-cases (ltb n 10)) [
  | inl small ↦ rw small (digit-ne-colon n (ltb→lt n 10 small), h)
  | inr big ↦ rw big (
      digits_before-Lacks f (n / 10) (digit (n % 10) ∷ rest)
        (digit-ne-colon (n % 10) (omega arith), h))
]

pub decimal-Lacks : (n : ℕ) → Lacks ":" (decimal n)
unfolding decimal
decimal-Lacks n = digits_before-Lacks (suc n) n [] tt
