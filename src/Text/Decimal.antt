-- ===== src/Text/Decimal.antt =====
-- The decimal print of an integer, as Go's fmt makes it, and how its digits are read back.
use Prim.Native.Char.{Char, code}
use Prim.Native.String.{◌++◌}
use smallworld_be.Prelude.{
  ℕ, zero, suc, ◌+◌, ◌-◌, ◌*◌, ◌/◌, ◌%◌, ◌<◌, ◌≡◌, refl, ap, ◌∙◌, inl, inr, String, if◌then◌else◌,
  ltb, arith, Bool-cases, ltb→lt,
}
use smallworld_be.Prelude.Int.{ℤ, pos, negsuc}

-- The decimal digits, as fmt prints them.
unfoldable pub digit : ℕ → Char
digit zero = "0"
digit (suc zero) = "1"
digit (suc (suc zero)) = "2"
digit (suc (suc (suc zero))) = "3"
digit (suc (suc (suc (suc zero)))) = "4"
digit (suc (suc (suc (suc (suc zero))))) = "5"
digit (suc (suc (suc (suc (suc (suc zero)))))) = "6"
digit (suc (suc (suc (suc (suc (suc (suc zero))))))) = "7"
digit (suc (suc (suc (suc (suc (suc (suc (suc zero)))))))) = "8"
digit _ = "9"

-- The loop that puts the digits of `n` in front of `out`.
unfoldable pub emit : ℕ → ℕ → String → String
unfolding digit
emit zero n out = out
emit (suc fuel) n out =
    let rest = emit fuel (n / 10) (String.◌∷◌ (digit (n % 10)) out) in
    if ltb n 10 then String.◌∷◌ (digit n) out else rest

-- %d of a number; a number has fewer digits than ones.
unfoldable pub decimal : ℕ → String
unfolding emit
decimal n = emit (suc n) n ""

-- %d of an int64
unfoldable pub signed_decimal : ℤ → String
unfolding decimal
signed_decimal (pos n) = decimal n
signed_decimal (negsuc n) = "-" ++ decimal (suc n)

-- The number that digits spell behind `n`.
unfoldable pub value : String → ℕ → ℕ
value String.[] n = n
value (String.◌∷◌ c s) n = value s (n * 10 + (code c - b'0'))

pub code-digit : (d : ℕ) → d < 10 → code (digit d) ≡ b'0' + d
unfolding digit
code-digit zero h = refl
code-digit (suc zero) h = refl
code-digit (suc (suc zero)) h = refl
code-digit (suc (suc (suc zero))) h = refl
code-digit (suc (suc (suc (suc zero)))) h = refl
code-digit (suc (suc (suc (suc (suc zero))))) h = refl
code-digit (suc (suc (suc (suc (suc (suc zero)))))) h = refl
code-digit (suc (suc (suc (suc (suc (suc (suc zero))))))) h = refl
code-digit (suc (suc (suc (suc (suc (suc (suc (suc zero)))))))) h = refl
code-digit (suc (suc (suc (suc (suc (suc (suc (suc (suc zero))))))))) h = refl
code-digit (suc (suc (suc (suc (suc (suc (suc (suc (suc (suc d)))))))))) h = absurd (omega arith)

digit-value : (d n : ℕ) → d < 10 → n * 10 + (code (digit d) - b'0') ≡ n * 10 + d
digit-value d n h = omega (arith, code-digit d h)

-- Reading the digits of `n` before `out` is reading `out` behind `n`.
value-emit : (fuel n : ℕ) (out : String) → n < fuel → value (emit fuel n out) 0 ≡ value out n
unfolding emit value
value-emit zero n out h = absurd (omega arith)
value-emit (suc fuel) n out h = elim (Bool-cases (ltb n 10)) [
  | inl e ↦ rw e (ap (value out) (digit-value n 0 (ltb→lt n 10 e) ∙ omega arith))
  | inr e ↦ rw e (
      value-emit fuel (n / 10) _ (ground arith)
      ∙ ap (value out) (digit-value (n % 10) (n / 10) (omega arith) ∙ omega arith))
]

pub value-decimal : (n : ℕ) → value (decimal n) 0 ≡ n
unfolding decimal value
value-decimal n = value-emit (suc n) n "" (omega arith)
