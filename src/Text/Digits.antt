-- ===== src/Text/Digits.antt =====
-- A decimal print holds digits only, so trimming leaves it and `Atoi` reads it back.
use Prim.Native.Char.{code}
use text.Mathlib.TextLemmas.{cons-ne-nil}
use smallworld_be.Prelude.{
  eq_iff, ℕ, zero, suc, ◌+◌, ◌-◌, ◌*◌, ◌/◌, ◌%◌, ◌^◌, ◌≤◌, ◌<◌, ◌≡◌, refl, ap, ◌∙◌, inl, inr, false,
  ◌==◌, some, String, ltb, arith, Bool-cases, ltb→lt,
}
use smallworld_be.Prelude.Int.{pos}
use smallworld_be.Text.{is_space, trim_left, trim_right, trim_space}
use smallworld_be.Text.Conv.{digits, atoi}
use smallworld_be.Text.Decimal.{digit, emit, decimal, value, code-digit, value-decimal}

abbrev AllDigits : String → Type 0
AllDigits String.[] = Unit
AllDigits (String.◌∷◌ c s) = (b'0' ≤ code c) × (code c ≤ b'9') × AllDigits s

abbrev IsCons : String → Type 0
IsCons String.[] = ⊥
IsCons (String.◌∷◌ c s) = Unit

digit-IsDigit : (d : ℕ) → d < 10 → (b'0' ≤ code (digit d)) × (code (digit d) ≤ b'9')
digit-IsDigit d h = (omega (arith, code-digit d h), omega (arith, code-digit d h))

emit-AllDigits : (fuel n : ℕ) (out : String) → AllDigits out → AllDigits (emit fuel n out)
unfolding emit
emit-AllDigits zero n out h = h
emit-AllDigits (suc fuel) n out h = elim (Bool-cases (ltb n 10)) [
  | inl e ↦ let d = digit-IsDigit n (ltb→lt n 10 e) in rw e (d.0, d.1, h)
  | inr e ↦
      let d = digit-IsDigit (n % 10) (omega arith) in
      rw e (emit-AllDigits fuel (n / 10) _ (d.0, d.1, h))
]

emit-IsCons : (fuel n : ℕ) (out : String) → IsCons out → IsCons (emit fuel n out)
unfolding emit
emit-IsCons zero n out h = h
emit-IsCons (suc fuel) n out h = elim (Bool-cases (ltb n 10)) [
  | inl e ↦ rw e tt
  | inr e ↦ rw e (emit-IsCons fuel (n / 10) _ tt)
]

decimal-IsCons : (n : ℕ) → IsCons (decimal n)
unfolding decimal emit
decimal-IsCons n = elim (Bool-cases (ltb n 10)) [
  | inl e ↦ rw e tt
  | inr e ↦ rw e (emit-IsCons n (n / 10) _ tt)
]

decimal-AllDigits : (n : ℕ) → AllDigits (decimal n)
unfolding decimal
decimal-AllDigits n = emit-AllDigits (suc n) n "" tt

digit-not_space : (c : ℕ) → b'0' ≤ c → c ≤ b'9' → is_space c ≡ false
unfolding is_space
digit-not_space c h k = ground arith

trim_left-digits : (s : String) → AllDigits s → trim_left s ≡ s
unfolding trim_left
trim_left-digits String.[] a = refl
trim_left-digits (String.◌∷◌ c s) a = rw (digit-not_space (code c) a.0 a.1) refl

trim_right-digits : (s : String) → AllDigits s → trim_right s ≡ s
unfolding trim_right
trim_right-digits String.[] a = refl
trim_right-digits (String.◌∷◌ c s) a =
    ground (arith, digit-not_space (code c) a.0 a.1, trim_right-digits s a.2)

digits-value : (s : String) (n : ℕ) → AllDigits s → digits s n ≡ some (value s n)
unfolding digits value
digits-value String.[] n a = refl
digits-value (String.◌∷◌ c s) n a = ground (arith, digits-value s (n * 10 + (code c - b'0')) a.2)

atoi-digits :
    (s : String) → AllDigits s → IsCons s → value s 0 < 2 ^ 63 → atoi s ≡ some (pos (value s 0))
unfolding atoi
atoi-digits String.[] a i h = absurd i
atoi-digits (String.◌∷◌ c s) a i h = ground (arith, digits-value (String.◌∷◌ c s) 0 a)

pub trim_space-decimal : (n : ℕ) → trim_space (decimal n) ≡ decimal n
unfolding trim_space
trim_space-decimal n =
    ap trim_right (trim_left-digits (decimal n) (decimal-AllDigits n))
    ∙ trim_right-digits (decimal n) (decimal-AllDigits n)

pub atoi-decimal : (n : ℕ) → n < 2 ^ 63 → atoi (decimal n) ≡ some (pos n)
atoi-decimal n h =
    atoi-digits (decimal n) (decimal-AllDigits n) (decimal-IsCons n) (rw (value-decimal n) h)
    ∙ ap (λ (m : ℕ). some (pos m)) (value-decimal n)

IsCons-not_empty : (s : String) → IsCons s → (s == "") ≡ false
IsCons-not_empty String.[] i = absurd i
IsCons-not_empty (String.◌∷◌ c s) i = elim (Bool-cases (String.◌∷◌ c s == "")) [
  | inl e ↦ absurd (cons-ne-nil c s ((eq_iff (String.◌∷◌ c s) "").0 e))
  | inr e ↦ e
]

pub decimal-not_empty : (n : ℕ) → (decimal n == "") ≡ false
decimal-not_empty n = IsCons-not_empty (decimal n) (decimal-IsCons n)
