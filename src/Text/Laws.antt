-- ===== src/Text/Laws.antt =====
-- A text put together from a prefix, a middle and a suffix comes apart again.
use Prim.Native.Char.{code}
use Prim.Native.String.{[], ◌∷◌, ◌++◌, count}
use text.Mathlib.TextLemmas.{length-cons, length-append, cons-append, nil-append}
use text.Mathlib.TextPositions.{eq_refl}
use smallworld_be.Prelude.{
  ℕ, String, ◌==◌, ◌≡◌, refl, ap, true, false, some, arith, eq_iff, eqb, Bool-cases, inl, inr,
}
use smallworld_be.Text.{strip, trim_prefix, has_suffix, trim_suffix}

eqb_self : (n : ℕ) → eqb n n ≡ true
eqb_self n = ground arith

strip-append : (t s : String) → strip (t ++ s) t ≡ some s
unfolding strip
strip-append [] s = rw (nil-append s) refl
strip-append (c ∷ t) s = rw (cons-append c t s, eqb_self (code c)) (strip-append t s)

pub trim_prefix-append : (t s : String) → trim_prefix (t ++ s) t ≡ s
unfolding trim_prefix
trim_prefix-append t s = rw (strip-append t s) refl

-- A longer text is not the shorter one.
cons-append-ne : (t s : String) (c : _) → ((c ∷ (s ++ t)) == t) ≡ false
cons-append-ne t s c = elim (Bool-cases ((c ∷ (s ++ t)) == t)) [
  | inr e ↦ e
  | inl e ↦ absurd (
      omega (
        arith,
        ap count ((eq_iff (c ∷ (s ++ t)) t).0 e),
        length-cons c (s ++ t),
        length-append s t,
      ))
]

has_suffix_self : (t : String) → has_suffix t t ≡ true
unfolding has_suffix
has_suffix_self [] = refl
has_suffix_self (c ∷ t) = rw (eq_refl (c ∷ t)) refl

pub has_suffix-append : (s t : String) → has_suffix (s ++ t) t ≡ true
unfolding has_suffix
has_suffix-append [] t = rw (nil-append t) (has_suffix_self t)
has_suffix-append (c ∷ s) t = rw (cons-append c s t, cons-append-ne t s c) (has_suffix-append s t)

trim_suffix_self : (t : String) → trim_suffix t t ≡ []
unfolding trim_suffix
trim_suffix_self [] = refl
trim_suffix_self (c ∷ t) = rw (eq_refl (c ∷ t)) refl

pub trim_suffix-append : (s t : String) → trim_suffix (s ++ t) t ≡ s
unfolding trim_suffix
trim_suffix-append [] t = rw (nil-append t) (trim_suffix_self t)
trim_suffix-append (c ∷ s) t =
    rw (cons-append c s t, cons-append-ne t s c)
      (ap (λ (r : String). c ∷ r) (trim_suffix-append s t))
