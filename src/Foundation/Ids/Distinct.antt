-- ===== src/Foundation/Ids/Distinct.antt =====
-- The number at the end of an id can be read back, so ids with different numbers differ.
use Prim.Native.Char.{code}
use Prim.Native.String.{◌++◌}
use text.Mathlib.TextLemmas.{nil-append, cons-append, append_assoc}
use smallworld_be.Prelude.{
  ℕ, zero, suc, ◌+◌, ◌/◌, ◌%◌, ◌^◌, ◌≤◌, ◌<◌, ◌≡◌, ◌≢◌, refl, sym, ap, ◌∙◌, inl, inr, String,
  Option, none, some, List, [], ◌∷◌, if◌then◌else◌, ltb, eqb, arith, Bool-cases, ltb→lt,
}
use smallworld_be.Prelude.Lists.{All, All-map, length}
use smallworld_be.Domain.Models.{Time}
use smallworld_be.Foundation.Ids.{AtomicIdGenerator, next_seq, new, new_ids}
use smallworld_be.Text.Decimal.{
  digit, emit, decimal, signed_decimal, value, value-decimal, code-digit,
}

some-injective : {m n : ℕ} → some m ≡ some n → m ≡ n
some-injective e = cc

-- What stands behind the last underscore.
after_last : String → Option String
after_last String.[] = none
after_last (String.◌∷◌ c s) = elim (after_last s) [
  | some r ↦ some r
  | none ↦ if eqb (code c) b'_' then some s else none
]

after_last-append : (a d : String) → after_last d ≡ none → after_last (a ++ ("_" ++ d)) ≡ some d
unfolding after_last
after_last-append String.[] d h =
    rw (nil-append ("_" ++ d), cons-append "_" String.[] d, nil-append d) (rw h refl)
after_last-append (String.◌∷◌ c a) d h =
    rw (cons-append c a ("_" ++ d)) (ground (arith, after_last-append a d h))

-- No digit is an underscore.
after_last-digit :
    (d : ℕ) (s : String) → d < 10 → after_last s ≡ none → after_last (String.◌∷◌ (digit d) s) ≡ none
unfolding after_last
after_last-digit d s h e = ground (arith, code-digit d h)

after_last-emit :
    (fuel n : ℕ) (out : String) → after_last out ≡ none → after_last (emit fuel n out) ≡ none
unfolding emit
after_last-emit zero n out h = h
after_last-emit (suc fuel) n out h = elim (Bool-cases (ltb n 10)) [
  | inl e ↦ rw e (after_last-digit n out (ltb→lt n 10 e) h)
  | inr e ↦ rw e (after_last-emit fuel (n / 10) _ (after_last-digit (n % 10) out (omega arith) h))
]

-- The number at the end of an id.
abbrev number_of : Option String → Option ℕ
number_of none = none
number_of (some d) = some (value d 0)

seq_of : String → Option ℕ
seq_of id = number_of (after_last id)

seq_of-append : (a d : String) → after_last d ≡ none → seq_of (a ++ ("_" ++ d)) ≡ some (value d 0)
unfolding seq_of
seq_of-append a d h = ap number_of (after_last-append a d h)

seq_of-decimal : (a : String) (n : ℕ) → seq_of (a ++ ("_" ++ decimal n)) ≡ some n
seq_of-decimal a n =
    seq_of-append a (decimal n)
      (unfold decimal in after_last-emit (suc n) n "" (unfold after_last in refl))
    ∙ ap some (value-decimal n)

regroup : (a b c d e : String) → a ++ (b ++ (c ++ (d ++ e))) ≡ (a ++ (b ++ c)) ++ (d ++ e)
regroup a b c d e = simp append_assoc

seq_of-new :
    (g : AtomicIdGenerator) (prefix : String) (t : Time)
    → seq_of (new g prefix t).0 ≡ some (next_seq g)
unfolding new
seq_of-new g prefix t =
    ap seq_of (regroup prefix "_" (signed_decimal t) "_" (decimal (next_seq g)))
    ∙ seq_of-decimal (prefix ++ ("_" ++ signed_decimal t)) (next_seq g)

-- The ids of further calls have the numbers that follow.
abbrev Follows : AtomicIdGenerator → ℕ → String → Type 0
Follows g n id = (k : ℕ) × (k < n) × (seq_of id ≡ some ((g.seq + 1 + k) % 2 ^ 64))

first_seq : (g : AtomicIdGenerator) → next_seq g ≡ (g.seq + 1 + 0) % 2 ^ 64
unfolding next_seq
first_seq g = omega arith

seq_after :
    (g : AtomicIdGenerator) (k : ℕ) → (next_seq g + 1 + k) % 2 ^ 64 ≡ (g.seq + 1 + suc k) % 2 ^ 64
unfolding next_seq
seq_after g k = omega arith

new_ids-Follows :
    (g : AtomicIdGenerator) (calls : List (String × Time))
    → All (Follows g (length calls)) (new_ids g calls)
unfolding new_ids new
new_ids-Follows g [] = tt
new_ids-Follows g ((prefix, t) ∷ calls) = (
  (0, omega arith, seq_of-new g prefix t ∙ ap some (first_seq g)),
  All-map _ _ (new_ids (new g prefix t).1 calls)
      (λ id f. (suc f.0, omega (arith, f.1), f.2 ∙ ap some (seq_after g f.0)))
      (new_ids-Follows (new g prefix t).1 calls),
)

-- Each text of a list differs from all that stand behind it.
abbrev pub AllDiffer : List String → Type 0
AllDiffer [] = Unit
AllDiffer (x ∷ xs) = All (λ y. x ≢ y) xs × AllDiffer xs

first-ne-later : (n k : ℕ) → suc k < 2 ^ 64 → (n + 1 + 0) % 2 ^ 64 ≢ (n + 1 + suc k) % 2 ^ 64
first-ne-later n k h e = omega arith

-- Whatever the counter stands at, whatever prefixes are asked for and whatever the clock shows, the
-- ids of up to 2 ^ 64 calls in a row all differ.
pub new_ids-AllDiffer :
    (g : AtomicIdGenerator) (calls : List (String × Time))
    → length calls ≤ 2 ^ 64
    → AllDiffer (new_ids g calls)
unfolding new_ids new
new_ids-AllDiffer g [] h = tt
new_ids-AllDiffer g ((prefix, t) ∷ calls) h = (
  All-map _ _ (new_ids (new g prefix t).1 calls)
      (λ id f same. first-ne-later g.seq f.0 (omega (arith, f.1, h)) (
        some-injective (
          sym (seq_of-new g prefix t ∙ ap some (first_seq g))
          ∙ ap seq_of same
          ∙ f.2
          ∙ ap some (seq_after g f.0))))
      (new_ids-Follows (new g prefix t).1 calls),
  new_ids-AllDiffer (new g prefix t).1 calls (omega arith),
)
