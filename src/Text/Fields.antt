-- ===== src/Text/Fields.antt =====
-- strings.Fields and strings.Join with a space between.
use Prim.Native.Char.{Char, code}
use Prim.Native.String.{◌++◌}
use text.Mathlib.TextLemmas.{nil-append, cons-append, append-nil, append_assoc}
use smallworld_be.Prelude.{
  String, ◌==◌, ◌≡◌, refl, sym, ap, ◌∙◌, inl, inr, Bool, true, false, List, [], ◌∷◌, if◌then◌else◌,
  Bool-cases, eq_iff, ◌&&◌,
}
use mathlib.Core.Path.{◌≡⟨◌⟩◌, ◌∎}
use smallworld_be.Prelude.Lists.{All}
use smallworld_be.Text.{is_space, trim_left, trim_right, trim_space}

-- A word that was read, unless there is none.
abbrev flush : String → List String → List String
flush String.[] ws = ws
flush (String.◌∷◌ c s) ws = (String.◌∷◌ c s) ∷ ws

-- The words of a text behind the letters `cur` of a word.
unfoldable pub cut : String → String → List String
cut String.[] cur = flush cur []
cut (String.◌∷◌ c s) cur =
    let ended = flush cur (cut s "") in
    let longer = cut s (cur ++ (String.◌∷◌ c "")) in if is_space (code c) then ended else longer

-- strings.Fields
unfoldable pub fields : String → List String
unfolding cut
fields s = cut s ""

-- strings.Join(words, " ")
unfoldable pub join : List String → String
join [] = ""
join (w ∷ []) = w
join (w ∷ v ∷ ws) = w ++ (" " ++ join (v ∷ ws))

-- Some letters, none of them a space.
abbrev NoSpace : String → Type 0
NoSpace String.[] = Unit
NoSpace (String.◌∷◌ c s) = (is_space (code c) ≡ false) × NoSpace s

abbrev IsWord : String → Type 0
IsWord String.[] = ⊥
IsWord (String.◌∷◌ c s) = NoSpace (String.◌∷◌ c s)

regroup :
    (a : String) (c : Char) (b : String) → (a ++ (String.◌∷◌ c "")) ++ b ≡ a ++ (String.◌∷◌ c b)
regroup a c b =
    append_assoc a (String.◌∷◌ c "") b
    ∙ ap (λ t. a ++ t) (cons-append c "" b ∙ ap (String.◌∷◌ c) (nil-append b))

cut-word : (w s cur : String) → NoSpace w → cut (w ++ s) cur ≡ cut s (cur ++ w)
unfolding cut
cut-word String.[] s cur h = rw (nil-append s, append-nil cur) refl
cut-word (String.◌∷◌ c w) s cur h =
    rw (cons-append c w s, cut)
      (rw (h.0) (cut-word w s (cur ++ (String.◌∷◌ c "")) h.1 ∙ ap (cut s) (regroup cur c w)))

flush-word : (w : String) (ws : List String) → IsWord w → flush w ws ≡ w ∷ ws
flush-word String.[] ws h = absurd h
flush-word (String.◌∷◌ c w) ws h = refl

word-NoSpace : (w : String) → IsWord w → NoSpace w
word-NoSpace String.[] h = absurd h
word-NoSpace (String.◌∷◌ c w) h = h

space : is_space (code " ") ≡ true
unfolding is_space
space = refl

cut-space : (s cur : String) → cut (" " ++ s) cur ≡ flush cur (cut s "")
unfolding cut
cut-space s cur = rw (cons-append " " "" s, nil-append s) (unfold is_space in refl)

-- A word that the rest of a text follows.
cut-first : (w s : String) → IsWord w → cut (w ++ (" " ++ s)) "" ≡ w ∷ cut s ""
cut-first w s h =
    cut (w ++ (" " ++ s)) ""
    ≡⟨ cut-word w (" " ++ s) "" (word-NoSpace w h) ⟩ cut (" " ++ s) ("" ++ w)
    ≡⟨ ap (cut (" " ++ s)) (nil-append w) ⟩ cut (" " ++ s) w
    ≡⟨ cut-space s w ⟩ flush w (cut s "")
    ≡⟨ flush-word w (cut s "") h ⟩ w ∷ cut s "" ∎

cut_end : (w : String) → cut "" w ≡ flush w []
unfolding cut
cut_end w = refl

cut-last : (w : String) → IsWord w → cut w "" ≡ w ∷ []
cut-last w h =
    cut w ""
    ≡⟨ ap (λ t. cut t "") (sym (append-nil w)) ⟩ cut (w ++ "") ""
    ≡⟨ cut-word w "" "" (word-NoSpace w h) ⟩ cut "" ("" ++ w)
    ≡⟨ ap (cut "") (nil-append w) ⟩ cut "" w
    ≡⟨ cut_end w ∙ flush-word w [] h ⟩ w ∷ [] ∎

cut-join : (ws : List String) → All IsWord ws → cut (join ws) "" ≡ ws
unfolding join
cut-join [] h = unfold cut in refl
cut-join (w ∷ []) h = cut-last w h.0
cut-join (w ∷ v ∷ ws) h = cut-first w (join (v ∷ ws)) h.0 ∙ ap (λ t. w ∷ t) (cut-join (v ∷ ws) h.1)

-- All that is cut out of a text is words.
NoSpace-append :
    (s : String) (c : Char)
    → NoSpace s
    → is_space (code c) ≡ false
    → NoSpace (s ++ (String.◌∷◌ c ""))
NoSpace-append String.[] c h e = rw (nil-append (String.◌∷◌ c "")) (e, tt)
NoSpace-append (String.◌∷◌ d s) c h e =
    rw (cons-append d s (String.◌∷◌ c "")) (h.0, NoSpace-append s c h.1 e)

flush-All :
    (cur : String) (ws : List String) → NoSpace cur → All IsWord ws → All IsWord (flush cur ws)
flush-All String.[] ws n h = h
flush-All (String.◌∷◌ c s) ws n h = (n, h)

cut-All : (s cur : String) → NoSpace cur → All IsWord (cut s cur)
unfolding cut
cut-All String.[] cur n = flush-All cur [] n tt
cut-All (String.◌∷◌ c s) cur n = elim (Bool-cases (is_space (code c))) [
  | inl e ↦ rw e (flush-All cur (cut s "") n (cut-All s "" tt))
  | inr e ↦ rw e (cut-All s (cur ++ (String.◌∷◌ c "")) (NoSpace-append cur c n e))
]

-- Joining words and splitting them again gives the words.
pub fields-join : (s : String) → fields (join (fields s)) ≡ fields s
unfolding fields
fields-join s = cut-join (cut s "") (cut-All s "" tt)

-- Trimming takes no word away.
cut-trim_left : (s : String) → cut (trim_left s) "" ≡ cut s ""
unfolding cut trim_left
cut-trim_left String.[] = refl
cut-trim_left (String.◌∷◌ c s) = elim (Bool-cases (is_space (code c))) [
  | inl e ↦ rw e (cut-trim_left s)
  | inr e ↦ rw e (rw e refl)
]

and_false : (b : Bool) → (b && false) ≡ false
and_false true = refl
and_false false = refl

cut-trim_right : (s cur : String) → cut (trim_right s) cur ≡ cut s cur
unfolding cut trim_right
cut-trim_right String.[] cur = refl
cut-trim_right (String.◌∷◌ c s) cur = elim (Bool-cases (is_space (code c))) [
  | inl e ↦ elim (Bool-cases (trim_right s == "")) [
    | inl n ↦
        let gone : cut s "" ≡ [] =
          sym (cut-trim_right s "") ∙ ap (λ t. cut t "") ((eq_iff (trim_right s) "").0 n) in
        rw (n, e) (sym (ap (flush cur) gone))
    | inr n ↦ rw (n, e) (ap (flush cur) (cut-trim_right s ""))
  ]
  | inr e ↦ rw (e, and_false) (rw e (cut-trim_right s (cur ++ (String.◌∷◌ c ""))))
]

pub fields-trim_space : (s : String) → fields (trim_space s) ≡ fields s
unfolding fields trim_space
fields-trim_space s = cut-trim_right (trim_left s) "" ∙ cut-trim_left s
