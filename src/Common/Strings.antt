-- ===== src/Common/Strings.antt =====
-- Rust strings as lists of code points, with the methods of `str` that the program calls.
use Prim.Native.Char.{code}
use Prim.Native.String.{String}
use mathlib.Core.Bool.{Bool-discrete}
use mathlib.Core.Logic.{dite}
use mathlib.Core.Option
use mathlib.Core.Option.{some-injective}
use mathlib.Core.List.{reverse-reverse, reverse-append}
use idcat.Common.Base.{
  ℕ, ◌≡◌, refl, ap, ◌≢◌, ◌↔◌, Bool, true, false, ◌&&◌, ◌||◌, Option, none, some, List, [], ◌∷◌,
  ◌++◌, reverse, arith, ℕ_discrete, subst, Option-cases, if◌then◌else◌, Eq, ◌==◌, nat_eq, inl, inr,
}
use idcat.Common.Lists.{All}

abbrev pub Text : Type 0
Text = List ℕ

-- The code points of a literal. Shut: a proof that needs the letters says `unfolding codes`.
unfoldable pub codes : String → Text
codes String.[] = []
codes (String.◌∷◌ c s) = code c ∷ codes s

text_beq : Text → Text → Bool
text_beq [] [] = true
text_beq (c ∷ s) (d ∷ t) = c == d && text_beq s t
text_beq [] (d ∷ t) = false
text_beq (c ∷ s) [] = false

text_beq_iff : (s t : Text) → (text_beq s t ≡ true) ↔ (s ≡ t)
unfolding text_beq
text_beq_iff [] [] = ground arith
text_beq_iff (c ∷ s) (d ∷ t) = ground (arith, text_beq_iff s t)
text_beq_iff [] (d ∷ t) = ground arith
text_beq_iff (c ∷ s) [] = ground arith

unfoldable pub text_dec : Discrete Text
unfolding text_beq text_beq_iff
text_dec s t =
    dite (Bool-discrete (text_beq s t) true) (λ same. yes ((text_beq_iff s t).0 same))
      (λ differ. no (λ p. differ ((text_beq_iff s t).1 p)))

instance abbrev pub text_eq : Eq Text
text_eq = record { dec = text_dec }

-- No character of the text is `c`.
abbrev pub Free : ℕ → Text → Type 0
Free c = All (λ d. d ≢ c)

-- `s.contains(c)` for a character
unfoldable pub contains_char : Text → ℕ → Bool
contains_char [] c = false
contains_char (d ∷ s) c = d == c || contains_char s c

pub contains_char-Free : (s : Text) (c : ℕ) → contains_char s c ≡ false → Free c s
unfolding contains_char
contains_char-Free [] c h = tt
contains_char-Free (d ∷ s) c h = (ground arith, contains_char-Free s c (ground arith))

pub Free-contains_char : (s : Text) (c : ℕ) → Free c s → contains_char s c ≡ false
unfolding contains_char
Free-contains_char [] c h = refl
Free-contains_char (d ∷ s) c (p, h) = ground (arith, Free-contains_char s c h)

-- `s.strip_prefix(p)`, and `s.starts_with(p)`
unfoldable pub strip_prefix : Text → Text → Option Text
strip_prefix s [] = some s
strip_prefix [] (c ∷ p) = none
strip_prefix (d ∷ s) (c ∷ p) = if d == c then strip_prefix s p else none

unfoldable pub starts_with : Text → Text → Bool
starts_with s [] = true
starts_with [] (c ∷ p) = false
starts_with (d ∷ s) (c ∷ p) = d == c && starts_with s p

pub strip_prefix-append : (p r : Text) → strip_prefix (p ++ r) p ≡ some r
unfolding strip_prefix
strip_prefix-append [] r = refl
strip_prefix-append (c ∷ p) r = ground (arith, strip_prefix-append p r)

pub strip_prefix-eq-some : (s p : Text) {r : Text} → strip_prefix s p ≡ some r → s ≡ p ++ r
unfolding strip_prefix
strip_prefix-eq-some s [] h = ground arith
strip_prefix-eq-some [] (c ∷ p) h = cc
strip_prefix-eq-some (d ∷ s) (c ∷ p) {r} h = ground (arith, strip_prefix-eq-some s p {r = r})

pub starts_with-append : (p r : Text) → starts_with (p ++ r) p ≡ true
unfolding starts_with
starts_with-append [] r = refl
starts_with-append (c ∷ p) r = ground (arith, starts_with-append p r)

pub starts_with-cons :
    (d : ℕ) (s p : Text) → starts_with s p ≡ true → starts_with (d ∷ s) (d ∷ p) ≡ true
unfolding starts_with
starts_with-cons d s p h = ground arith

-- `s.contains(p)` for a text
unfoldable pub contains_text : Text → Text → Bool
unfolding starts_with
contains_text [] p = starts_with [] p
contains_text (c ∷ s) p = starts_with (c ∷ s) p || contains_text s p

-- `s.strip_suffix(p)`
unfoldable pub strip_suffix : Text → Text → Option Text
unfolding strip_prefix
strip_suffix s p = Option.map reverse (strip_prefix (reverse s) (reverse p))

pub strip_suffix-append : (r p : Text) → strip_suffix (r ++ p) p ≡ some r
unfolding strip_suffix
strip_suffix-append r p =
    rw reverse-append
      (rw (strip_prefix-append (reverse p) (reverse r)) (ap some (reverse-reverse r)))

consed : ℕ → Text × Text → Text × Text
consed d (a, b) = (d ∷ a, b)

-- `s.split_once(c)`
unfoldable pub split_once : Text → ℕ → Option (Text × Text)
unfolding consed
split_once [] c = none
split_once (d ∷ s) c = if d == c then some ([], s) else Option.map (consed d) (split_once s c)

pub split_once-append : (a b : Text) (c : ℕ) → Free c a → split_once (a ++ c ∷ b) c ≡ some (a, b)
unfolding split_once
split_once-append [] b c h = ground arith
split_once-append (d ∷ a) b c (p, h) = ground (arith, split_once-append a b c h)

-- What it means to cut `s` at its first `c`.
abbrev pub IsCut : Text → ℕ → Text × Text → Type 0
IsCut s c p = (s ≡ p.0 ++ c ∷ p.1) × Free c p.0

IsCut-consed :
    (d : ℕ) (s : Text) (c : ℕ) (p : Text × Text)
    → d ≢ c
    → IsCut s c p
    → IsCut (d ∷ s) c (consed d p)
unfolding consed
IsCut-consed d s c (a, b) h (e, f) = (ap (λ t. d ∷ t) e, (h, f))

pub split_once-eq-some :
    (s : Text) (c : ℕ) (p : Text × Text) → split_once s c ≡ some p → IsCut s c p
unfolding split_once
split_once-eq-some [] c p h = cc
split_once-eq-some (d ∷ s) c p h = elim (ℕ_discrete d c) [
  | yes here ↦
      let e : ◌≡◌ {A = Option (Text × Text)} (some ([], s)) (some p) = ground arith in
      subst (λ q. IsCut (d ∷ s) c q) (some-injective _ _ e) (ap (λ k. k ∷ s) here, tt)
  | no other ↦ elim (Option-cases (split_once s c)) [
    | inl missing ↦ let e : ◌≡◌ {A = Option (Text × Text)} none (some p) = ground arith in cc
    | inr (q, found) ↦
        let e : ◌≡◌ {A = Option (Text × Text)} (some (consed d q)) (some p) = ground arith in
        subst (λ q. IsCut (d ∷ s) c q) (some-injective _ _ e)
          (IsCut-consed d s c q other (split_once-eq-some s c q found))
  ]
]

pub split_once-eq-none : (s : Text) (c : ℕ) → split_once s c ≡ none → Free c s
unfolding split_once
split_once-eq-none [] c h = tt
split_once-eq-none (d ∷ s) c h = (ground arith, split_once-eq-none s c (ground arith))

pub split_once-Free : (s : Text) (c : ℕ) → Free c s → split_once s c ≡ none
unfolding split_once
split_once-Free [] c h = refl
split_once-Free (d ∷ s) c (p, h) = ground (arith, split_once-Free s c h)

-- `Path::new(s).is_absolute()`, on Unix
unfoldable pub is_absolute : Text → Bool
is_absolute [] = false
is_absolute (c ∷ s) = c == b'/'
