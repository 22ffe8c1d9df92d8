-- ===== src/Common/Trim.antt =====
-- More methods of `str`: trimming, splitting, joining, case, and numbers in decimal.
use mathlib.Core.List.{reverse-reverse}
use idcat.Common.Base.{
  ℕ, zero, suc, ◌+◌, ◌/◌, ◌%◌, ◌≡◌, refl, ap, ◌∙◌, Bool, false, ◌&&◌, ◌||◌, List, [], ◌∷◌, ◌++◌,
  reverse, arith, if◌then◌else◌, ◌==◌, nat_eq, leb, Bool-cases, inl, inr, ◌≢◌, sym, subst, true,
}
use idcat.Common.Lists.{All}
use idcat.Common.Strings.{Text, Free, starts_with, starts_with-cons, contains_text}

-- `char::is_whitespace`, the code points with the property White_Space
unfoldable pub is_whitespace : ℕ → Bool
is_whitespace c =
    leb 9 c && leb c 13
    || c == 32
    || c == 0x85
    || c == 0xa0
    || c == 0x1680
    || leb 0x2000 c && leb c 0x200a
    || c == 0x2028
    || c == 0x2029
    || c == 0x202f
    || c == 0x205f
    || c == 0x3000

unfoldable pub trim_start_by : (ℕ → Bool) → Text → Text
trim_start_by p [] = []
trim_start_by p (c ∷ s) = if p c then trim_start_by p s else c ∷ s

unfoldable pub trim_end_by : (ℕ → Bool) → Text → Text
unfolding trim_start_by
trim_end_by p s = reverse (trim_start_by p (reverse s))

-- `s.trim()`
unfoldable pub trim : Text → Text
unfolding trim_end_by is_whitespace
trim s = trim_end_by is_whitespace (trim_start_by is_whitespace s)

-- `s.trim_start_matches(c)`
unfoldable pub trim_start_matches : Text → ℕ → Text
unfolding trim_start_by
trim_start_matches s c = trim_start_by (λ d. d == c) s

-- `s.trim_end_matches(c)`
unfoldable pub trim_end_matches : Text → ℕ → Text
unfolding trim_end_by
trim_end_matches s c = trim_end_by (λ d. d == c) s

-- The text does not begin with a character that passes.
abbrev pub StartsOff : (ℕ → Bool) → Text → Type 0
StartsOff p [] = Unit
StartsOff p (c ∷ s) = p c ≡ false

pub trim_start_by-StartsOff : (p : ℕ → Bool) (s : Text) → StartsOff p (trim_start_by p s)
unfolding trim_start_by
trim_start_by-StartsOff p [] = tt
trim_start_by-StartsOff p (c ∷ s) = elim (Bool-cases (p c)) [
  | inl gone ↦ rw gone (trim_start_by-StartsOff p s)
  | inr kept ↦ rw kept kept
]

pub trim_start_by_of_StartsOff : (p : ℕ → Bool) (s : Text) → StartsOff p s → trim_start_by p s ≡ s
unfolding trim_start_by
trim_start_by_of_StartsOff p [] h = refl
trim_start_by_of_StartsOff p (c ∷ s) h = rw h

-- Trimming twice changes nothing.
pub trim_end_by_idem : (p : ℕ → Bool) (s : Text) → trim_end_by p (trim_end_by p s) ≡ trim_end_by p s
unfolding trim_end_by
trim_end_by_idem p s =
    rw reverse-reverse
      (ap reverse (trim_start_by_of_StartsOff p _ (trim_start_by-StartsOff p (reverse s))))

consing : ℕ → List Text → List Text
consing d [] = (d ∷ []) ∷ []
consing d (s ∷ rest) = (d ∷ s) ∷ rest

-- `s.split(c)`: never empty
unfoldable pub split : Text → ℕ → List Text
unfolding consing
split [] c = [] ∷ []
split (d ∷ s) c = let rest = split s c in if d == c then [] ∷ rest else consing d rest

-- `parts.join(sep)`
unfoldable pub join : List Text → Text → Text
join [] sep = []
join (s ∷ []) sep = s
join (s ∷ t ∷ rest) sep = s ++ (sep ++ join (t ∷ rest) sep)

pub split-Free : (s : Text) (c : ℕ) → Free c s → split s c ≡ s ∷ []
unfolding split
split-Free [] c h = refl
split-Free (d ∷ s) c (p, h) = ground (arith, split-Free s c h)

pub split-append : (s t : Text) (c : ℕ) → Free c s → split (s ++ c ∷ t) c ≡ s ∷ split t c
unfolding split
split-append [] t c h = ground arith
split-append (d ∷ s) t c (p, h) = ground (arith, split-append s t c h)

-- The first part is how the text begins.
split_first :
    (s : Text) (c : ℕ)
    → (p : Text) × (rest : List Text) × (split s c ≡ p ∷ rest) × (starts_with s p ≡ true)
unfolding split starts_with
split_first [] c = ([], [], refl, refl)
split_first (d ∷ s) c =
    let (p, rest, e, h) = split_first s c in
    elim (Bool-cases (d == c)) [
      | inl here ↦ ([], p ∷ rest, ground arith, refl)
      | inr other ↦ (d ∷ p, rest, rw (other, e) refl, ground arith)
    ]

consing-append :
    (d : ℕ) (xs ys : List Text) (p : Text) (rest : List Text)
    → xs ≡ p ∷ rest
    → consing d (xs ++ ys) ≡ consing d xs ++ ys
unfolding consing
consing-append d xs ys p rest e = rw e refl

pub split-append_parts : (s t : Text) (c : ℕ) → split (s ++ c ∷ t) c ≡ split s c ++ split t c
unfolding split
split-append_parts [] t c = ground arith
split-append_parts (d ∷ s) t c =
    let (p, rest, e, begins) = split_first s c in
    ground (arith, split-append_parts s t c, consing-append d (split s c) (split t c) p rest e)

-- Splitting what was joined gives the parts back, if no part has the separator.
pub split-join :
    (c : ℕ) (s : Text) (rest : List Text)
    → All (Free c) (s ∷ rest)
    → split (join (s ∷ rest) (c ∷ [])) c ≡ s ∷ rest
unfolding join
split-join c s [] (p, h) = split-Free s c p
split-join c s (t ∷ rest) (p, h) = split-append s _ c p ∙ ap (λ l. s ∷ l) (split-join c t rest h)

-- A text that is nowhere in another is none of its parts.
pub split_avoids :
    (s : Text) (c : ℕ) (q : Text)
    → q ≢ []
    → contains_text s q ≡ false
    → All (λ p. p ≢ q) (split s c)
unfolding split contains_text
split_avoids [] c q nonempty h = (λ e. nonempty (sym e), tt)
split_avoids (d ∷ s) c q nonempty h =
    let ih = split_avoids s c q nonempty (ground arith) in
    let (p, rest, e, begins) = split_first s c in
    elim (Bool-cases (d == c)) [
      | inl here ↦ rw here (λ x. nonempty (sym x), ih)
      | inr other ↦ rw (other, e) (differs p begins, (subst (λ l. All (λ x. x ≢ q) l) e ih).1)
    ]
  where
    differs : (p : Text) → starts_with s p ≡ true → d ∷ p ≢ q
    differs p begins same =
        let whole : starts_with (d ∷ s) (d ∷ p) ≡ true = starts_with-cons d s p begins in
        let both = subst (λ x. starts_with (d ∷ s) x ≡ true) same whole in ground arith

unfoldable pub to_ascii_lowercase : ℕ → ℕ
to_ascii_lowercase c = if leb b'A' c && leb c b'Z' then c + 32 else c

-- The digits of `n`, most significant first; a number has at most `n + 1` of them.
decimal_fuel : ℕ → ℕ → Text → Text
decimal_fuel zero n tail = tail
decimal_fuel (suc fuel) n tail =
    let digits = (b'0' + n % 10) ∷ tail in
    let more = decimal_fuel fuel (n / 10) digits in if n / 10 == 0 then digits else more

-- `n.to_string()`
unfoldable pub to_decimal : ℕ → Text
unfolding decimal_fuel
to_decimal n = decimal_fuel (suc n) n []
