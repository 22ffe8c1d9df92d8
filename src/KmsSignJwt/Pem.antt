-- ===== src/KmsSignJwt/Pem.antt =====
-- examples/kms_sign_jwt.rs: the lines of a PEM text.
use mathlib.Core.List.{append_assoc, append-nil}
use idcat.Common.{
  ℕ, zero, suc, ◌+◌, ◌-◌, ◌≤◌, ◌<◌, ◌≡◌, refl, ap, sym, ◌∙◌, List, [], ◌∷◌, ◌++◌, Text, codes,
  length, arith,
}
use idcat.KmsSignJwt.{take, drop, chunks, push_lines, pem}

-- The chunks, one after the other.
abbrev pub flatten : List Text → Text
flatten [] = []
flatten (line ∷ lines) = line ++ flatten lines

-- The chunks, each ended by a line feed.
abbrev pub ended : List Text → Text
ended [] = []
ended (line ∷ lines) = line ++ (codes "\n" ++ ended lines)

-- Every line is full but the last, which has at least one character and is not too long.
abbrev pub AreLines : ℕ → List Text → Type 0
AreLines size [] = Unit
AreLines size (line ∷ []) = (0 < length line) × (length line ≤ size)
AreLines size (line ∷ next ∷ lines) = (length line ≡ size) × AreLines size (next ∷ lines)

take-drop {ℓ} : {A : Type ℓ} (n : ℕ) (xs : List A) → take n xs ++ drop n xs ≡ xs
take-drop zero xs = refl
take-drop (suc n) [] = refl
take-drop (suc n) (x ∷ xs) = ap (λ l. x ∷ l) (take-drop n xs)

length-drop {ℓ} : {A : Type ℓ} (n : ℕ) (xs : List A) → length (drop n xs) ≡ length xs - n
length-drop zero xs = omega arith
length-drop (suc n) [] = omega arith
length-drop (suc n) (x ∷ xs) = omega (arith, length-drop n xs)

length-take {ℓ} :
    {A : Type ℓ} (n : ℕ) (xs : List A) → length (take n xs) + length (drop n xs) ≡ length xs
length-take zero xs = omega arith
length-take (suc n) [] = omega arith
length-take (suc n) (x ∷ xs) = omega (arith, length-take n xs)

flatten-chunks :
    (fuel size : ℕ) (s : Text) → length s ≤ fuel → flatten (chunks fuel (suc size) s) ≡ s
unfolding chunks
flatten-chunks zero size [] h = refl
flatten-chunks zero size (c ∷ s) h = absurd (omega arith)
flatten-chunks (suc fuel) size [] h = refl
flatten-chunks (suc fuel) size (c ∷ s) h =
    let shorter = length-drop size s in
    ap (λ l. take (suc size) (c ∷ s) ++ l) (flatten-chunks fuel size (drop size s) (omega arith))
    ∙ take-drop (suc size) (c ∷ s)

length-take-le {ℓ} : {A : Type ℓ} (n : ℕ) (xs : List A) → length (take n xs) ≤ n
length-take-le zero xs = omega arith
length-take-le (suc n) [] = omega arith
length-take-le (suc n) (x ∷ xs) = omega (arith, length-take-le n xs)

-- A line before the lines of the rest.
AreLines-cons :
    (fuel size : ℕ) (line rest : Text)
    → length rest ≤ fuel
    → 0 < length line
    → length line ≤ suc size
    → (0 < length rest → length line ≡ suc size)
    → AreLines (suc size) (chunks fuel (suc size) rest)
    → AreLines (suc size) (line ∷ chunks fuel (suc size) rest)
unfolding chunks
AreLines-cons zero size line [] h some_of_it fits full lines = (some_of_it, fits)
AreLines-cons (suc fuel) size line [] h some_of_it fits full lines = (some_of_it, fits)
AreLines-cons zero size line (d ∷ rest) h some_of_it fits full lines = absurd (omega arith)
AreLines-cons (suc fuel) size line (d ∷ rest) h some_of_it fits full lines =
    (full (omega arith), lines)

chunks-AreLines :
    (fuel size : ℕ) (s : Text) → length s ≤ fuel → AreLines (suc size) (chunks fuel (suc size) s)
unfolding chunks
chunks-AreLines zero size s h = tt
chunks-AreLines (suc fuel) size [] h = tt
chunks-AreLines (suc fuel) size (c ∷ s) h =
    let left = length-drop size s in
    let split = length-take size s in
    AreLines-cons fuel size (c ∷ take size s) (drop size s) (omega arith) (omega arith)
      (omega (arith, length-take-le size s)) (λ more. omega arith)
      (chunks-AreLines fuel size (drop size s) (omega arith))

push_lines-ended : (out : Text) (lines : List Text) → push_lines out lines ≡ out ++ ended lines
unfolding push_lines
push_lines-ended out [] = sym (append-nil out)
push_lines-ended out (line ∷ lines) =
    push_lines-ended (out ++ (line ++ codes "\n")) lines ∙ simp append_assoc

-- A PEM text is its first line, the base64 text in lines of 64 characters, of which only the last may
-- be shorter, each ended by a line feed, and its last line, which ends the text; the lines together are
-- the base64 text, none of which is lost. The chunks that `pem` allows for are enough.
pub pem-lines :
    (label encoded : Text)
    → (lines : List Text) × (flatten lines ≡ encoded)
      × AreLines 64 lines
      × (pem label encoded
          ≡ (codes "-----BEGIN " ++ (label ++ codes "-----\n"))
            ++ ended lines
            ++ (codes "-----END " ++ (label ++ codes "-----")))
unfolding pem
pem-lines label encoded =
    let n = length encoded in
    (
      chunks n 64 encoded,
      flatten-chunks n 63 encoded (omega arith),
      chunks-AreLines n 63 encoded (omega arith),
      ap (λ l. l ++ (codes "-----END " ++ (label ++ codes "-----")))
          (push_lines-ended (codes "-----BEGIN " ++ (label ++ codes "-----\n"))
            (chunks n 64 encoded)),
    )
