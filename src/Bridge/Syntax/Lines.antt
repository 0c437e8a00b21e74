-- ===== src/Bridge/Syntax/Lines.antt =====
-- preserveSourceLines of packages/agent-syntax/src/Agent/Syntax.hs: the lines of tokens that it lets
-- through are the first lines of the source.
use haskell_agent.Base.{
  ℕ, zero, suc, ◌-◌, ◌≡◌, refl, sym, ap, ◌∙◌, true, not, ◌||◌, some, List, [], ◌∷◌, ◌++◌, map, ltb,
  ◌==◌, arith, ==_iff, Bool-cases, inl, inr, of_some, length, take, replicate,
}
use mathlib.Core.Path.{ap₂}
use haskell_agent.Bridge.Syntax.{
  Text, Token, line_text, split_lines, same_texts, preserve_source_lines,
}
use haskell_agent.Bridge.Buffers.{same_text}
use haskell_agent.Bridge.Syntax.Spans.{source_text}

join : List Text → Text
join [] = []
join (line ∷ []) = line
join (line ∷ next ∷ lines) = line ++ (10 ∷ join (next ∷ lines))

join-line_text : (lines : List (List Token)) → join (map line_text lines) ≡ source_text lines
unfolding join source_text
join-line_text [] = refl
join-line_text (line ∷ []) = refl
join-line_text (line ∷ next ∷ lines) =
    ap (λ t. line_text line ++ (10 ∷ t)) (join-line_text (next ∷ lines))

same_text_sound : (a b : Text) → same_text a b ≡ true → a ≡ b
unfolding same_text
same_text_sound [] [] e = refl
same_text_sound [] (b ∷ bs) e = cc
same_text_sound (a ∷ rest) [] e = cc
same_text_sound (a ∷ rest) (b ∷ bs) e =
    ap₂ ◌∷◌ (ground (arith, e)) (same_text_sound rest bs (ground (arith, e)))

same_texts_sound : (a b : List Text) → same_texts a b ≡ true → a ≡ b
unfolding same_texts
same_texts_sound [] [] e = refl
same_texts_sound [] (b ∷ bs) e = cc
same_texts_sound (a ∷ rest) [] e = cc
same_texts_sound (a ∷ rest) (b ∷ bs) e =
    ap₂ ◌∷◌ (same_text_sound a b (ground (arith, e))) (same_texts_sound rest bs (ground (arith, e)))

-- A list of lines that is not empty.
abbrev IsFull : List Text → Type 0
IsFull lines = (x : Text) × (xs : List Text) × (lines ≡ x ∷ xs)

split_lines-IsFull : (source : Text) → IsFull (split_lines source)
unfolding split_lines
split_lines-IsFull [] = ([], [], refl)
split_lines-IsFull (b ∷ bytes) = elim (Bool-cases (b == 10)) [
  | inl newline ↦ rw newline ([], split_lines bytes, refl)
  | inr other ↦ let (x, xs, e) = split_lines-IsFull bytes in rw (other, e) (b ∷ x, xs, refl)
]

-- The first lines of a text, and what follows them.
abbrev Begins : Text → List Text → Type 0
Begins source lines = (rest : Text) × (source ≡ join lines ++ rest)

join-newline :
    (n : ℕ) (bytes : Text) (lines : List Text)
    → IsFull lines
    → ((n : ℕ) → Begins bytes (take n lines))
    → Begins (10 ∷ bytes) (take (suc n) ([] ∷ lines))
unfolding join
join-newline zero bytes lines full ih = (10 ∷ bytes, refl)
join-newline (suc n) bytes [] (x, xs, e) ih = cc
join-newline (suc n) bytes (line ∷ lines) full ih =
    let (rest, e) = ih (suc n) in (rest, ap (◌∷◌ 10) e)

join-onto : (b : ℕ) (x : Text) (xs : List Text) → join ((b ∷ x) ∷ xs) ≡ b ∷ join (x ∷ xs)
unfolding join
join-onto b x [] = refl
join-onto b x (y ∷ ys) = refl

split_lines-join : (n : ℕ) (source : Text) → Begins source (take n (split_lines source))
unfolding split_lines join
split_lines-join zero source = (source, refl)
split_lines-join (suc zero) [] = ([], refl)
split_lines-join (suc (suc n)) [] = ([], refl)
split_lines-join (suc n) (b ∷ bytes) = elim (Bool-cases (b == 10)) [
  | inl newline ↦
      let ten : b ≡ 10 = (==_iff b 10).0 newline in
      rw newline (
        rw ten (
          join-newline n bytes (split_lines bytes) (split_lines-IsFull bytes)
            (λ n. split_lines-join n bytes)))
  | inr other ↦
      let (x, xs, e) = split_lines-IsFull bytes in
      let (rest, same) = rw e at (split_lines-join (suc n) bytes) in
      rw (other, e) (rest, ap (◌∷◌ b) same ∙ ap (λ t. t ++ rest) (sym (join-onto b x (take n xs))))
]

pub preserve_source_lines-kept :
    (source : Text) (lines kept : List (List Token))
    → preserve_source_lines source lines ≡ some kept
    → (kept ≡ lines ++ replicate (length (split_lines source) - length lines) [])
      × (rest : Text) × (source ≡ source_text lines ++ rest)
unfolding preserve_source_lines
preserve_source_lines-kept source lines kept e =
    elim (Bool-cases (
      ltb (length (split_lines source)) (length lines)
      || not (same_texts (map line_text lines) (take (length lines) (split_lines source))))) [
        | inl refused ↦ let impossible = rw refused at e in cc
        | inr taken ↦
            let same =
              same_texts_sound (map line_text lines) (take (length lines) (split_lines source))
                (ground (arith, taken)) in
            let (rest, whole) = split_lines-join (length lines) source in
            (
              sym (of_some (rw taken at e)),
              rest,
              whole ∙ ap (λ t. t ++ rest) (ap join (sym same) ∙ join-line_text lines),
            )
      ]
