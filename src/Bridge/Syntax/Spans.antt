-- ===== src/Bridge/Syntax/Spans.antt =====
-- The spans that highlighting reports: nonempty, in order, disjoint, and cut from the source as
-- its tokens are.
use mathlib.Core.Path.{subst, ap₂}
use haskell_agent.Base.{
  ℕ, ◌+◌, ◌≤◌, ◌<◌, ◌≡◌, refl, sym, ap, ◌∙◌, Bool, true, false, List, [], ◌∷◌, ◌++◌, map, ◌==◌,
  if◌then◌else◌, length, take, drop, zero, suc, replicate, arith, Bool-cases, inl, inr,
  append_assoc, length-append,
}
use haskell_agent.Bridge.Syntax.{
  Text, Token, line_text, Span, syntax_class_code, emit_span, emit_spans, emit_lines,
}

-- The lines of a source, with a newline between them.
unfoldable pub source_text : List (List Token) → Text
source_text [] = []
source_text (line ∷ []) = line_text line
source_text (line ∷ next ∷ lines) = line_text line ++ (10 ∷ source_text (next ∷ lines))

-- What the spans should show: the text and the class of each nonempty token.
unfoldable pub shown : List Token → List (Text × ℕ)
shown [] = []
shown (t ∷ ts) =
    (if length t.text == 0 then [] else ((t.text, syntax_class_code t.class) ∷ [])) ++ shown ts

unfoldable pub shown_lines : List (List Token) → List (Text × ℕ)
shown_lines [] = []
shown_lines (line ∷ lines) = shown line ++ shown_lines lines

-- What a host that cuts a span out of the source sees.
abbrev pub cut : Text → Span → Text × ℕ
cut source s = (take s.byte_length (drop s.byte_offset source), s.syntax_class)

-- Spans that start at an offset or after it, each nonempty and after the one before it.
abbrev pub IsOrdered : ℕ → List Span → Type 0
IsOrdered from [] = Unit
IsOrdered from (s ∷ ss) =
    (from ≤ s.byte_offset) × (0 < s.byte_length) × IsOrdered (s.byte_offset + s.byte_length) ss

drop_append : (pre rest : Text) → drop (length pre) (pre ++ rest) ≡ rest
drop_append [] rest = refl
drop_append (b ∷ pre) rest = drop_append pre rest

take_append : (text rest : Text) → take (length text) (text ++ rest) ≡ text
take_append [] rest = refl
take_append (b ∷ text) rest = rw (take_append text rest)

map_append : {A B : Type 0} (f : A → B) (xs ys : List A) → map f (xs ++ ys) ≡ map f xs ++ map f ys
map_append f [] ys = refl
map_append f (x ∷ xs) ys = rw (map_append f xs ys)

emit_spans_end :
    (offset : ℕ) (ts : List Token) → (emit_spans offset ts).1 ≡ offset + length (line_text ts)
unfolding emit_spans line_text
emit_spans_end offset [] = omega arith
emit_spans_end offset (t ∷ ts) =
    omega (arith, emit_spans_end (offset + length t.text) ts, length-append t.text (line_text ts))

emit_span-cut :
    (pre rest : Text) (t : Token)
    → map (cut (pre ++ (t.text ++ rest))) (emit_span (length pre) t)
      ≡ (if length t.text == 0 then [] else ((t.text, syntax_class_code t.class) ∷ []))
unfolding emit_span
emit_span-cut pre rest t = elim (Bool-cases (length t.text == 0)) [
  | inl none_left ↦ simp none_left
  | inr some_left ↦ simp (some_left, drop_append pre (t.text ++ rest), take_append t.text rest)
]

emit_spans-cut :
    (pre rest : Text) (ts : List Token)
    → map (cut (pre ++ (line_text ts ++ rest))) (emit_spans (length pre) ts).0 ≡ shown ts
unfolding emit_spans line_text shown
emit_spans-cut pre rest [] = refl
emit_spans-cut pre rest (t ∷ ts) =
    let whole = pre ++ ((t.text ++ line_text ts) ++ rest) in
    let here = ap (λ x. pre ++ x) (append_assoc t.text (line_text ts) rest) in
    let beyond = here ∙ sym (append_assoc pre t.text (line_text ts ++ rest)) in
    map_append (cut whole) (emit_span (length pre) t) (emit_spans (length pre + length t.text) ts).0
    ∙ ap₂ ◌++◌
        (ap (λ w. map (cut w) (emit_span (length pre) t)) here
          ∙ emit_span-cut pre (line_text ts ++ rest) t)
        (ap₂ (λ w n. map (cut w) (emit_spans n ts).0) beyond (sym (length-append pre t.text))
          ∙ emit_spans-cut (pre ++ t.text) rest ts)

-- The source from a line on: the line, and what comes after it.
after_line : List (List Token) → Text → Text
after_line [] rest = rest
after_line (line ∷ lines) rest = 10 ∷ (source_text (line ∷ lines) ++ rest)

source_text_cons :
    (line : List Token) (lines : List (List Token)) (rest : Text)
    → source_text (line ∷ lines) ++ rest ≡ line_text line ++ after_line lines rest
unfolding source_text after_line
source_text_cons line [] rest = refl
source_text_cons line (next ∷ lines) rest =
    append_assoc (line_text line) (10 ∷ source_text (next ∷ lines)) rest

newline_append :
    (pre line rest : Text) → pre ++ (line ++ (10 ∷ rest)) ≡ (pre ++ (line ++ (10 ∷ []))) ++ rest
newline_append pre line rest =
    ap (λ x. pre ++ x) (sym (append_assoc line (10 ∷ []) rest))
    ∙ sym (append_assoc pre (line ++ (10 ∷ [])) rest)

length_newline :
    (pre line : Text) → length pre + length line + 1 ≡ length (pre ++ (line ++ (10 ∷ [])))
length_newline pre line =
    omega (arith, length-append pre (line ++ (10 ∷ [])), length-append line (10 ∷ []))

pub emit_lines-cut :
    (pre : Text) (lines : List (List Token)) (rest : Text)
    → map (cut (pre ++ (source_text lines ++ rest))) (emit_lines (length pre) lines)
      ≡ shown_lines lines
unfolding emit_lines shown_lines after_line
emit_lines-cut pre [] rest = refl
emit_lines-cut pre (line ∷ lines) rest =
    let whole = pre ++ (source_text (line ∷ lines) ++ rest) in
    let (spans, end) = emit_spans (length pre) line in
    let split = ap (λ x. pre ++ x) (source_text_cons line lines rest) in
    map_append (cut whole) spans (emit_lines (end + 1) lines)
    ∙ ap₂ ◌++◌ (ap (λ w. map (cut w) spans) split ∙ emit_spans-cut pre (after_line lines rest) line)
        (ap₂ (λ w n. map (cut w) (emit_lines (n + 1) lines)) split
            (emit_spans_end (length pre) line)
          ∙ later lines (emit_lines-cut begun lines rest))
  where
    begun : Text
    begun = pre ++ (line_text line ++ (10 ∷ []))

    later :
        (lines : List (List Token))
        → map (cut (begun ++ (source_text lines ++ rest))) (emit_lines (length begun) lines)
          ≡ shown_lines lines
        → map
            (cut (pre ++ (line_text line ++ after_line lines rest)))
            (emit_lines (length pre + length (line_text line) + 1) lines)
          ≡ shown_lines lines
    later [] same = refl
    later (next ∷ lines) same =
        ap₂ (λ w n. map (cut w) (emit_lines n (next ∷ lines)))
          (newline_append pre (line_text line) (source_text (next ∷ lines) ++ rest))
          (length_newline pre (line_text line))
        ∙ same

-- Lines without tokens report nothing.
emit_lines-empty : (offset k : ℕ) → emit_lines offset (replicate k []) ≡ []
unfolding emit_lines emit_spans
emit_lines-empty offset zero = refl
emit_lines-empty offset (suc k) = emit_lines-empty (offset + 1) k

pub emit_lines-padded :
    (offset : ℕ) (lines : List (List Token)) (k : ℕ)
    → emit_lines offset (lines ++ replicate k []) ≡ emit_lines offset lines
unfolding emit_lines
emit_lines-padded offset [] k = emit_lines-empty offset k
emit_lines-padded offset (line ∷ lines) k =
    ap (λ ss. (emit_spans offset line).0 ++ ss)
      (emit_lines-padded ((emit_spans offset line).1 + 1) lines k)

weaken : (low from : ℕ) (ss : List Span) → low ≤ from → IsOrdered from ss → IsOrdered low ss
weaken low from [] h o = o
weaken low from (s ∷ ss) h (first, full, o) = ((omega arith), full, o)

IsOrdered-if :
    (offset n class : ℕ) (more : List Span) (b : Bool)
    → (n == 0) ≡ b
    → IsOrdered (offset + n) more
    → IsOrdered offset (
        (if b
          then []
          else (record { byte_offset = offset; byte_length = n; syntax_class = class } ∷ []))
        ++ more)
IsOrdered-if offset n class more true e h = weaken offset (offset + n) more (omega arith) h
IsOrdered-if offset n class more false e h = ((omega arith), ground (arith, e), h)

emit_span-IsOrdered :
    (offset : ℕ) (t : Token) (more : List Span)
    → IsOrdered (offset + length t.text) more
    → IsOrdered offset (emit_span offset t ++ more)
unfolding emit_span
emit_span-IsOrdered offset t more h =
    IsOrdered-if offset (length t.text) (syntax_class_code t.class) more _ refl h

emit_spans-IsOrdered :
    (offset : ℕ) (ts : List Token) (more : List Span)
    → IsOrdered (emit_spans offset ts).1 more
    → IsOrdered offset ((emit_spans offset ts).0 ++ more)
unfolding emit_spans
emit_spans-IsOrdered offset [] more h = h
emit_spans-IsOrdered offset (t ∷ ts) more h =
    subst (IsOrdered offset)
      (sym (append_assoc (emit_span offset t) (emit_spans (offset + length t.text) ts).0 more))
      (emit_span-IsOrdered offset t _ (emit_spans-IsOrdered (offset + length t.text) ts more h))

pub emit_lines-IsOrdered :
    (offset : ℕ) (lines : List (List Token)) → IsOrdered offset (emit_lines offset lines)
unfolding emit_lines
emit_lines-IsOrdered offset [] = _
emit_lines-IsOrdered offset (line ∷ lines) =
    emit_spans-IsOrdered offset line (emit_lines ((emit_spans offset line).1 + 1) lines) (
      weaken (emit_spans offset line).1 ((emit_spans offset line).1 + 1) _ (omega arith)
        (emit_lines-IsOrdered ((emit_spans offset line).1 + 1) lines))
