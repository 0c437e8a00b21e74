-- ===== src/Bridge/Syntax.antt =====
-- ha_syntax_highlight of HaskellAgentBridge.h (packages/agent-native-bridge/include), as
-- SyntaxBridge.hs (ffi/Agent/CLI/MacOS of the same package) implements it. A text is the list of
-- its UTF-8 bytes; the tokenizer and the search for a language are parameters. highlightCode and
-- preserveSourceLines are those of packages/agent-syntax/src/Agent/Syntax.hs.
pub mod Spans
pub mod Lines
pub mod Reports
use haskell_agent.Base.{
  ℕ, zero, suc, ◌+◌, ◌*◌, Bool, true, false, not, ◌&&◌, ◌||◌, Option, none, some, List, [], ◌∷◌,
  ◌++◌, ltb, leb, ◌==◌, if◌then◌else◌, length, take, map, replicate, ◌-◌,
}
use haskell_agent.Bridge.Buffers.{Buffer, contents, size, is_null, is_empty, same_text}

abbrev pub Text : Type 0
Text = List ℕ

-- SyntaxClass, and the codes of the header's enum.
pub data SyntaxClass : Type 0 where
  normal keyword type function variable string number comment : SyntaxClass
  operator annotation preprocessor warning error : SyntaxClass

unfoldable pub syntax_class_code : SyntaxClass → ℕ
syntax_class_code normal = 0
syntax_class_code keyword = 1
syntax_class_code type = 2
syntax_class_code function = 3
syntax_class_code variable = 4
syntax_class_code string = 5
syntax_class_code number = 6
syntax_class_code comment = 7
syntax_class_code operator = 8
syntax_class_code annotation = 9
syntax_class_code preprocessor = 10
syntax_class_code warning = 11
syntax_class_code error = 12

pub record Token : Type 0 where
  pub text : Text
  pub class : SyntaxClass

-- The arguments of one call of ha_syntax_span_callback.
pub record Span : Type 0 where
  pub byte_offset : ℕ
  pub byte_length : ℕ
  pub syntax_class : ℕ

-- emitSpan: the calls of the callback.
unfoldable pub emit_span : ℕ → Token → List Span
emit_span offset token =
    if length token.text == 0
    then []
    else (record {
      byte_offset = offset;
      byte_length = length token.text;
      syntax_class = syntax_class_code token.class;
    }
        ∷ [])

-- foldM emitSpan: the calls, and the offset after the line's tokens.
unfoldable pub emit_spans : ℕ → List Token → List Span × ℕ
emit_spans offset [] = ([], offset)
emit_spans offset (t ∷ ts) =
    let (spans, end) = emit_spans (offset + length t.text) ts in (emit_span offset t ++ spans, end)

-- foldM emitLine
unfoldable pub emit_lines : ℕ → List (List Token) → List Span
emit_lines offset [] = []
emit_lines offset (line ∷ lines) =
    let (spans, end) = emit_spans offset line in spans ++ emit_lines (end + 1) lines

-- The number of newlines.
unfoldable pub newlines : Text → ℕ
newlines [] = 0
newlines (b ∷ bytes) = (if b == 10 then 1 else 0) + newlines bytes

-- What the call gives: its status and the spans that it reported.
abbrev pub Report : Type 0
Report = ℕ × List Span

-- What can go wrong beside what the call tests for: nothing, an exception before the first span, or
-- one behind so many spans.
pub data Fault : Type 0 where
  no_fault at_once : Fault
  behind : ℕ → Fault

-- What is reported of some spans.
abbrev pub report_spans : Fault → List Span → Report
report_spans no_fault spans = (0, spans)
report_spans at_once spans = (3, [])
report_spans (behind k) spans = (3, take k spans)

abbrev pub report_lines : Fault → Option (List (List Token)) → Report
report_lines fault none = (1, [])
report_lines fault (some lines) = report_spans fault (emit_lines 0 lines)

-- The text of a line.
unfoldable pub line_text : List Token → Text
line_text [] = []
line_text (t ∷ ts) = t.text ++ line_text ts

abbrev onto_first : ℕ → List Text → List Text
onto_first b [] = (b ∷ []) ∷ []
onto_first b (line ∷ lines) = (b ∷ line) ∷ lines

-- Text.splitOn "\n"
unfoldable pub split_lines : Text → List Text
split_lines [] = [] ∷ []
split_lines (b ∷ bytes) =
    let lines = split_lines bytes in if b == 10 then [] ∷ lines else onto_first b lines

unfoldable pub same_texts : List Text → List Text → Bool
unfolding same_text
same_texts [] [] = true
same_texts (a ∷ as_) (b ∷ bs) = same_text a b && same_texts as_ bs
same_texts _ _ = false

-- preserveSourceLines
unfoldable pub preserve_source_lines : Text → List (List Token) → Option (List (List Token))
preserve_source_lines source lines =
    if ltb (length (split_lines source)) (length lines)
      || not (same_texts (map line_text lines) (take (length lines) (split_lines source)))
    then none
    else some (lines ++ replicate (length (split_lines source) - length lines) [])

abbrev pub max_highlight_bytes : ℕ
max_highlight_bytes = 256 * 1024

abbrev pub max_highlight_lines : ℕ
max_highlight_lines = 5000

abbrev pub preserved : Text → Option (List (List Token)) → Option (List (List Token))
preserved source none = none
preserved source (some lines) = preserve_source_lines source lines

abbrev pub is_at_once : Fault → Bool
is_at_once at_once = true
is_at_once _ = false

-- `load`: a highlighter for the language, `none` for the failures of loadedHighlighter;
-- `tokenize`: the lines of tokens that Skylighting finds with the syntax of a fence, `none` where
-- there is no such syntax or the tokenizer fails.
module _ {H : Type 0} (is_utf8 : List ℕ → Bool) (load : Text → Option H)
    (tokenize : H → Text → Text → Option (List (List Token))) where
  -- highlightCode
  abbrev pub highlight_code : H → Text → Text → Option (List (List Token))
  highlight_code h language source =
      if ltb max_highlight_bytes (length source)
      then none
      else (if ltb max_highlight_lines (newlines source + 1)
          then none
          else preserved source (tokenize h language source))

  abbrev pub with_highlighter : Fault → Option H → Text → Text → Report
  with_highlighter fault none language source = (1, [])
  with_highlighter fault (some h) language source =
      report_lines fault (highlight_code h language source)

  unfoldable pub ha_syntax_highlight : Fault → Buffer → Buffer → Bool → Report
  ha_syntax_highlight fault language source has_callback =
      if not has_callback
        || (is_null language && not (size language == 0))
        || (is_null source && not (size source == 0))
      then (2, [])
      else (if ltb (256 * 1024) (size source) || ltb 4096 (size language)
          then (1, [])
          else (if is_at_once fault
              then (3, [])
              else (if is_utf8 (contents language) && is_utf8 (contents source)
                  then (if leb 5000 (newlines (contents source))
                      then (1, [])
                      else with_highlighter fault (load (contents language)) (contents language)
                          (contents source))
                  else (2, []))))
