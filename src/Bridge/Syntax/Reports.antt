-- ===== src/Bridge/Syntax/Reports.antt =====
-- What a call of ha_syntax_highlight reports, on each of its branches.
use haskell_agent.Base.{ℕ, ◌*◌, ◌≤◌, ◌<◌, ◌≡◌, Bool, Option, some, List, [], map, take, ◌++◌}
use haskell_agent.Bridge.Buffers.{Buffer, contents, size}
use haskell_agent.Bridge.Syntax.{Text, Token, Span, newlines, Report}
use haskell_agent.Bridge.Syntax.Spans.{source_text, shown_lines, cut, IsOrdered}

module _ {H : Type 0} (is_utf8 : List ℕ → Bool) (load : Text → Option H)
    (tokenize : H → Text → Text → Option (List (List Token))) where
  -- The tokenizer's lines begin the source, and the spans are their nonempty tokens.
  abbrev pub IsHighlighted : Text → Text → List Span → Type 0
  IsHighlighted language source spans =
      (h : H) × (lines : List (List Token)) × (load language ≡ some h)
      × (tokenize h language source ≡ some lines)
      × ((rest : Text) × (source ≡ source_text lines ++ rest))
      × IsOrdered 0 spans
      × (map (cut source) spans ≡ shown_lines lines)

  -- What the header says of the statuses. With status 3 a host may have seen the first of the spans,
  -- which it has to discard.
  pub data IsReported (language source : Buffer) (report : Report) : Type 0 where
    highlighted :
        report.0 ≡ 0
        → size source ≤ 256 * 1024
        → newlines (contents source) < 5000
        → IsHighlighted (contents language) (contents source) report.1
        → IsReported language source report
    refused : 0 < report.0 → report.0 ≤ 3 → report.1 ≡ [] → IsReported language source report
    interrupted :
        report.0 ≡ 3
        → (k : ℕ) (all : List Span) → report.1 ≡ take k all
        → IsHighlighted (contents language) (contents source) all
        → IsReported language source report
