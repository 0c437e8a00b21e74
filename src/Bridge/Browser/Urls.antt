-- ===== src/Bridge/Browser/Urls.antt =====
-- The URLs that validateHttpUrl of BrowserTools.hs (packages/agent-native-bridge/src/Agent/CLI) lets
-- through, against what HaskellAgentBridge.h asks of them.
use haskell_agent.Base.{
  ◌≡◌, refl, Bool-cases, inl, inr, true, Option, none, some, [], ◌∷◌, of_some, arith,
}
use haskell_agent.Bridge.Buffers.{is_empty, same_text}
use haskell_agent.Bridge.Browser.{
  Text, TextFunctions, Uri, Authority, is_http_url, is_http_uri, names_host, http, https,
  url_max_bytes,
}
use haskell_agent.Bridge.Browser.Commands.{
  non_blank, is_blank, elem_text, accepted_uri, accepted_authority, validate_http_url,
}

accepted_authority-names_host :
    (url u : Text) (o : Option Authority)
    → accepted_authority url o ≡ some u
    → (url ≡ u) × (names_host o ≡ true)
accepted_authority-names_host url u none e = cc
accepted_authority-names_host url u (some a) e = elim (Bool-cases (is_empty a.reg_name)) [
  | inl nameless ↦ let impossible = rw nameless at e in cc
  | inr named ↦ elim (Bool-cases (is_empty a.user_info)) [
    | inl anonymous ↦ (of_some (rw (named, anonymous) at e), rw (named, anonymous) refl)
    | inr user ↦ let impossible = rw (named, user) at e in cc
  ]
]

module _ (t : TextFunctions) where
  accepted_uri-is_http_uri :
      (url u : Text) (o : Option Uri)
      → accepted_uri t url o ≡ some u
      → (url ≡ u) × (is_http_uri t o ≡ true)
  accepted_uri-is_http_uri url u none e = cc
  accepted_uri-is_http_uri url u (some uri) e =
      elim (Bool-cases (elem_text (t.fold_case uri.scheme) (http ∷ https ∷ []))) [
        | inl web ↦
            let (same, host) = accepted_authority-names_host url u uri.authority (rw web at e) in
            (same, rw host (ground (arith, web)))
        | inr other ↦ let impossible = rw other at e in cc
      ]

  -- A text that validateHttpUrl lets through is handed on as it is, within the limit, and is a URL of
  -- the kind that the header asks for.
  pub validate_http_url-is_http_url :
      (url u : Text)
      → validate_http_url t url ≡ some u
      → (non_blank (is_blank t) url_max_bytes u ≡ true) × (is_http_url t u ≡ true)
  unfolding validate_http_url
  validate_http_url-is_http_url url u e =
      elim (Bool-cases (non_blank (is_blank t) url_max_bytes url)) [
        | inl fit ↦ elim (Bool-cases (same_text (t.strip url) url)) [
          | inl stripped ↦
              let (same, web) =
                accepted_uri-is_http_uri url u (t.parse_uri url)
                  (rw (fit, stripped, validate_http_url) at e) in
              (rw (← same) fit, rw (← same) web)
          | inr blanks ↦ let impossible = rw (fit, blanks, validate_http_url) at e in cc
        ]
        | inr unfit ↦ let impossible = rw (unfit, validate_http_url) at e in cc
      ]
