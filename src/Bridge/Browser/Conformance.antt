-- ===== src/Bridge/Browser/Conformance.antt =====
-- The runtime's requests against what the header asks of them.
use haskell_agent.Base.{
  ℕ, ◌≡◌, refl, Bool, Option, true, false, none, some, not, [], ◌∷◌, arith, both_true, of_some,
  ◌||◌, if◌then◌else◌,
}
use mathlib.Core.Path.{subst}
use haskell_agent.Base.Int.{pos, eqb_ℤ}
use haskell_agent.Bridge.Browser.{
  Text, TextFunctions, is_http_url, http, Double, text_of, Operation, Request, nonempty, at_most,
  fields_valid, operation_valid, find_operation, operations, request_valid, code, bytes_at,
  request_struct_size, scope_id_max_bytes, call_id_max_bytes, ref_max_bytes,
}
use haskell_agent.Bridge.Browser.Urls.{validate_http_url-is_http_url}
use haskell_agent.Bridge.Browser.Commands.{
  Command, ToolCall, fits, non_blank, scroll_command, command_of, slice_of, is_blank,
  validate_http_url, navigated, or_false, request_of, valid_identifier, sent,
}

-- The operation that a command is a call of.
abbrev pub operation : Command → Operation
operation (Command.navigate _) = Operation.navigate
operation Command.snapshot = Operation.snapshot
operation (Command.click _) = Operation.click
operation (Command.type _ _ _) = Operation.type
operation (Command.key _) = Operation.key
operation (Command.scroll _ _) = Operation.scroll
operation Command.back = Operation.back
operation Command.forward = Operation.forward
operation Command.reload = Operation.reload
operation Command.screenshot = Operation.screenshot
operation Command.list_tabs = Operation.list_tabs
operation (Command.switch_tab _) = Operation.switch_tab
operation Command.list_downloads = Operation.list_downloads

nonempty-slice_of :
    (limit : ℕ) (b : ℕ) (value : Text)
    → fits limit (b ∷ value) ≡ true
    → nonempty limit (slice_of (b ∷ value)) ≡ true
unfolding fits nonempty at_most slice_of
nonempty-slice_of limit b value e = ground arith

at_most-slice_of :
    (limit : ℕ) (value : Text) → fits limit value ≡ true → at_most limit (slice_of value) ≡ true
unfolding fits at_most slice_of
at_most-slice_of limit [] e = ground arith
at_most-slice_of limit (b ∷ value) e = ground arith

pub find_operation-code : (o : Operation) → find_operation operations (pos (code o)) ≡ some o
unfolding find_operation
find_operation-code o = ground arith

pub command-request_of :
    (c : Command) (scope id : Text) → (request_of c scope id).command ≡ pos (code (operation c))
unfolding request_of
command-request_of c scope id = ground arith

-- What request_of puts into the fields that do not depend on the command.
pub common_fields :
    (c : Command) (scope id : Text)
    → let r = request_of c scope id in
      (r.struct_size ≡ request_struct_size)
      × (r.reserved ≡ pos 0)
      × (r.scope_id ≡ bytes_at scope)
      × (r.call_id ≡ bytes_at id)
unfolding request_of
common_fields c scope id = ground arith

nonempty-valid_identifier :
    (limit : ℕ) (value : Text)
    → valid_identifier limit value ≡ true
    → nonempty limit (bytes_at value) ≡ true
unfolding valid_identifier nonempty at_most
nonempty-valid_identifier limit [] e = ground arith
nonempty-valid_identifier limit (b ∷ value) e = ground arith

pub text_of-slice_of : (value : Text) → text_of (slice_of value) ≡ value
unfolding slice_of
text_of-slice_of [] = refl
text_of-slice_of (b ∷ value) = refl

-- To prove something of what a check lets through.
of_check :
    {A : Type 0} {b : Bool} {a c : A} (P : A → Type 0)
    → (if b then some a else none) ≡ some c
    → (b ≡ true → P a)
    → P c
of_check {b = true} P e proof = subst P (of_some e) (proof refl)
of_check {b = false} P e proof = cc

pub of_guard :
    {A : Type 0} {a b : Bool} {x c : A} (P : A → Type 0)
    → (if not a || not b then none else some x) ≡ some c
    → (a ≡ true → b ≡ true → P x)
    → P c
of_guard {a = true} {b = true} P e proof = subst P (of_some e) (proof refl refl)
of_guard {a = true} {b = false} P e proof = cc
of_guard {a = false} P e proof = cc

submit_flag :
    (b : Bool)
    → (eqb_ℤ (pos (if b then 1 else 0)) (pos 0) || eqb_ℤ (pos (if b then 1 else 0)) (pos 1)) ≡ true
submit_flag true = refl
submit_flag false = refl

module _ (t : TextFunctions) (blank : t.strip [] ≡ []) where
  nonempty-non_blank :
      (limit : ℕ) (value : Text)
      → non_blank (is_blank t) limit value ≡ true
      → nonempty limit (slice_of value) ≡ true
  unfolding non_blank
  nonempty-non_blank limit [] e = ground arith
  nonempty-non_blank limit (b ∷ value) e =
      let (_, fit) = both_true (not (is_blank t (b ∷ value))) _ e in
      nonempty-slice_of limit b value fit

  scroll_command_valid :
      (x y : Double) (scope id : Text) (c : Command)
      → scroll_command x y ≡ some c
      → fields_valid (is_http_url t) (operation c) (request_of c scope id) ≡ true
  unfolding scroll_command request_of fields_valid slice_of
  scroll_command_valid x y scope id _ ok = grind (arith)

  abbrev IsValid : Text → Text → Command → Type 0
  IsValid scope id c = fields_valid (is_http_url t) (operation c) (request_of c scope id) ≡ true

  fields_valid-request_of :
      (scope id : Text) (call : ToolCall) {c : Command}
      → command_of t call ≡ some c
      → fields_valid (is_http_url t) (operation c) (request_of c scope id) ≡ true
  unfolding command_of request_of fields_valid slice_of
  fields_valid-request_of scope id (ToolCall.browser_navigate url) ok =
      of_navigated scope id (validate_http_url t url) refl ok
    where
      of_navigated :
          (scope id : Text) (o : Option Text) {c : Command}
          → validate_http_url t url ≡ o
          → navigated o ≡ some c
          → fields_valid (is_http_url t) (operation c) (request_of c scope id) ≡ true
      of_navigated scope id none e found = cc
      of_navigated scope id (some u) e found = subst (IsValid scope id) (of_some found) (
          let (nb, http) = validate_http_url-is_http_url t url u e in
          simp (nonempty-non_blank _ u nb, text_of-slice_of u, http))
  fields_valid-request_of scope id (ToolCall.browser_click ref) ok =
      of_check (IsValid scope id) ok (λ e. simp (nonempty-non_blank _ ref e))
  fields_valid-request_of scope id (ToolCall.browser_type ref text s) ok =
      of_check (IsValid scope id) ok (λ e.
        let (nb, fit) = both_true (non_blank (is_blank t) ref_max_bytes ref) _ e in
        simp (nonempty-non_blank _ ref nb, at_most-slice_of _ text fit, submit_flag (or_false s)))
  fields_valid-request_of scope id (ToolCall.browser_key k) ok =
      of_check (IsValid scope id) ok (λ e. simp (nonempty-non_blank _ k e))
  fields_valid-request_of scope id (ToolCall.browser_scroll x y) ok =
      scroll_command_valid x y scope id _ ok
  fields_valid-request_of scope id (ToolCall.browser_switch_tab tab) ok =
      of_check (IsValid scope id) ok (λ e. simp (nonempty-non_blank _ tab e))
  fields_valid-request_of scope id ToolCall.browser_snapshot ok =
      of_check {b = true} (IsValid scope id) ok (λ e. refl)
  fields_valid-request_of scope id ToolCall.browser_back ok =
      of_check {b = true} (IsValid scope id) ok (λ e. refl)
  fields_valid-request_of scope id ToolCall.browser_forward ok =
      of_check {b = true} (IsValid scope id) ok (λ e. refl)
  fields_valid-request_of scope id ToolCall.browser_reload ok =
      of_check {b = true} (IsValid scope id) ok (λ e. refl)
  fields_valid-request_of scope id ToolCall.browser_screenshot ok =
      of_check {b = true} (IsValid scope id) ok (λ e. refl)
  fields_valid-request_of scope id ToolCall.browser_list_tabs ok =
      of_check {b = true} (IsValid scope id) ok (λ e. refl)
  fields_valid-request_of scope id ToolCall.browser_list_downloads ok =
      of_check {b = true} (IsValid scope id) ok (λ e. refl)

  request_valid-request_of :
      (scope id : Text) (c : Command)
      → valid_identifier scope_id_max_bytes scope ≡ true
      → valid_identifier call_id_max_bytes id ≡ true
      → fields_valid (is_http_url t) (operation c) (request_of c scope id) ≡ true
      → request_valid (is_http_url t) (request_of c scope id) ≡ true
  unfolding request_valid operation_valid
  request_valid-request_of scope id c s i fields =
      let (size, reserved, at_scope, at_call) = common_fields c scope id in
      simp (
        size,
        reserved,
        at_scope,
        at_call,
        nonempty-valid_identifier _ scope s,
        nonempty-valid_identifier _ id i,
        command-request_of c scope id,
        find_operation-code (operation c),
        fields,
      )

  -- Whatever a tool's arguments are, the request that the runtime sends for them is one that the
  -- header lets a host accept: the structure's size, identifiers of 1 to 1024 bytes, the limits of
  -- the command, an HTTP(S) URL with a host and without user information, and nothing in the fields
  -- that it does not use. The assumption is that stripping the empty text leaves nothing.
  pub sent-request_valid :
      (call : ToolCall) (scope id : Text) {c : Command} {r : Request}
      → command_of t call ≡ some c
      → sent (record { scope_id = scope; call_id = id; command = c }) ≡ some r
      → request_valid (is_http_url t) r ≡ true
  unfolding sent
  sent-request_valid call scope id {c} {r} ok e =
      of_guard (λ r. request_valid (is_http_url t) r ≡ true) e
        (λ s i. request_valid-request_of scope id c s i (fields_valid-request_of scope id call ok))
