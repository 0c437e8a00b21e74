-- ===== src/Bridge/Browser/RoundTrip.antt =====
-- A host's reading of a browser request that BrowserBridge.hs
-- (packages/agent-native-bridge/ffi/Agent/CLI/MacOS) fills.
use haskell_agent.Base.{
  ℕ, ◌≡◌, refl, ap, ◌∙◌, Bool, true, false, Option, none, some, List, [], ◌∷◌, arith, of_some, ◌&&◌,
  ◌==◌, ==_iff, inl, inr, ◌⊎◌, if◌then◌else◌,
}
use haskell_agent.Base.Int.{ℤ, pos, negsuc, eqb_ℤ}
use haskell_agent.Bridge.Browser.{
  Text, Double, zero_double, is_zero, is_null, text_of, Slice, null, bytes_at, Operation, Request,
  nonempty, at_most, fields_valid, operation_valid, find_operation, operations, request_valid, code,
  type_submit, finite, nan, infinite, request_struct_size, scope_id_max_bytes, call_id_max_bytes,
}
use haskell_agent.Bridge.Browser.Commands.{
  Invocation, Command, slice_of, request_of, valid_identifier, sent,
}
use haskell_agent.Bridge.Browser.Conformance.{
  operation, find_operation-code, command-request_of, text_of-slice_of, of_guard, common_fields,
}

-- The command that a request's fields give for an operation.
unfoldable command_in : Operation → Request → Command
command_in Operation.navigate r = Command.navigate (text_of r.argument1)
command_in Operation.snapshot r = Command.snapshot
command_in Operation.click r = Command.click (text_of r.argument1)
command_in Operation.type r =
    Command.type (text_of r.argument1) (text_of r.argument2) (eqb_ℤ r.flags (pos type_submit))
command_in Operation.back r = Command.back
command_in Operation.forward r = Command.forward
command_in Operation.reload r = Command.reload
command_in Operation.key r = Command.key (text_of r.argument1)
command_in Operation.scroll r = Command.scroll r.scroll_delta_x r.scroll_delta_y
command_in Operation.screenshot r = Command.screenshot
command_in Operation.list_tabs r = Command.list_tabs
command_in Operation.switch_tab r = Command.switch_tab (text_of r.argument1)
command_in Operation.list_downloads r = Command.list_downloads

abbrev invocation : Request → Operation → Invocation
invocation r o = record {
  scope_id = text_of r.scope_id;
  call_id = text_of r.call_id;
  command = command_in o r;
}

unfoldable pub invocation_for : Request → Option Operation → Option Invocation
unfolding command_in
invocation_for r none = none
invocation_for r (some o) = some (invocation r o)

unfoldable pub invocation_in : Request → Option Invocation
unfolding invocation_for
invocation_in r = invocation_for r (find_operation operations r.command)

invocation_in-found :
    (r : Request) (o : Operation)
    → find_operation operations r.command ≡ some o
    → invocation_in r ≡ some (invocation r o)
unfolding invocation_in invocation_for
invocation_in-found r o e = ap (invocation_for r) e

command_in-request_of :
    (c : Command) (scope id : Text) → command_in (operation c) (request_of c scope id) ≡ c
unfolding command_in request_of
command_in-request_of c scope id = grind (arith, text_of-slice_of)

eqb_sound : (a b : ℤ) → eqb_ℤ a b ≡ true → a ≡ b
eqb_sound (pos a) (pos b) e = ap pos (ground arith)
eqb_sound (pos a) (negsuc b) e = ground arith
eqb_sound (negsuc a) (pos b) e = ground arith
eqb_sound (negsuc a) (negsuc b) e = ap negsuc (ground arith)

of_if :
    {A : Type 0} {x y z : A} (b : Bool)
    → (if b then x else y) ≡ z
    → ((b ≡ true) × (x ≡ z)) ⊎ (y ≡ z)
of_if true e = inl (refl, e)
of_if false e = inr e

find_sound :
    (os : List Operation) (n : ℤ) (o : Operation) → find_operation os n ≡ some o → n ≡ pos (code o)
unfolding find_operation
find_sound [] n o e = cc
find_sound (p ∷ os) n o e = elim (of_if (eqb_ℤ n (pos (code p))) e) [
  | inl (same, found) ↦ eqb_sound n _ same ∙ ap (λ o. pos (code o)) (of_some found)
  | inr rest ↦ find_sound os n o rest
]

of_is_null : (s : Slice) → is_null s ≡ true → s ≡ null
of_is_null null e = refl
of_is_null (bytes_at _) e = cc

of_is_zero : (d : Double) → is_zero d ≡ true → d ≡ zero_double
of_is_zero (finite z) e = ap finite (eqb_sound z (pos 0) e)
of_is_zero nan e = cc
of_is_zero (infinite _) e = cc

of_at_most : (limit : ℕ) (s : Slice) → at_most limit s ≡ true → slice_of (text_of s) ≡ s
unfolding at_most slice_of
of_at_most limit null e = refl
of_at_most limit (bytes_at []) e = cc
of_at_most limit (bytes_at (b ∷ bytes)) e = refl

of_nonempty :
    (limit : ℕ) (s : Slice)
    → nonempty limit s ≡ true
    → (slice_of (text_of s) ≡ s) × (bytes_at (text_of s) ≡ s)
unfolding nonempty at_most slice_of
of_nonempty limit null e = cc
of_nonempty limit (bytes_at []) e = cc
of_nonempty limit (bytes_at (b ∷ bytes)) e = (refl, refl)

ruleset reading = (eqb_sound, of_is_null, of_is_zero, of_at_most, of_nonempty)

all_of :
    (a b c d e : Bool)
    → a && b && c && d && e ≡ true
    → (a ≡ true) × (b ≡ true) × (c ≡ true) × (d ≡ true) × (e ≡ true)
all_of a b c d e all = ground arith

module _ (is_http_url : Text → Bool) where
  request_of-command_in :
      (o : Operation) (r : Request)
      → r.command ≡ pos (code o)
      → r.struct_size ≡ request_struct_size
      → r.reserved ≡ pos 0
      → bytes_at (text_of r.scope_id) ≡ r.scope_id
      → bytes_at (text_of r.call_id) ≡ r.call_id
      → fields_valid is_http_url o r ≡ true
      → request_of (command_in o r) (text_of r.scope_id) (text_of r.call_id) ≡ r
  unfolding command_in request_of fields_valid slice_of
  request_of-command_in Operation.navigate r e size res sc ca f = grind (arith, reading)
  request_of-command_in Operation.snapshot r e size res sc ca f = grind (arith, reading)
  request_of-command_in Operation.click r e size res sc ca f = grind (arith, reading)
  request_of-command_in Operation.type r e size res sc ca f = grind (arith, reading)
  request_of-command_in Operation.back r e size res sc ca f = grind (arith, reading)
  request_of-command_in Operation.forward r e size res sc ca f = grind (arith, reading)
  request_of-command_in Operation.reload r e size res sc ca f = grind (arith, reading)
  request_of-command_in Operation.key r e size res sc ca f = grind (arith, reading)
  request_of-command_in Operation.scroll r e size res sc ca f = grind (arith, reading)
  request_of-command_in Operation.screenshot r e size res sc ca f = grind (arith, reading)
  request_of-command_in Operation.list_tabs r e size res sc ca f = grind (arith, reading)
  request_of-command_in Operation.switch_tab r e size res sc ca f = grind (arith, reading)
  request_of-command_in Operation.list_downloads r e size res sc ca f = grind (arith, reading)

  valid_identifier-nonempty :
      (limit : ℕ) (s : Slice) → nonempty limit s ≡ true → valid_identifier limit (text_of s) ≡ true
  unfolding valid_identifier nonempty at_most
  valid_identifier-nonempty limit null e = cc
  valid_identifier-nonempty limit (bytes_at []) e = cc
  valid_identifier-nonempty limit (bytes_at (b ∷ bytes)) e = e

  -- What a valid request consists of.
  record Parts (r : Request) : Type 0 where
    operation : Operation
    found : find_operation operations r.command ≡ some operation
    fields : fields_valid is_http_url operation r ≡ true
    size : r.struct_size ≡ request_struct_size
    reserved : r.reserved ≡ pos 0
    scope : nonempty scope_id_max_bytes r.scope_id ≡ true
    call : nonempty call_id_max_bytes r.call_id ≡ true

  of_operation :
      (o : Option Operation) (r : Request)
      → operation_valid is_http_url o r ≡ true
      → (p : Operation) × (o ≡ some p) × (fields_valid is_http_url p r ≡ true)
  unfolding operation_valid
  of_operation none r e = cc
  of_operation (some p) r e = (p, refl, e)

  parts : (r : Request) → request_valid is_http_url r ≡ true → Parts r
  unfolding request_valid
  parts r e =
      let (size, res, sc, ca, valid) =
        all_of (r.struct_size == request_struct_size) (eqb_ℤ r.reserved (pos 0))
          (nonempty scope_id_max_bytes r.scope_id) (nonempty call_id_max_bytes r.call_id)
          (operation_valid is_http_url (find_operation operations r.command) r) e in
      let (o, found, fields) = of_operation _ r valid in
      record {
        operation = o;
        found = found;
        fields = fields;
        size = (==_iff r.struct_size request_struct_size).0 size;
        reserved = eqb_sound r.reserved (pos 0) res;
        scope = sc;
        call = ca;
      }

  -- A request that the header lets a host accept is the one that invokeBrowserCommand fills for the
  -- invocation that its fields give; the tools make fewer invocations.
  pub request_valid-sent :
      (r : Request)
      → request_valid is_http_url r ≡ true
      → (i : Invocation) × (invocation_in r ≡ some i) × (sent i ≡ some r)
  unfolding sent
  request_valid-sent r e =
      let p = parts r e in
      let back =
        request_of-command_in p.operation r (find_sound operations r.command p.operation p.found)
          p.size p.reserved (of_nonempty _ r.scope_id p.scope).1 (of_nonempty _ r.call_id p.call).1
          p.fields in
      (
        invocation r p.operation,
        invocation_in-found r p.operation p.found,
        (simp (
          valid_identifier-nonempty _ r.scope_id p.scope,
          valid_identifier-nonempty _ r.call_id p.call,
          back,
        )),
      )

invocation-request_of :
    (i : Invocation)
    → invocation (request_of i.command i.scope_id i.call_id) (operation i.command) ≡ i
invocation-request_of i =
    let (_, _, scope, call) = common_fields i.command i.scope_id i.call_id in
    simp (command_in-request_of i.command i.scope_id i.call_id, scope, call)

-- A host that reads the fields of a request that the runtime sent finds the invocation that it was
-- sent for: the command, with its arguments, and both identifiers.
pub invocation_in-sent : (i : Invocation) (r : Request) → sent i ≡ some r → invocation_in r ≡ some i
unfolding sent
invocation_in-sent i r e =
    of_guard (λ r. invocation_in r ≡ some i) e
      (λ s c.
        invocation_in-found _ _ (
          ap (find_operation operations) (command-request_of i.command i.scope_id i.call_id)
          ∙ find_operation-code (operation i.command))
        ∙ ap some (invocation-request_of i))
