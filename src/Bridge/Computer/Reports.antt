-- ===== src/Bridge/Computer/Reports.antt =====
-- What invokeComputerRaw of ComputerBridge.hs (packages/agent-native-bridge/ffi/Agent/CLI/MacOS)
-- accepts, against the contract of ha_computer_callback in HaskellAgentBridge.h.
use haskell_agent.Base.{
  ℕ, zero, suc, ◌≤◌, ◌≡◌, ◌⊎◌, inl, inr, refl, Bool, true, false, ◌&&◌, none, some, List, [], ◌∷◌,
  leb, ltb, ◌==◌, if◌then◌else◌, length, take, arith,
}
use haskell_agent.Base.Int.{pos, eqb_ℤ}
use haskell_agent.Bridge.Buffers.{is_empty}
use haskell_agent.Bridge.Computer.Exchange.{
  request_max_bytes, result_capacity, error_capacity, image_capacity, accessibility_capacity,
  Channel, Answer, Response, read_output, response_of, invoke,
}

-- A success without an error text, with lengths within the capacities and no image that was not
-- asked for.
abbrev pub answer_valid : Bool → Answer → Bool
answer_valid include_screenshot a =
    eqb_ℤ a.status (pos 0)
    && leb a.result.reported result_capacity
    && leb a.accessibility.reported accessibility_capacity
    && leb a.image.reported (if include_screenshot then image_capacity else 0)
    && (a.error.reported == 0)

-- The reported part of a channel.
abbrev pub reported_part : Channel → List ℕ
reported_part c = take c.reported c.buffer

abbrev pub reported_response : Answer → Response
reported_response a = record {
  result = reported_part a.result;
  accessibility = reported_part a.accessibility;
  image = reported_part a.image;
  session_token = a.session_token;
  image_format = a.image_format;
}

take_none : (n : ℕ) (xs : List ℕ) → n ≡ 0 → take n xs ≡ []
take_none zero xs e = refl
take_none (suc n) xs e = ground arith

-- A channel without a buffer has no capacity.
read_output-reported :
    (capacity : ℕ) (has_buffer : Bool) (c : Channel)
    → (has_buffer ≡ true) ⊎ (capacity ≡ 0)
    → read_output capacity has_buffer c
      ≡ (if leb c.reported capacity then some (reported_part c) else none)
unfolding read_output
read_output-reported capacity has_buffer c h = ground (arith, h, take_none c.reported c.buffer)

is_empty-reported : (n : ℕ) (xs : List ℕ) → n ≤ length xs → is_empty (take n xs) ≡ (n == 0)
is_empty-reported zero xs h = refl
is_empty-reported (suc n) [] h = ground arith
is_empty-reported (suc n) (x ∷ xs) h = ground arith

image_buffer :
    (include_screenshot : Bool)
    → (include_screenshot ≡ true) ⊎ ((if include_screenshot then image_capacity else 0) ≡ 0)
image_buffer true = inl refl
image_buffer false = inr refl

-- The cases of invokeComputerRaw, where each output is read or is beyond its capacity.
response_of_read :
    (a : Answer) (r x i e : Bool) (error : List ℕ)
    → response_of a
        (if r then some (reported_part a.result) else none)
        (if x then some (reported_part a.accessibility) else none)
        (if i then some (reported_part a.image) else none)
        (if e then some error else none)
      ≡ (if eqb_ℤ a.status (pos 0) && r && x && i && (e && is_empty error)
          then some (reported_response a)
          else none)
unfolding response_of
response_of_read a false x i e error = ground arith
response_of_read a true false i e error = ground arith
response_of_read a true true false e error = ground arith
response_of_read a true true true false error = ground arith
response_of_read a true true true true error = ground arith

error_reported :
    (c : Channel)
    → length c.buffer ≡ error_capacity
    → (leb c.reported error_capacity && is_empty (reported_part c)) ≡ (c.reported == 0)
error_reported c filled = ground (arith, is_empty-reported c.reported c.buffer)

if_sent :
    {A : Type 0} (m n : ℕ) (v : Bool) (r : A)
    → (if ltb m n then none else (if v then some r else none))
      ≡ (if leb n m && v then some r else none)
if_sent m n true r = ground arith
if_sent m n false r = ground arith

-- An answer of a host whose error buffer has its capacity gives a response, which has each channel
-- up to the length that the host reports, exactly if the request is short enough to be sent and the
-- answer is a success without an error text, with lengths within the capacities and no image that
-- was not asked for; otherwise there is no response.
pub invoke-answer_valid :
    (include_screenshot : Bool) (request : List ℕ) (a : Answer)
    → length a.error.buffer ≡ error_capacity
    → invoke include_screenshot request a ≡ (
        if leb (length request) request_max_bytes && answer_valid include_screenshot a
        then some (reported_response a)
        else none)
unfolding invoke
invoke-answer_valid include_screenshot request a filled =
    rw
      (
        read_output-reported result_capacity true a.result (inl refl),
        read_output-reported accessibility_capacity true a.accessibility (inl refl),
        read_output-reported (if include_screenshot then image_capacity else 0) include_screenshot
            a.image (image_buffer include_screenshot),
        read_output-reported error_capacity true a.error (inl refl),
        response_of_read a (leb a.result.reported result_capacity)
            (leb a.accessibility.reported accessibility_capacity)
            (leb a.image.reported (if include_screenshot then image_capacity else 0))
            (leb a.error.reported error_capacity) (reported_part a.error),
        error_reported a.error filled,
      )
      (if_sent request_max_bytes (length request) (answer_valid include_screenshot a)
        (reported_response a))
