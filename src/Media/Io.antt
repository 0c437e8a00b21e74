-- ===== src/Media/Io.antt =====
-- Chains of blocking calls on a socket, as the conditions of media_request and of the helper's
-- loop write them with `||`: each call runs only if all before it succeeded.
use haskell_agent.Base.{ℕ, ◌≡◌, ◌≢◌, [], refl, Bool, true, false, Option, none, some, List}
use native.Mathlib.Omega.{arith}
use haskell_agent.Media.Protocol.{Socket, media_receive, media_send}

-- The outer `none` is a call that has not returned when its fuel is spent; the inner one is a call
-- that failed, or a condition that did not hold.
abbrev pub Io : Type 0 → Type 0 → Type 0
Io W A = W → Option (Option A × W)

module _ {W : Type 0} where
  abbrev pub pure : {A : Type 0} → A → Io W A
  pure a w = some (some a, w)

  abbrev pub stop : {A : Type 0} → Io W A
  stop w = some (none, w)

  infixl 5 ◌>>=◌ ◌>>◌
  abbrev pub then_do : {A B : Type 0} → (A → Io W B) → Option (Option A × W) → Option (Option B × W)
  then_do f none = none
  then_do f (some (none, w)) = some (none, w)
  then_do f (some (some a, w)) = f a w

  abbrev pub ◌>>=◌ : {A B : Type 0} → Io W A → (A → Io W B) → Io W B
  ◌>>=◌ m f w = then_do f (m w)

  abbrev pub ◌>>◌ : {A B : Type 0} → Io W A → Io W B → Io W B
  m >> k = m >>= λ _. k

  abbrev pub require : Bool → Io W (Unit {0})
  require true w = some (some tt, w)
  require false w = some (none, w)

  abbrev pub require_some : {A : Type 0} → Option A → Io W A
  require_some none w = some (none, w)
  require_some (some a) w = some (some a, w)

  -- Inversion of a chain that succeeded, and of one that returned.
  pub >>=-eq-some :
      {A B : Type 0} (m : Io W A) (f : A → Io W B) (w : W) {b : B} {w'' : W}
      → (m >>= f) w ≡ some (some b, w'')
      → (a : A) × (w' : W) × (m w ≡ some (some a, w')) × (f a w' ≡ some (some b, w''))
  >>=-eq-some {A} m f w {b} {w''} e = go (m w) refl e
    where
      go :
          (p : Option (Option A × W))
          → m w ≡ p
          → then_do f p ≡ some (some b, w'')
          → (a : A) × (w' : W) × (m w ≡ some (some a, w')) × (f a w' ≡ some (some b, w''))
      go none q h = cc
      go (some (none, w')) q h = cc
      go (some (some a, w')) q h = (a, w', q, h)

  pub >>=-returns :
      {A B : Type 0} (m : Io W A) (f : A → Io W B) (w : W)
      → m w ≢ none
      → ((a : A) (w' : W) → m w ≡ some (some a, w') → f a w' ≢ none)
      → (m >>= f) w ≢ none
  >>=-returns {A} m f w h k e = go (m w) refl e
    where
      go : (p : Option (Option A × W)) → m w ≡ p → then_do f p ≡ none → ⊥
      go none q g = h q
      go (some (none, w')) q g = cc
      go (some (some a, w')) q g = k a w' q g

-- media_transfer as a step of such a chain.
module _ {W : Type 0} (s : Socket W) where
  abbrev pub received : Option (Bool × List ℕ × W) → Option (Option (List ℕ) × W)
  received none = none
  received (some (true, buffer, w)) = some (some buffer, w)
  received (some (false, buffer, w)) = some (none, w)

  abbrev pub sent : Option (Bool × W) → Option (Option (Unit {0}) × W)
  sent none = none
  sent (some (true, w)) = some (some tt, w)
  sent (some (false, w)) = some (none, w)

  pub received-eq-some :
      (p : Option (Bool × List ℕ × W)) {buffer : List ℕ} {w' : W}
      → received p ≡ some (some buffer, w')
      → p ≡ some (true, buffer, w')
  received-eq-some none e = cc
  received-eq-some (some (true, b, v)) e = ground arith
  received-eq-some (some (false, b, v)) e = cc

  pub received-eq-none : (p : Option (Bool × List ℕ × W)) → received p ≡ none → p ≡ none
  received-eq-none none e = refl
  received-eq-none (some (true, b, v)) e = cc
  received-eq-none (some (false, b, v)) e = cc

  pub sent-eq-some :
      (p : Option (Bool × W)) {w' : W} → sent p ≡ some (some tt, w') → p ≡ some (true, w')
  sent-eq-some none e = cc
  sent-eq-some (some (true, v)) e = ground arith
  sent-eq-some (some (false, v)) e = cc

  pub sent-eq-none : (p : Option (Bool × W)) → sent p ≡ none → p ≡ none
  sent-eq-none none e = refl
  sent-eq-none (some (true, v)) e = cc
  sent-eq-none (some (false, v)) e = cc

  unfoldable pub read : ℕ → ℕ → Io W (List ℕ)
  read fuel wanted w = received (media_receive s fuel wanted [] w)

  unfoldable pub write : ℕ → List ℕ → Io W (Unit {0})
  write fuel buffer w = sent (media_send s fuel buffer w)
