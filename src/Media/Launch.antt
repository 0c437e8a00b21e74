-- ===== src/Media/Launch.antt =====
-- media_open and media_close of helper-client.c in packages/agent-webrtc/cbits: the descriptors and
-- the process that an attempt to start a helper leaves behind, and the end of a helper.
use haskell_agent.Base.{
  ℕ, zero, suc, ◌+◌, ◌≤◌, ◌<◌, ◌≡◌, ◌↔◌, refl, Bool, true, false, not, ◌&&◌, ◌||◌, List, [], ◌∷◌,
  ◌++◌, Option, none, some, if◌then◌else◌, arith, Bool-cases, ◌⊎◌, inl, inr,
}
use native.Mathlib.Decide.{ℕ_discrete as dec_eq}
use haskell_agent.Base.Int.{ℤ, pos, negsuc}
use haskell_agent.Base.Owned.{Event, creates, releases, settle}

-- Descriptors, the file actions, and the child process, which is released when it is reaped.
pub data Object : Type 0 where
  near far remote actions process : Object

-- The answers that media_open meets. `reply` is the value of its request, and `none` where the
-- request broke the socket and closed it.
pub record Startup : Type 0 where
  pub absolute : Bool
  pub paired : Bool
  pub duplicated : Bool
  pub actions_made : Bool
  pub near_closed : Bool
  pub remote_placed : Bool
  pub remote_closed : Bool
  pub spawned : Bool
  pub reply : Option ℤ

abbrev when : Bool → List (Event Object) → List (Event Object)
when true es = es
when false es = []

-- The objects that media_close gives up, for a child whose socket is open or not.
unfoldable pub closed : Bool → List (Event Object)
closed is_open = when is_open (releases near ∷ []) ++ (releases process ∷ [])

-- The end of media_open, by the value of the request.
unfoldable pub opened : Option ℤ → Bool × List (Event Object)
unfolding closed
opened none = (false, releases near ∷ closed false)
opened (some (pos zero)) = (true, [])
opened (some (pos (suc n))) = (false, closed true)
opened (some (negsuc n)) = (false, closed true)

abbrev behind : List (Event Object) → Bool × List (Event Object) → Bool × List (Event Object)
behind es (b, rest) = (b, es ++ rest)

-- media_open: whether it returns 1, and what it creates and releases.
unfoldable pub media_open : Startup → Bool × List (Event Object)
unfolding opened
media_open s =
    if not s.absolute || not s.paired
    then (false, [])
    else (let pair =
          creates near
          ∷ creates far
          ∷ (when s.duplicated (creates remote ∷ []) ++ (releases far ∷ [])) in
        if not s.duplicated
        then (false, pair ++ (releases near ∷ []))
        else (if not s.actions_made
            then (false, pair ++ (releases remote ∷ releases near ∷ []))
            else (let running = s.near_closed && s.remote_placed && s.remote_closed && s.spawned in
                let started =
                  pair
                  ++ (creates actions
                      ∷ (when running (creates process ∷ [])
                          ++ (releases actions ∷ releases remote ∷ []))) in
                if not running
                then (false, started ++ (releases near ∷ []))
                else behind started (opened s.reply))))

unfoldable pub same : Object → Object → Bool
same near near = true
same far far = true
same remote remote = true
same actions actions = true
same process process = true
same _ _ = false

-- An attempt that fails leaves no descriptor, no file actions and no child behind, and after one
-- that succeeds media_close gives up the rest, whether or not the socket broke in between.
pub media_open-settles :
    (s : Startup) (broke : Bool)
    → let (returned, events) = media_open s in
      settle same
        (events
          ++ (if returned
              then (if broke then releases near ∷ closed false else closed true)
              else []))
        []
      ≡ some []
unfolding media_open settle same
media_open-settles s broke = ground arith

-- The answers of waitpid with WNOHANG: this child, an error with ECHILD, or anything else.
pub data Wait : Type 0 where
  reaped no_child other : Wait

unfoldable pub is_gone : Wait → Bool
is_gone reaped = true
is_gone no_child = true
is_gone other = false

-- The calls of media_close.
pub data Effect : Type 0 where
  close_socket poll sleep kill wait : Effect

-- The `while` around the last waitpid, which as many signals interrupt.
unfoldable pub waits : ℕ → List Effect
waits zero = wait ∷ []
waits (suc n) = wait ∷ waits n

-- The attempts that are left, from one on, and what follows them.
unfoldable pub polling : (ℕ → Wait) → ℕ → ℕ → ℕ → List Effect
unfolding is_gone waits
polling answer interruptions attempt zero = kill ∷ waits interruptions
polling answer interruptions attempt (suc left) =
    let rest = polling answer interruptions (suc attempt) left in
    if is_gone (answer attempt) then poll ∷ [] else poll ∷ sleep ∷ rest

unfoldable pub media_close : Bool → (ℕ → Wait) → ℕ → List Effect
unfolding polling
media_close is_open answer interruptions =
    let rest = polling answer interruptions 0 100 in if is_open then close_socket ∷ rest else rest

-- How often the child is sent SIGKILL.
abbrev is_kill : Effect → ℕ
is_kill kill = 1
is_kill _ = 0

abbrev pub kills : List Effect → ℕ
kills [] = 0
kills (e ∷ es) = is_kill e + kills es

kills-waits : (n : ℕ) → kills (waits n) ≡ 0
unfolding waits
kills-waits zero = refl
kills-waits (suc n) = omega (arith, kills-waits n)

-- The first attempt of a range that finds the child gone, if one does.
polling_cases :
    (answer : ℕ → Wait) (interruptions attempt left : ℕ)
    → (kills (polling answer interruptions attempt left) ≡ 1)
        × ((i : ℕ) → attempt ≤ i → i < attempt + left → is_gone (answer i) ≡ false)
      ⊎ (kills (polling answer interruptions attempt left) ≡ 0)
        × ((i : ℕ) × (attempt ≤ i) × (i < attempt + left) × (is_gone (answer i) ≡ true))
unfolding polling
polling_cases answer interruptions attempt zero =
    inl (omega (arith, kills-waits interruptions), λ i lo hi. absurd (omega arith))
polling_cases answer interruptions attempt (suc left) =
    elim (Bool-cases (is_gone (answer attempt))) [
      | inl gone ↦ inr (rw gone refl, (attempt, omega arith, omega arith, gone))
      | inr stays ↦ elim (polling_cases answer interruptions (suc attempt) left) [
        | inl (k, all) ↦ inl (
          rw stays (omega (arith, k)),
          λ i lo hi. elim (dec_eq attempt i) [
            | yes e ↦ rw (← e) stays
            | no later ↦ all i (omega arith) (omega arith)
          ],
        )
        | inr (k, (i, lo, hi, gone)) ↦
            inr (rw stays (omega (arith, k)), (i, omega arith, omega arith, gone))
      ]
    ]

kills-closing :
    (b : Bool) (es : List Effect) → kills (if b then close_socket ∷ es else es) ≡ kills es
kills-closing true es = omega arith
kills-closing false es = refl

-- media_close sends SIGKILL, and then once, exactly if none of its hundred polls finds the child
-- gone.
pub media_close-kills :
    (is_open : Bool) (answer : ℕ → Wait) (interruptions : ℕ)
    → (kills (media_close is_open answer interruptions) ≡ 1)
      ↔ ((i : ℕ) → i < 100 → is_gone (answer i) ≡ false)
unfolding media_close
media_close-kills is_open answer interruptions =
    let same_kills = kills-closing is_open (polling answer interruptions 0 100) in
    elim (polling_cases answer interruptions 0 100) [
      | inl (k, all) ↦
          (λ e i hi. all i (omega arith) (omega arith), λ h. omega (arith, same_kills, k))
      | inr (k, (i, lo, hi, gone)) ↦
          (λ e. absurd (omega (arith, same_kills, k, e)), λ h. let stays = h i hi in cc)
    ]
