-- ===== src/Runtime/Arguments.antt =====
-- The checks of ha_cli_main on its arguments, and the count of ha_runtime_init and ha_runtime_exit.
use haskell_agent.Base.{
  ℕ, zero, suc, ◌+◌, ◌-◌, ◌≤◌, ◌<◌, ◌^◌, ◌≡◌, ◌≢◌, ◌↔◌, refl, ap, ◌∙◌, true, false, Option, none,
  some, List, [], ◌∷◌, arith, length,
}
use native.Mathlib.Decide.{ℕ_discrete as dec_eq}
use haskell_agent.Base.Int.{ℤ, pos, negsuc}
use haskell_agent.Runtime.{
  Runtime, runtime_init, runtime_exit, Arguments, is_null, has_null, rejects,
}

-- An argument vector as the C standard passes it to main: `argc` strings, at least one, and a NULL
-- behind them.
abbrev pub IsVector : ℤ → Option Arguments → Type 0
IsVector (pos (suc n)) (some argv) = ((i : ℕ) → i < suc n → argv i ≢ none) × (argv (suc n) ≡ none)
IsVector _ _ = ⊥

is_null-false : {A : Type 0} (o : Option A) → is_null o ≡ false → o ≢ none
is_null-false none e = cc
is_null-false (some a) e = λ h. cc

is_null_of_ne : {A : Type 0} (o : Option A) → o ≢ none → is_null o ≡ false
is_null_of_ne none h = absurd (h refl)
is_null_of_ne (some a) h = refl

is_null-true : {A : Type 0} (o : Option A) → is_null o ≡ true → o ≡ none
is_null-true none e = refl
is_null-true (some a) e = cc

has_null-false :
    (argv : Arguments) (index left : ℕ)
    → has_null argv index left ≡ false
    → (i : ℕ) → index ≤ i
    → i < index + left
    → argv i ≢ none
unfolding has_null
has_null-false argv index zero e i lo hi = absurd (omega arith)
has_null-false argv index (suc left) e i lo hi = elim (dec_eq index i) [
  | yes same ↦ rw (← same) (is_null-false (argv index) (ground arith))
  | no other ↦ has_null-false argv (suc index) left (ground arith) i (omega arith) (omega arith)
]

has_null_of_ne :
    (argv : Arguments) (index left : ℕ)
    → ((i : ℕ) → index ≤ i → i < index + left → argv i ≢ none)
    → has_null argv index left ≡ false
unfolding has_null
has_null_of_ne argv index zero h = refl
has_null_of_ne argv index (suc left) h =
    rw (is_null_of_ne (argv index) (h index (omega arith) (omega arith)))
      (has_null_of_ne argv (suc index) left λ i lo hi. h i (omega arith) (omega arith))

-- ha_cli_main goes past its checks exactly if it was given a whole argument vector.
pub rejects-IsVector :
    (argc : ℤ) (argv : Option Arguments) → (rejects argc argv ≡ false) ↔ IsVector argc argv
unfolding rejects
rejects-IsVector (negsuc n) argv = (λ e. cc, λ v. absurd v)
rejects-IsVector (pos zero) argv = (λ e. cc, λ v. absurd v)
rejects-IsVector (pos (suc n)) none = (λ e. cc, λ v. absurd v)
rejects-IsVector (pos (suc n)) (some argv) = (
  λ e. (
    λ i hi. has_null-false argv 0 (suc n) (ground arith) i (omega arith) (omega arith),
    is_null-true _ (ground arith),
  ),
  λ v. rw v.1 (has_null_of_ne argv 0 (suc n) λ i lo hi. v.0 i (omega arith)),
)

pub data Call : Type 0 where
  acquires releases : Call

abbrev pub calls : Call → Runtime → Runtime
calls acquires r = (runtime_init r).1
calls releases r = runtime_exit r

pub run : List Call → Runtime → Runtime
run [] r = r
run (c ∷ cs) r = run cs (calls c r)

-- The number of references as it is meant: an unbounded count, which an unmatched release leaves
-- at zero.
pub outstanding : List Call → ℕ → ℕ
outstanding [] n = n
outstanding (acquires ∷ cs) n = outstanding cs (n + 1)
outstanding (releases ∷ cs) n = outstanding cs (n - 1)

acquired :
    (r : Runtime)
    → r.cli_started ≡ false
    → r.references + 1 < 2 ^ 32
    → ((runtime_init r).1.references ≡ r.references + 1) × ((runtime_init r).1.cli_started ≡ false)
unfolding runtime_init
acquired r h bound = ground arith

released :
    (r : Runtime)
    → r.cli_started ≡ false
    → ((runtime_exit r).references ≡ r.references - 1) × ((runtime_exit r).cli_started ≡ false)
unfolding runtime_exit
released r h = ground arith

-- A history of fewer calls than the counter can hold leaves the number of references that are
-- outstanding: the counter never wraps and never goes below zero.
pub run-outstanding :
    (cs : List Call) (r : Runtime)
    → r.cli_started ≡ false
    → r.references + length cs < 2 ^ 32
    → (run cs r).references ≡ outstanding cs r.references
unfolding run outstanding
run-outstanding [] r h bound = refl
run-outstanding (acquires ∷ cs) r h bound =
    let (n, c) = acquired r h (omega arith) in
    run-outstanding cs (runtime_init r).1 c (omega (arith, n)) ∙ ap (outstanding cs) n
run-outstanding (releases ∷ cs) r h bound =
    let (n, c) = released r h in
    run-outstanding cs (runtime_exit r) c (omega (arith, n)) ∙ ap (outstanding cs) n
