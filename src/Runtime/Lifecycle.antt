-- ===== src/Runtime/Lifecycle.antt =====
-- The calls of the runtime's entry points on several threads: each runs its locked part at once,
-- and the command line's thread goes on without the lock.
use haskell_agent.Base.{
  ℕ, ◌+◌, ◌≤◌, ◌≡◌, refl, ap, true, false, Option, List, [], ◌∷◌, ◌++◌, arith, if◌then◌else◌,
}
use haskell_agent.Base.Int.{ℤ, negsuc}
use haskell_agent.Runtime.{
  Effect, init_embedded, init_command_line, set_build_commit, Runtime, initial, runtime_init,
  runtime_exit, Arguments, refused, admitted, cli_admit, SchedulerStatus, ExitCodes, cli_run,
}

-- The statics, what has been called so far, and what the command line's thread has still to call.
pub record Process : Type 0 where
  pub runtime : Runtime
  pub done : List Effect
  pub pending : List Effect

abbrev pub started : Process
started = record { runtime = initial; done = []; pending = [] }

module _ (codes : ExitCodes) where
  pub data Step : Process → Process → Type 0 where
    embed :
        (p : Process)
        → Step p (record p {
          runtime = (runtime_init p.runtime).1;
          done = p.done ++ (runtime_init p.runtime).2;
        })
    leave : (p : Process) → Step p (record p { runtime = runtime_exit p.runtime })
    -- ha_cli_main up to the lock's release; an admitted call then runs on its thread
    turn_away :
        (p : Process) (argc : ℤ) (argv : Option Arguments) (code : ℤ)
        → (cli_admit argc argv p.runtime).0 ≡ refused code
        → Step p (record p { runtime = (cli_admit argc argv p.runtime).1 })
    admit :
        (p : Process) (argc : ℤ) (argv : Option Arguments) (status : SchedulerStatus)
        → (cli_admit argc argv p.runtime).0 ≡ admitted
        → Step p (record p {
          runtime = (cli_admit argc argv p.runtime).1;
          pending = p.pending ++ cli_run codes status;
        })
    advance :
        (p : Process) (e : Effect) (rest : List Effect)
        → p.pending ≡ e ∷ rest
        → Step p (record p { done = p.done ++ e ∷ []; pending = rest })

  pub data Reach (s : Process) : Process → Type 0 where
    here : Reach s s
    next : {p q : Process} → Reach s p → Step p q → Reach s q

-- How often an effect initializes the runtime, and how often for a host.
abbrev starts : Effect → ℕ
starts init_embedded = 1
starts init_command_line = 1
starts _ = 0

abbrev pub initializations : List Effect → ℕ
initializations [] = 0
initializations (e ∷ es) = starts e + initializations es

abbrev embeds : Effect → ℕ
embeds init_embedded = 1
embeds _ = 0

abbrev pub embeddings : List Effect → ℕ
embeddings [] = 0
embeddings (e ∷ es) = embeds e + embeddings es

initializations-append :
    (xs ys : List Effect) → initializations (xs ++ ys) ≡ initializations xs + initializations ys
initializations-append [] ys = omega arith
initializations-append (x ∷ xs) ys = omega (arith, initializations-append xs ys)

embeddings-append : (xs ys : List Effect) → embeddings (xs ++ ys) ≡ embeddings xs + embeddings ys
embeddings-append [] ys = omega arith
embeddings-append (x ∷ xs) ys = omega (arith, embeddings-append xs ys)

embeddings_below : (xs : List Effect) → embeddings xs ≤ initializations xs
embeddings_below [] = omega arith
embeddings_below (init_embedded ∷ xs) = omega (arith, embeddings_below xs)
embeddings_below (init_command_line ∷ xs) = omega (arith, embeddings_below xs)
embeddings_below (_ ∷ xs) = omega (arith, embeddings_below xs)

-- The runtime is initialized once, for one kind of owner; only a host holds references.
pub record IsOwned (p : Process) : Type 0 where
  pub once :
      initializations p.done + initializations p.pending ≡ (if p.runtime.initialized then 1 else 0)
  pub exclusive : p.runtime.cli_started ≡ true → embeddings p.done ≡ 0
  pub unheld : p.runtime.cli_started ≡ true → p.runtime.references ≡ 0
  pub owner : p.runtime.cli_started ≡ true → p.runtime.initialized ≡ true
  pub idle : embeddings p.pending ≡ 0
  pub counted : p.runtime.initialized ≡ false → p.runtime.references ≡ 0

embed-IsOwned :
    (r : Runtime) (done pending : List Effect)
    → IsOwned (record { runtime = r; done = done; pending = pending })
    → IsOwned (record {
      runtime = (runtime_init r).1;
      done = done ++ (runtime_init r).2;
      pending = pending;
    })
unfolding runtime_init
embed-IsOwned r done pending h = ground (
  arith,
  initializations-append done (init_embedded ∷ set_build_commit ∷ []),
  initializations-append done [],
  embeddings-append done (init_embedded ∷ set_build_commit ∷ []),
  embeddings-append done [],
)

leave-IsOwned :
    (r : Runtime) (done pending : List Effect)
    → IsOwned (record { runtime = r; done = done; pending = pending })
    → IsOwned (record { runtime = runtime_exit r; done = done; pending = pending })
unfolding runtime_exit
leave-IsOwned r done pending h = ground arith

refused_same :
    (argc : ℤ) (argv : Option Arguments) (r : Runtime) (code : ℤ)
    → (cli_admit argc argv r).0 ≡ refused code
    → (cli_admit argc argv r).1 ≡ r
unfolding cli_admit
refused_same argc argv r code e = ground arith

-- Only a runtime that nobody has initialized is handed to the command line.
pub cli_admit-admitted :
    (argc : ℤ) (argv : Option Arguments) (r : Runtime)
    → (cli_admit argc argv r).0 ≡ admitted
    → (r.initialized ≡ false)
      × ((cli_admit argc argv r).1 ≡ record r { initialized = true; cli_started = true })
unfolding cli_admit
cli_admit-admitted argc argv r e = ground arith

admit-IsOwned :
    (codes : ExitCodes) (status : SchedulerStatus) (argc : ℤ) (argv : Option Arguments)
    (r : Runtime) (done pending : List Effect)
    → (cli_admit argc argv r).0 ≡ admitted
    → IsOwned (record { runtime = r; done = done; pending = pending })
    → IsOwned (record {
      runtime = (cli_admit argc argv r).1;
      done = done;
      pending = pending ++ cli_run codes status;
    })
unfolding cli_run
admit-IsOwned codes status argc argv r done pending e h =
    let (fresh, same) = cli_admit-admitted argc argv r e in
    rw same (
      ground (
        arith,
        fresh,
        initializations-append pending (cli_run codes status),
        embeddings-append pending (cli_run codes status),
        embeddings_below done,
      ))

advance-IsOwned :
    (r : Runtime) (done pending : List Effect) (e : Effect) (rest : List Effect)
    → pending ≡ e ∷ rest
    → IsOwned (record { runtime = r; done = done; pending = pending })
    → IsOwned (record { runtime = r; done = done ++ e ∷ []; pending = rest })
advance-IsOwned r done pending e rest q h = ground (
  arith,
  ap initializations q,
  ap embeddings q,
  initializations-append done (e ∷ []),
  embeddings-append done (e ∷ []),
)

refuse : (r : Runtime) → r.cli_started ≡ true → runtime_init r ≡ (negsuc 0, r, [])
unfolding runtime_init
refuse r h = ground arith

module _ (codes : ExitCodes) where
  Step-IsOwned : {p q : Process} → Step codes p q → IsOwned p → IsOwned q
  Step-IsOwned (embed p) h = embed-IsOwned p.runtime p.done p.pending h
  Step-IsOwned (leave p) h = leave-IsOwned p.runtime p.done p.pending h
  Step-IsOwned (turn_away p argc argv code e) h = rw (refused_same argc argv p.runtime code e) h
  Step-IsOwned (admit p argc argv status e) h =
      admit-IsOwned codes status argc argv p.runtime p.done p.pending e h
  Step-IsOwned (advance p e rest q) h = advance-IsOwned p.runtime p.done p.pending e rest q h

  pub Reach-IsOwned : {p q : Process} → IsOwned p → Reach codes p q → IsOwned q
  Reach-IsOwned h here = h
  Reach-IsOwned h (next r st) = Step-IsOwned st (Reach-IsOwned h r)

  started-IsOwned : IsOwned started
  started-IsOwned = ground arith

  -- However the entry points are called from any number of threads, the runtime is initialized at
  -- most once, by a host or by the command line.
  pub Reach-once : {p : Process} → Reach codes started p → initializations p.done ≤ 1
  Reach-once {p} r = let h = Reach-IsOwned started-IsOwned r in ground (arith, h.once)

  -- Once the command line has started, no host has initialized the runtime and none holds a
  -- reference to it.
  pub Reach-exclusive :
      {p : Process}
      → Reach codes started p
      → p.runtime.cli_started ≡ true
      → (embeddings p.done ≡ 0) × (p.runtime.references ≡ 0)
  Reach-exclusive {p} r cli =
      let h = Reach-IsOwned started-IsOwned r in (h.exclusive cli, h.unheld cli)

  Step-cli_started :
      {p q : Process} → Step codes p q → p.runtime.cli_started ≡ true → q.runtime.cli_started ≡ true
  unfolding runtime_init runtime_exit
  Step-cli_started (embed p) h = ground arith
  Step-cli_started (leave p) h = ground arith
  Step-cli_started (turn_away p argc argv code e) h = rw (refused_same argc argv p.runtime code e) h
  Step-cli_started (admit p argc argv status e) h =
      rw (cli_admit-admitted argc argv p.runtime e).1 refl
  Step-cli_started (advance p e rest q) h = h

  -- Once the command line has started, every later ha_runtime_init returns -1, calls nothing and
  -- changes nothing.
  pub runtime_init-refused :
      {p q : Process}
      → p.runtime.cli_started ≡ true
      → Reach codes p q
      → runtime_init q.runtime ≡ (negsuc 0, q.runtime, [])
  runtime_init-refused {p} {q} h r = refuse q.runtime (stays r)
    where
      stays : {u : Process} → Reach codes p u → u.runtime.cli_started ≡ true
      stays here = h
      stays (next r st) = Step-cli_started st (stays r)
