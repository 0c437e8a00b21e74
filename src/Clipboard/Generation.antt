-- ===== src/Clipboard/Generation.antt =====
-- The generation of the snapshot over a history of calls: it counts the changes that the
-- Pasteboard Manager reported, and the mutex is free after every call.
use haskell_agent.Base.{
  ℕ, ◌+◌, ◌<◌, ◌^◌, ◌≡◌, Bool, true, false, ◌&&◌, Option, none, some, List, [], ◌∷◌, arith,
  if◌then◌else◌,
}
use haskell_agent.Clipboard.{Flavors, Snapshot, Answers, change_count, image_snapshot}

-- The initial static variables.
abbrev pub initial : Snapshot
initial = record { locked = false; has_ref = false; generation = 0; generation_initialized = false }

-- Before the first inspection there is no generation, and afterwards it is positive.
pub record IsSound (s : Snapshot) : Type 0 where
  pub free : s.locked ≡ false
  pub unset : s.generation_initialized ≡ false → s.generation ≡ 0
  pub bounded : s.generation < 2 ^ 64

-- One call of either entry point.
pub data Call (F : Type 0) : Type 0 where
  counts : Bool → Answers F → Call F
  inspects : Bool → Answers F → Call F

module _ {F : Type 0} (types : Flavors F) where
  abbrev pub after : Call F → Snapshot → Snapshot
  after (counts wanted a) s = (change_count wanted a s).1
  after (inspects wanted a) s = (image_snapshot types wanted a s).1

  -- The generation that a call reports.
  abbrev pub reported : Call F → Snapshot → Option ℕ
  reported (counts wanted a) s = (change_count wanted a s).0
  reported (inspects wanted a) s = first (image_snapshot types wanted a s).0
    where
      first : Option (ℕ × Bool) → Option ℕ
      first none = none
      first (some (n, b)) = some n

  -- Every call, whatever fails in it, leaves the mutex free and the variables sound.
  pub after-IsSound : (c : Call F) (s : Snapshot) → IsSound s → IsSound (after c s)
  unfolding change_count image_snapshot
  after-IsSound (counts true a) s h = ground arith
  after-IsSound (counts false a) s h = ground arith
  after-IsSound (inspects true a) s h = ground arith
  after-IsSound (inspects false a) s h = ground arith

  -- Whether a call sees a change.
  abbrev pub changed : Call F → ℕ
  changed (counts wanted a) = if wanted && a.modified then 1 else 0
  changed (inspects wanted a) = if wanted && a.modified then 1 else 0

  abbrev pub changes : List (Call F) → ℕ
  changes [] = 0
  changes (c ∷ cs) = changed c + changes cs

  unfoldable pub run : List (Call F) → Snapshot → Snapshot
  run [] s = s
  run (c ∷ cs) s = run cs (after c s)

  -- A snapshot that an inspection has set up.
  abbrev IsReady : Snapshot → Type 0
  IsReady s = (s.has_ref ≡ true) × (s.generation_initialized ≡ true)

  reported-IsReady :
      (c : Call F) (s : Snapshot) (m : ℕ)
      → reported c s ≡ some m
      → IsReady (after c s) × ((after c s).generation ≡ m)
  unfolding change_count image_snapshot
  reported-IsReady (counts true a) s m e = ground arith
  reported-IsReady (counts false a) s m e = cc
  reported-IsReady (inspects true a) s m e = ground arith
  reported-IsReady (inspects false a) s m e = cc

  after-generation :
      (c : Call F) (s : Snapshot)
      → IsReady s
      → s.generation + changed c < 2 ^ 64
      → IsReady (after c s) × ((after c s).generation ≡ s.generation + changed c)
  unfolding change_count image_snapshot
  after-generation (counts true a) s h bound = ground arith
  after-generation (counts false a) s h bound = ground arith
  after-generation (inspects true a) s h bound = ground arith
  after-generation (inspects false a) s h bound = ground arith

  run-generation :
      (cs : List (Call F)) (s : Snapshot)
      → IsReady s
      → s.generation + changes cs < 2 ^ 64
      → IsReady (run cs s) × ((run cs s).generation ≡ s.generation + changes cs)
  unfolding run
  run-generation [] s h bound = (h, omega arith)
  run-generation (c ∷ cs) s h bound =
      let (ready, g) = after-generation c s h (omega arith) in
      let (ready', g') = run-generation cs (after c s) ready (omega (arith, g)) in
      (ready', omega (arith, g, g'))

  -- Between two calls that report a generation it has grown by the number of changes that were
  -- seen after the first, the second call's own included; so it is the same exactly if nothing
  -- changed. The 64-bit counter is taken not to wrap.
  pub reported-changes :
      (c d : Call F) (cs : List (Call F)) (s : Snapshot) (m n : ℕ)
      → reported c s ≡ some m
      → reported d (run cs (after c s)) ≡ some n
      → m + (changes cs + changed d) < 2 ^ 64
      → n ≡ m + (changes cs + changed d)
  reported-changes c d cs s m n e k bound =
      let (ready, g) = reported-IsReady c s m e in
      let (ready', g') = run-generation cs (after c s) ready (omega (arith, g)) in
      let (ready'', g'') = reported-IsReady d (run cs (after c s)) n k in
      let (_, g''') = after-generation d (run cs (after c s)) ready' (omega (arith, g, g')) in
      omega (arith, g, g', g'', g''')
