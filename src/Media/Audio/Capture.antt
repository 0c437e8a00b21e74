-- ===== src/Media/Audio/Capture.antt =====
-- The queue between GStreamer's capture thread and the reader: its bounds, and that bytes come out
-- in the order in which they went in.
use haskell_agent.Base.{
  ℕ, suc, ◌+◌, ◌≤◌, ◌<◌, ◌%◌, ◌≡◌, refl, sym, ap, ◌∙◌, Bool, true, Bool-cases, inl, inr, Option,
  none, some, List, [], ◌∷◌, ◌++◌, arith, if◌then◌else◌, length, length-append, append_assoc,
  append-nil,
}
use haskell_agent.Media.Audio.{
  buffer_or_empty, Audio, overflows, enqueue, capture_sample, MessageType, drain, audio_state,
  take_captured, audio_read,
}

-- A buffer of whole 16-bit samples, of half a second at most.
abbrev pub IsChunk : List ℕ → Type 0
IsChunk b = (0 < length b) × (length b % 2 ≡ 0) × (length b ≤ 24000)

abbrev pub AllChunks : List (List ℕ) → Type 0
AllChunks [] = Unit {0}
AllChunks (b ∷ bs) = IsChunk b × AllChunks bs

abbrev pub total : List (List ℕ) → ℕ
total [] = 0
total (b ∷ bs) = length b + total bs

abbrev pub flat : List (List ℕ) → List ℕ
flat [] = []
flat (b ∷ bs) = b ++ flat bs

-- The counter is the size of the queue, which holds half a second and a hundred buffers at most.
pub record IsBounded (a : Audio) : Type 0 where
  pub counted : a.captured_bytes ≡ total a.captured
  pub brief : total a.captured ≤ 24000
  pub few : length a.captured ≤ 100
  pub chunks : AllChunks a.captured

total-append : (xs ys : List (List ℕ)) → total (xs ++ ys) ≡ total xs + total ys
total-append [] ys = omega arith
total-append (x ∷ xs) ys = omega (arith, total-append xs ys)

flat-append : (xs ys : List (List ℕ)) → flat (xs ++ ys) ≡ flat xs ++ flat ys
flat-append [] ys = refl
flat-append (x ∷ xs) ys = ap (◌++◌ x) (flat-append xs ys) ∙ sym (append_assoc x (flat xs) (flat ys))

AllChunks-append :
    (xs : List (List ℕ)) (b : List ℕ) → AllChunks xs → IsChunk b → AllChunks (xs ++ b ∷ [])
AllChunks-append [] b h c = (c, tt)
AllChunks-append (x ∷ xs) b h c = (h.0, AllChunks-append xs b h.1 c)

enqueue-IsBounded : (b : List ℕ) (a : Audio) → IsBounded a → IsBounded (enqueue b a)
unfolding enqueue overflows
enqueue-IsBounded b a h = ground (
  arith,
  total-append a.captured (b ∷ []),
  length-append a.captured (b ∷ []),
  AllChunks-append a.captured b h.chunks,
)

capture_sample-IsBounded :
    (s : Option (Option (List ℕ))) (a : Audio) → IsBounded a → IsBounded (capture_sample s a).1
unfolding capture_sample
capture_sample-IsBounded none a h = h
capture_sample-IsBounded (some none) a h = enqueue-IsBounded [] a h
capture_sample-IsBounded (some (some b)) a h = enqueue-IsBounded b a h

-- Draining the bus touches only the failure flag, which it never clears.
drain_lem :
    (ms : List MessageType) (a : Audio)
    → ((drain ms a).captured ≡ a.captured)
      × ((drain ms a).captured_bytes ≡ a.captured_bytes)
      × ((drain ms a).capture ≡ a.capture)
      × (a.failed ≡ true → (drain ms a).failed ≡ true)
unfolding drain
drain_lem [] a = (refl, refl, refl, λ h. h)
drain_lem (m ∷ ms) a = ground (arith, drain_lem ms a, drain_lem ms (record a { failed = true }))

take_captured-IsBounded :
    (extracted : List ℕ → Bool) (capacity : ℕ) (q : List (List ℕ)) (a : Audio)
    → a.captured ≡ q
    → IsBounded a
    → IsBounded (take_captured extracted capacity q a).2
unfolding take_captured
take_captured-IsBounded extracted capacity [] a e h = h
take_captured-IsBounded extracted capacity (b ∷ q) a e h =
    shorter (h.counted ∙ ap total e) (rw e at h.brief) (rw e at h.few) (rw e at h.chunks)
  where
    shorter :
        a.captured_bytes ≡ length b + total q
        → length b + total q ≤ 24000
        → suc (length q) ≤ 100
        → IsChunk b × AllChunks q
        → IsBounded (take_captured extracted capacity (b ∷ q) a).2
    shorter c s n k = ground arith

drained-IsBounded :
    (ms : List MessageType) (a : Audio) → IsBounded a → IsBounded (audio_state ms a).1
unfolding audio_state
drained-IsBounded ms a h =
    let (q, n, c, f) = drain_lem ms a in
    record {
      counted = n ∙ h.counted ∙ ap total (sym q);
      brief = rw q h.brief;
      few = rw q h.few;
      chunks = rw q h.chunks;
    }

audio_read-IsBounded :
    (extracted : List ℕ → Bool) (ms : List MessageType) (capacity : ℕ) (a : Audio)
    → IsBounded a
    → IsBounded (audio_read extracted ms capacity a).2
unfolding audio_read
audio_read-IsBounded extracted ms capacity a h =
    let drained = drained-IsBounded ms a h in
    ground (
      arith,
      drained,
      take_captured-IsBounded extracted capacity _ (audio_state ms a).1 refl drained,
    )

-- What happens to one capture: GStreamer delivers a sample, or the reader calls with what is then
-- on the bus.
pub data Happening : Type 0 where
  arrives : Option (Option (List ℕ)) → Happening
  reads : List MessageType → Happening

-- Over a history: the bytes that entered the queue, those that the reader got, and the state.
module _ (extracted : List ℕ → Bool) (capacity : ℕ) where
  abbrev pub entering : Happening → Audio → List ℕ
  entering (arrives none) a = []
  entering (arrives (some s)) a =
      if overflows a (length (buffer_or_empty s)) then [] else buffer_or_empty s
  entering (reads ms) a = []

  abbrev pub leaving : Happening → Audio → List ℕ
  leaving (arrives s) a = []
  leaving (reads ms) a = (audio_read extracted ms capacity a).1

  abbrev pub after : Happening → Audio → Audio
  after (arrives s) a = (capture_sample s a).1
  after (reads ms) a = (audio_read extracted ms capacity a).2

  pub entered : List Happening → Audio → List ℕ
  entered [] a = []
  entered (h ∷ hs) a = entering h a ++ entered hs (after h a)

  pub delivered : List Happening → Audio → List ℕ
  delivered [] a = []
  delivered (h ∷ hs) a = leaving h a ++ delivered hs (after h a)

  pub run : List Happening → Audio → Audio
  run [] a = a
  run (h ∷ hs) a = run hs (after h a)

  after-IsBounded : (h : Happening) (a : Audio) → IsBounded a → IsBounded (after h a)
  after-IsBounded (arrives s) a b = capture_sample-IsBounded s a b
  after-IsBounded (reads ms) a b = audio_read-IsBounded extracted ms capacity a b

  -- Over any history of deliveries and reads the counter stays the size of the queue, so that it
  -- never wraps below zero, and the queue within half a second and a hundred buffers of whole
  -- samples.
  pub run-IsBounded : (hs : List Happening) (a : Audio) → IsBounded a → IsBounded (run hs a)
  unfolding run
  run-IsBounded [] a b = b
  run-IsBounded (h ∷ hs) a b = run-IsBounded hs (after h a) (after-IsBounded h a b)

  module _ (roomy : 24000 ≤ capacity) (copies : (b : List ℕ) → extracted b ≡ true) where
    take_captured-flat :
        (q : List (List ℕ)) (a : Audio)
        → a.captured ≡ q
        → AllChunks q
        → let (_, out, a') = take_captured extracted capacity q a in
          flat q ≡ out ++ flat a'.captured
    unfolding take_captured
    take_captured-flat [] a e c = sym (ap flat e)
    take_captured-flat (b ∷ q) a e c = ground (arith, copies b)

    after-flat :
        (h : Happening) (a : Audio)
        → IsBounded a
        → flat a.captured ++ entering h a ≡ leaving h a ++ flat (after h a).captured
    unfolding capture_sample enqueue audio_read audio_state
    after-flat (arrives none) a b = append-nil (flat a.captured)
    after-flat (arrives (some s)) a b =
        elim (Bool-cases (overflows a (length (buffer_or_empty s)))) [
          | inl full ↦ rw full (append-nil (flat a.captured))
          | inr room ↦ rw room (
              sym (
                flat-append a.captured (buffer_or_empty s ∷ [])
                ∙ ap (◌++◌ (flat a.captured)) (append-nil (buffer_or_empty s))))
        ]
    after-flat (reads ms) a b =
        let drained = drain_lem ms a in
        let q : (audio_state ms a).1.captured ≡ a.captured = drained.0 in
        let got =
          take_captured-flat (audio_state ms a).1.captured (audio_state ms a).1 refl
            (drained-IsBounded ms a b).chunks in
        append-nil (flat a.captured) ∙ ground (arith, ap flat q, got)

    -- Over any history in which each read offers room for 24000 bytes and gst_buffer_extract copies
    -- whole buffers, nothing that entered the queue is lost, repeated or reordered: what the reader
    -- got, followed by what is still queued, is what was queued at first, followed by what entered.
    pub run-flat :
        (hs : List Happening) (a : Audio)
        → IsBounded a
        → flat a.captured ++ entered hs a ≡ delivered hs a ++ flat (run hs a).captured
    unfolding entered delivered run
    run-flat [] a b = append-nil (flat a.captured)
    run-flat (h ∷ hs) a b =
        sym (append_assoc (flat a.captured) (entering h a) (entered hs (after h a)))
        ∙ ap (λ l. l ++ entered hs (after h a)) (after-flat h a b)
        ∙ append_assoc (leaving h a) (flat (after h a).captured) (entered hs (after h a))
        ∙ ap (◌++◌ (leaving h a)) (run-flat hs (after h a) (after-IsBounded h a b))
        ∙ sym (append_assoc (leaving h a) (delivered hs (after h a)) _)
