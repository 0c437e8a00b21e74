-- ===== src/Keychain/Release.antt =====
-- agent_mcp_keychain_release: the record is wiped before its memory is freed.
use haskell_agent.Base.{
  ℕ, zero, suc, ◌≡◌, ◌≤◌, drop, append-nil, refl, ap, sym, ◌∙◌, Option, none, some, List, [], ◌∷◌,
  ◌++◌, length, set, replicate, arith, append_assoc, length-append,
}
use mathlib.Core.Path.{ap₂}

-- The loop, from an index on, with the number of rounds that are left.
unfoldable pub wipe : ℕ → ℕ → List ℕ → List ℕ
wipe index zero buffer = buffer
wipe index (suc left) buffer = wipe (suc index) left (set buffer index 0)

-- agent_mcp_keychain_release: what is freed, and what it holds at that moment; nothing for NULL.
unfoldable pub keychain_release : Option (List ℕ) → ℕ → Option (List ℕ)
unfolding wipe
keychain_release none n = none
keychain_release (some buffer) n = some (wipe 0 n buffer)

drop-length : (xs : List ℕ) → drop (length xs) xs ≡ []
drop-length [] = refl
drop-length (x ∷ xs) = drop-length xs

set-append : (xs ys : List ℕ) (y v : ℕ) → set (xs ++ y ∷ ys) (length xs) v ≡ xs ++ v ∷ ys
set-append [] ys y v = refl
set-append (x ∷ xs) ys y v = ap (◌∷◌ x) (set-append xs ys y v)

wipe-append :
    (done : List ℕ) (n : ℕ) (left : List ℕ)
    → n ≤ length left
    → wipe (length done) n (done ++ left) ≡ done ++ (replicate n 0 ++ drop n left)
unfolding wipe
wipe-append done zero left h = refl
wipe-append done (suc n) [] h = absurd (omega arith)
wipe-append done (suc n) (x ∷ left) h =
    let next : length (done ++ 0 ∷ []) ≡ suc (length done) =
      omega (arith, length-append done (0 ∷ [])) in
    ap (wipe (suc (length done)) n) (set-append done left x 0)
    ∙ sym (ap₂ (λ i b. wipe i n b) next (append_assoc done (0 ∷ []) left))
    ∙ wipe-append (done ++ 0 ∷ []) n left (omega arith)
    ∙ append_assoc done (0 ∷ []) (replicate n 0 ++ drop n left)

-- For a length that is at most the size of the memory, the bytes up to that length are zero when the
-- memory is freed, so that all of them are for the length of the record, and the bytes behind it are
-- untouched.
pub keychain_release-wiped :
    (buffer : List ℕ) (n : ℕ)
    → n ≤ length buffer
    → (keychain_release (some buffer) n ≡ some (replicate n 0 ++ drop n buffer))
      × (n ≡ length buffer → keychain_release (some buffer) n ≡ some (replicate n 0))
unfolding keychain_release
keychain_release-wiped buffer n h =
    let wiped = wipe-append [] n buffer h in
    (
      ap some wiped,
      λ e. ap some (
          wiped
          ∙ ap (λ l. replicate n 0 ++ l) (ap (λ k. drop k buffer) e ∙ drop-length buffer)
          ∙ append-nil (replicate n 0)),
    )
