-- ===== src/Bridge/Browser/Pending/Entries.antt =====
-- Lookup and deletion in the map behind the registry of waiting requests.
use native.Mathlib.Decide.{ℕ_discrete as dec_eq}
use haskell_agent.Base.{
  ℕ, ◌≡◌, ◌≢◌, ◌⊎◌, inl, inr, refl, sym, ap, ◌∙◌, none, some, List, [], ◌∷◌, arith, of_some,
  none≢some,
}
use haskell_agent.Bridge.Browser.Pending.{lookup, delete}

pub lookup-delete {ℓ} : {A : Type ℓ} (k : ℕ) (m : List (ℕ × A)) → lookup k (delete k m) ≡ none
unfolding lookup delete
lookup-delete k [] = refl
lookup-delete k ((j, a) ∷ m) = ground (arith, lookup-delete k m)

pub lookup-delete_other {ℓ} :
    {A : Type ℓ} (i k : ℕ) (m : List (ℕ × A)) → i ≢ k → lookup i (delete k m) ≡ lookup i m
unfolding lookup delete
lookup-delete_other i k [] h = refl
lookup-delete_other i k ((j, a) ∷ m) h = ground (arith, lookup-delete_other i k m h)

pub delete-delete {ℓ} : {A : Type ℓ} (k : ℕ) (m : List (ℕ × A)) → delete k (delete k m) ≡ delete k m
unfolding delete
delete-delete k [] = refl
delete-delete k ((j, a) ∷ m) = ground (arith, delete-delete k m)

pub lookup_head {ℓ} :
    {A : Type ℓ} (k : ℕ) (a : A) (m : List (ℕ × A)) → lookup k ((k, a) ∷ m) ≡ some a
unfolding lookup
lookup_head k a m = ground arith

pub lookup_tail {ℓ} :
    {A : Type ℓ} (i k : ℕ) (a : A) (m : List (ℕ × A)) → i ≢ k → lookup i ((k, a) ∷ m) ≡ lookup i m
unfolding lookup
lookup_tail i k a m h = ground arith

pub lookup_cons {ℓ} :
    {A : Type ℓ} (i k : ℕ) (a b : A) (m : List (ℕ × A))
    → lookup i ((k, a) ∷ m) ≡ some b
    → ((i ≡ k) × (a ≡ b)) ⊎ ((i ≢ k) × (lookup i m ≡ some b))
lookup_cons i k a b m e = elim (dec_eq i k) [
  | yes same ↦
      inl (same, of_some (sym (lookup_head k a m) ∙ sym (ap (λ j. lookup j ((k, a) ∷ m)) same) ∙ e))
  | no other ↦ inr (other, sym (lookup_tail i k a m other) ∙ e)
]

pub lookup-delete_sub {ℓ} :
    {A : Type ℓ} (i k : ℕ) (a : A) (m : List (ℕ × A))
    → lookup i (delete k m) ≡ some a
    → (i ≢ k) × (lookup i m ≡ some a)
lookup-delete_sub i k a m e = elim (dec_eq i k) [
  | yes same ↦
      elim (none≢some
        (sym (lookup-delete k m) ∙ sym (ap (λ j. lookup j (delete k m)) same) ∙ e)) [ ]
  | no other ↦ (other, sym (lookup-delete_other i k m other) ∙ e)
]
