-- ===== src/Bridge/Staging/Invariant.antt =====
-- What is staged is what the header lets a host stage, after any calls.
use mathlib.Core.Path.{subst}
use haskell_agent.Base.{
  ℕ, suc, ◌≡◌, inl, inr, refl, sym, ap, ◌∙◌, Bool, true, not, ◌&&◌, ◌||◌, Option, none, some, List,
  [], ◌∷◌, leb, ◌==◌, if◌then◌else◌, length, arith, Bool-cases, of_some,
}
use haskell_agent.Bridge.Buffers.{Buffer, is_empty, at_null, at_bytes}
use haskell_agent.Bridge.Staging.{
  Text, ImageAttachment, Image, IntegrationAttachment, Integration, PromptContext, TextMap, updated,
  same_text, put_first, traverse,
}
use haskell_agent.Bridge.Staging.Operations.{
  has_nul, peek_image, read_text, integration_of, read_integration,
}

pub same_text_sound : (j k : Text) → same_text j k ≡ true → j ≡ k
unfolding same_text
same_text_sound [] [] e = refl
same_text_sound [] (y ∷ ys) e = cc
same_text_sound (x ∷ xs) [] e = cc
same_text_sound (x ∷ xs) (y ∷ ys) e = grind (arith, same_text_sound xs ys)

-- What holds of all entries holds of them after an update, if it holds of the new one.
pub updated_all :
    {A : Type 0} (P : Text → A → Type 0) (k : Text) (entry : Option A) (m : TextMap A)
    → ((a : A) → entry ≡ some a → P k a)
    → ((j : Text) (a : A) → m j ≡ some a → P j a)
    → (j : Text) (a : A) → updated k entry m j ≡ some a
    → P j a
updated_all P k entry m new old j a e = elim (Bool-cases (same_text j k)) [
  | inl same ↦
      subst (λ i. P i a) (sym (same_text_sound j k same))
        (new a (sym (ap (λ b. if b then entry else m j) same) ∙ e))
  | inr other ↦ old j a (sym (ap (λ b. if b then entry else m j) other) ∙ e)
]

unfoldable pub all : {A : Type 0} → (A → Bool) → List A → Bool
all p [] = true
all p (x ∷ xs) = p x && all p xs

put_first-some :
    {B : Type 0} (b : Option B) (bs : Option (List B)) (ys : List B)
    → put_first b bs ≡ some ys
    → (y : B) × (zs : List B) × (b ≡ some y) × (bs ≡ some zs) × (ys ≡ y ∷ zs)
put_first-some none bs ys e = cc
put_first-some (some y) none ys e = cc
put_first-some (some y) (some zs) ys e = (y, zs, refl, refl, sym (of_some e))

pub traverse-all :
    {A B : Type 0} (f : A → Option B) (p : B → Bool) (xs : List A) (ys : List B)
    → ((x : A) (y : B) → f x ≡ some y → p y ≡ true)
    → traverse f xs ≡ some ys
    → (all p ys ≡ true) × (length ys ≡ length xs)
unfolding traverse all
traverse-all f p [] ys h e =
    subst (λ ys. (all p ys ≡ true) × (length ys ≡ 0)) (of_some e) (refl, refl)
traverse-all f p (x ∷ xs) ys h e =
    let (y, zs, first, rest, both) = put_first-some (f x) (traverse f xs) ys e in
    let (valid, long) = traverse-all f p xs zs h rest in
    subst (λ ys. (all p ys ≡ true) × (length ys ≡ suc (length xs))) (sym both)
      (simp (h x y first, valid), ap suc long)

module _ (is_utf8 : List ℕ → Bool) where
  -- The texts that the header allows: so many bytes at most, valid UTF-8, and no NUL.
  unfoldable pub text_valid : ℕ → Text → Bool
  text_valid limit t = leb (length t) limit && (is_empty t || (is_utf8 t && not (has_nul t)))

  unfoldable pub id_valid : Text → Bool
  id_valid id = not (is_empty id) && leb (length id) 1024 && is_utf8 id

  unfoldable pub image_valid : Image → Bool
  image_valid i = not (is_empty i.mime) && is_utf8 i.mime && not (is_empty i.bytes)

  unfoldable pub integration_valid : Integration → Bool
  integration_valid i =
      (not (is_empty i.connection_id) && text_valid 4096 i.connection_id)
      && (not (is_empty i.server_name) && text_valid 4096 i.server_name)
      && (not (is_empty i.display_name) && text_valid 4096 i.display_name)

  unfoldable pub context_valid : PromptContext → Bool
  context_valid c =
      leb (length c.integrations) 32
      && all integration_valid c.integrations
      && text_valid 4096 c.application_name
      && text_valid 4096 c.window_title
      && (if c.window_token == 0
          then is_empty c.application_name && is_empty c.window_title
          else not (is_empty c.application_name))

  pub read_text-text_valid :
      (limit : ℕ) (b : Buffer) (t : Text)
      → read_text is_utf8 limit b ≡ some t
      → text_valid limit t ≡ true
  unfolding read_text text_valid
  read_text-text_valid limit (at_null n) t e = grind arith
  read_text-text_valid limit (at_bytes []) t e = grind arith
  read_text-text_valid limit (at_bytes (b ∷ bytes)) t e = grind arith

  pub peek_image-image_valid :
      (a : ImageAttachment) (i : Image) → peek_image is_utf8 a ≡ some i → image_valid i ≡ true
  unfolding peek_image image_valid
  peek_image-image_valid a i e = grind arith

  integration_of-valid :
      (c s d : Option Text) (i : Integration)
      → ((t : Text) → c ≡ some t → text_valid 4096 t ≡ true)
      → ((t : Text) → s ≡ some t → text_valid 4096 t ≡ true)
      → ((t : Text) → d ≡ some t → text_valid 4096 t ≡ true)
      → integration_of c s d ≡ some i
      → integration_valid i ≡ true
  unfolding integration_valid
  integration_of-valid none s d i hc hs hd e = cc
  integration_of-valid (some c) none d i hc hs hd e = cc
  integration_of-valid (some c) (some s) none i hc hs hd e = cc
  integration_of-valid (some c) (some s) (some d) i hc hs hd e =
      ground (arith, e, hc c refl, hs s refl, hd d refl)

  pub read_integration-valid :
      (a : IntegrationAttachment) (i : Integration)
      → read_integration is_utf8 a ≡ some i
      → integration_valid i ≡ true
  unfolding read_integration
  read_integration-valid a i e =
      integration_of-valid _ _ _ i (read_text-text_valid 4096 a.connection_id)
        (read_text-text_valid 4096 a.server_name) (read_text-text_valid 4096 a.display_name) e
