-- ===== src/Bridge/Buffers.antt =====
-- The pointers and lengths by which the two sides of the bridge (HaskellAgentBridge.h of
-- packages/agent-native-bridge/include) pass bytes.
use haskell_agent.Base.{◌==◌, ◌&&◌, ℕ, Bool, true, false, List, [], ◌∷◌, length}

-- A pointer and a length: NULL with any length, or the bytes at a pointer.
pub data Buffer : Type 0 where
  at_null : ℕ → Buffer
  at_bytes : List ℕ → Buffer

abbrev pub contents : Buffer → List ℕ
contents (at_null _) = []
contents (at_bytes bytes) = bytes

abbrev pub size : Buffer → ℕ
size (at_null n) = n
size (at_bytes bytes) = length bytes

abbrev pub is_null : Buffer → Bool
is_null (at_null _) = true
is_null (at_bytes _) = false

abbrev pub is_empty : List ℕ → Bool
is_empty [] = true
is_empty (_ ∷ _) = false

unfoldable pub same_text : List ℕ → List ℕ → Bool
same_text [] [] = true
same_text (a ∷ rest) (b ∷ bs) = (a == b) && same_text rest bs
same_text _ _ = false
