-- ===== src/Base/Words.antt =====
-- Machine words of the native code: uint32_t, the int32_t that it is read as, and their bytes in
-- memory, lowest first, as on x86-64 and AArch64.
use haskell_agent.Base.{
  ℕ, ◌+◌, ◌-◌, ◌*◌, ◌/◌, ◌%◌, ◌^◌, ◌<◌, ◌≡◌, List, [], ◌∷◌, arith, ltb, if◌then◌else◌,
}
use haskell_agent.Base.Int.{ℤ, pos, negsuc}

abbrev pub IsU32 : ℕ → Type 0
IsU32 n = n < 2 ^ 32

-- The range of an int32_t.
abbrev pub IsI32 : ℤ → Type 0
IsI32 (pos n) = n < 2 ^ 31
IsI32 (negsuc n) = n < 2 ^ 31

-- `(uint32_t)(int32_t)x`
unfoldable pub to_u32 : ℤ → ℕ
to_u32 (pos n) = n % 2 ^ 32
to_u32 (negsuc n) = (2 ^ 32 - 1) - n % 2 ^ 32

-- `(int32_t)u`
unfoldable pub to_i32 : ℕ → ℤ
to_i32 u =
    if ltb (u % 2 ^ 32) (2 ^ 31) then pos (u % 2 ^ 32) else negsuc ((2 ^ 32 - 1) - u % 2 ^ 32)

pub to_u32-IsU32 : (x : ℤ) → IsU32 (to_u32 x)
unfolding to_u32
to_u32-IsU32 (pos n) = omega arith
to_u32-IsU32 (negsuc n) = omega arith

pub to_u32-pos : (n : ℕ) → n < 2 ^ 31 → to_u32 (pos n) ≡ n
unfolding to_u32
to_u32-pos n h = omega arith

pub to_i32-to_u32 : (x : ℤ) → IsI32 x → to_i32 (to_u32 x) ≡ x
unfolding to_u32 to_i32
to_i32-to_u32 (pos n) h = ground arith
to_i32-to_u32 (negsuc n) h = ground arith

pub to_i32-small : (n : ℕ) → n < 2 ^ 31 → to_i32 n ≡ pos n
unfolding to_i32
to_i32-small n h = ground arith

-- The bytes of a uint32_t in memory.
unfoldable pub bytes_u32 : ℕ → List ℕ
bytes_u32 n = n % 256 ∷ n / 2 ^ 8 % 256 ∷ n / 2 ^ 16 % 256 ∷ n / 2 ^ 24 % 256 ∷ []

unfoldable pub read_u32 : ℕ → ℕ → ℕ → ℕ → ℕ
read_u32 a b c d = a + 2 ^ 8 * b + 2 ^ 16 * c + 2 ^ 24 * d

pub read_u32-bytes :
    (n : ℕ)
    → IsU32 n
    → read_u32 (n % 256) (n / 2 ^ 8 % 256) (n / 2 ^ 16 % 256) (n / 2 ^ 24 % 256) ≡ n
unfolding read_u32
read_u32-bytes n h = omega arith
