-- ===== src/Utils/Security.antt =====
-- security.ts: `constantTimeCompare` and `maskSensitive` of `SecurityUtils`. A string is the list of
-- its UTF-16 code units, which are below 2 ^ 16, so that `^` and `|` on 32 bits lose nothing.
pub mod Bits
pub mod Comparison
use nexapay_fintech_super_ap.Common.{
  ℕ, ◌-◌, Bool, true, false, not, List, [], ◌∷◌, ◌++◌, ◌==◌, leb, length, drop, replicate,
  if◌then◌else◌,
}
use Prim.Native.Nat.{bit_or, bit_xor}

-- The loop from index i on. Past the end of `b`, `charCodeAt` is NaN, which `^` takes for 0.
unfoldable pub differences : List ℕ → List ℕ → ℕ → ℕ
differences [] b result = result
differences (x ∷ a) [] result = let rest = differences a [] (bit_or result (bit_xor x 0)) in rest
differences (x ∷ a) (y ∷ b) result = differences a b (bit_or result (bit_xor x y))

unfoldable pub constant_time_compare : List ℕ → List ℕ → Bool
constant_time_compare a b = if not (length a == length b) then false else differences a b 0 == 0

-- `value.slice(-n)`: the last n characters, and all of them for n = 0, since -0 is 0.
abbrev pub slice_last : ℕ → List ℕ → List ℕ
slice_last n value = if n == 0 then value else drop (length value - n) value

-- '*'
abbrev pub star : ℕ
star = 42

unfoldable pub mask_sensitive : List ℕ → ℕ → List ℕ
mask_sensitive value visible_count =
    if leb (length value) visible_count
    then value
    else replicate (length value - visible_count) star ++ slice_last visible_count value
