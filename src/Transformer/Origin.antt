-- ===== src/Transformer/Origin.antt =====
-- `get_unique_origin` of internal/transformer/transform.py. The clock's reading is an argument, and
-- the module's `_previous_origin` is the state. It runs under `_origin_mutex`: one step.
use device_sdk_python.Base.{◌<◌, ◌+◌, List, [], ◌∷◌, arith, if◌then◌else◌}
use device_sdk_python.Base.Int.{ℤ, pos, pos_part, neg_part, ◌+ℤ◌, leb_ℤ}

-- The origin is the new previous origin too.
unfoldable pub get_unique_origin : ℤ → ℤ → ℤ
unfolding ◌+ℤ◌
get_unique_origin previous now = if leb_ℤ now previous then previous +ℤ pos 1 else now

-- The origins of the calls made at the clock readings of a list.
unfoldable pub origins : ℤ → List ℤ → List ℤ
unfolding get_unique_origin
origins previous [] = []
origins previous (now ∷ rest) =
    let origin = get_unique_origin previous now in origin ∷ origins origin rest

-- a < b
abbrev pub Below : ℤ → ℤ → Type 0
Below a b = pos_part a + neg_part b < pos_part b + neg_part a

-- Each element is above `low`, and so is every element above those before it.
abbrev pub IsIncreasing : ℤ → List ℤ → Type 0
IsIncreasing low [] = Unit
IsIncreasing low (x ∷ xs) = Below low x × IsIncreasing x xs

-- Whatever the clock reads, also if it stands still or goes back, each origin is greater than all
-- origins before it.
pub origins-IsIncreasing :
    (previous : ℤ) (clock : List ℤ) → IsIncreasing previous (origins previous clock)
unfolding origins
origins-IsIncreasing previous [] = tt
origins-IsIncreasing previous (now ∷ rest) =
    (ground arith, origins-IsIncreasing (get_unique_origin previous now) rest)
