-- ===== src/Defaults/Levels.antt =====
-- The levels of `Compression` as the compressor gets them.
use protocraft_framework.Prelude.{ℕ, ◌≤◌, ◌≡◌, arith}
use protocraft_framework.Defaults.{variable, compression_level}

-- Every `Variable` level from 0 to 8 is the compressor's level 10.
pub compression_level-variable : (x : ℕ) → x ≤ 8 → compression_level (variable x) ≡ 10
unfolding compression_level
compression_level-variable x h = omega arith
