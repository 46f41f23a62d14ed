-- ===== src/Placement/Arithmetic.antt =====
-- Products and quotients by a variable, as the placement of src/scene.rs needs them.
use vivid_sdk.Prelude.{◌+◌, ◌*◌, ◌/◌, ◌≤◌, ◌<◌, ℕ, arith}

pub div-mul-le : (a c : ℕ) → a / c * c ≤ a
div-mul-le a c = grind arith

pub lt-div-mul : (a c : ℕ) → 0 < c → a < (a / c + 1) * c
lt-div-mul a c h = grind arith

pub le_of_mul-le : (a b c : ℕ) → 0 < c → a * c ≤ b * c → a ≤ b
le_of_mul-le a b c h le = grind arith

-- Two quotients stay within `n` when what is divided fits into `n` cells.
pub div-add-le : (a b c n : ℕ) → 0 < c → a + b ≤ n * c → a / c + b / c ≤ n
div-add-le a b c n h le =
    le_of_mul-le (a / c + b / c) n c h (grind (arith, div-mul-le a c, div-mul-le b c))

pub mul-le-mul : (a b c d : ℕ) → a ≤ c → b ≤ d → a * b ≤ c * d
mul-le-mul a b c d h k = grind arith
