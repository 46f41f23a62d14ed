-- ===== src/Prelude/Texts.antt =====
-- Rust's `==` on texts.
use Prim.Native.String.{String}
use mathlib.Core.Path.{◌≡◌}
use mathlib.Core.Bool.{Bool, true}
use text.Mathlib.Text.{◌==◌}
use text.Mathlib.TextEquality.{eq_iff}

unfoldable pub same_text : String → String → Bool
same_text a b = a == b

pub same_text-eq : (a b : String) → same_text a b ≡ true → a ≡ b
unfolding same_text
same_text-eq a b = (eq_iff a b).0
