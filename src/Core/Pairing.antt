-- ===== src/Core/Pairing.antt =====
-- `generate_pairing_code` of crates/folk-core/src/lib.rs. The random `u64` is an argument.
use folk_around.Prelude.{ℕ}
use folk_around.Text.{Text}
use folk_around.Text.Number.{hex_fixed}

unfoldable pub generate_pairing_code : (random : ℕ) → Text
generate_pairing_code random = hex_fixed 16 random
