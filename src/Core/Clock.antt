-- ===== src/Core/Clock.antt =====
-- `terminal_time` of crates/folk-core/src/lib.rs, from the seconds since the epoch.
use folk_around.Prelude.{
  ℕ, ◌+◌, ◌*◌, ◌/◌, ◌%◌, ◌<◌, ◌≡◌, [], ◌∷◌, ◌++◌, Option, none, some, ltb, if◌then◌else◌, arith,
}
use folk_around.Text.{Text}
use folk_around.Text.Number.{decimal}

-- `{:02}`
unfoldable pub two_digits : ℕ → Text
unfolding decimal
two_digits n = (if ltb n 10 then b'0' ∷ [] else []) ++ decimal n

-- The parts of the day; a clock before the epoch reads as 0.
unfoldable pub day_parts : Option ℕ → ℕ × ℕ × ℕ
day_parts now =
    let seconds : ℕ = elim now [ none ↦ 0 | some s ↦ s % 86400 ] in
    (seconds / 3600, seconds % 3600 / 60, seconds % 60)

unfoldable pub terminal_time : Option ℕ → Text
unfolding day_parts two_digits
terminal_time now =
    let (hour, minute, second) = day_parts now in
    two_digits hour ++ (b':' ∷ (two_digits minute ++ (b':' ∷ two_digits second)))

-- The parts are a time of day, and they determine the second of the day.
pub day_parts_bounds :
    (s : ℕ)
    → ((day_parts (some s)).0 < 24)
      × ((day_parts (some s)).1 < 60)
      × ((day_parts (some s)).2 < 60)
      × ((day_parts (some s)).0 * 3600 + (day_parts (some s)).1 * 60 + (day_parts (some s)).2
          ≡ s % 86400)
unfolding day_parts
day_parts_bounds s = omega arith
