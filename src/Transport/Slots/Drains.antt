-- ===== src/Transport/Slots/Drains.antt =====
-- The slots of `send_sse` in crates/folk-transport/src/lib.rs are given back.
use folk_around.Prelude.{
  ℕ, zero, suc, ◌+◌, ◌-◌, ◌^◌, ◌≤◌, ◌<◌, true, List, [], ◌∷◌, ◌≡◌, refl, arith, ltb, if◌then◌else◌,
  ◌==◌, replicate,
}
use folk_around.Transport.Slots.{
  Phase, waiting, overshot, streaming, finished, advance, advance_at, acquire_sse_slot, Server,
  step, run, start, counted, slots_limited,
}

-- The steps that a connection has still to take.
abbrev steps_left : Phase → ℕ
steps_left waiting = 2
steps_left overshot = 1
steps_left streaming = 1
steps_left finished = 0

abbrev left_at : List Phase → ℕ → ℕ
left_at [] i = 0
left_at (p ∷ ps) zero = steps_left p
left_at (p ∷ ps) (suc i) = left_at ps i

-- How often the scheduler picks a connection.
abbrev pub turns : ℕ → List ℕ → ℕ
turns i [] = 0
turns i (j ∷ schedule) = (if i == j then 1 else 0) + turns i schedule

advance-steps_left : (count : ℕ) (p : Phase) → steps_left (advance count p).1 ≡ steps_left p - 1
unfolding advance
advance-steps_left count waiting = ground arith
advance-steps_left count overshot = refl
advance-steps_left count streaming = refl
advance-steps_left count finished = refl

advance_at-left_at :
    (count : ℕ) (ps : List Phase) (j i : ℕ)
    → left_at (advance_at count ps j).1 i ≡ left_at ps i - (if i == j then 1 else 0)
unfolding advance_at
advance_at-left_at count [] j i = ground arith
advance_at-left_at count (p ∷ ps) zero zero = advance-steps_left count p
advance_at-left_at count (p ∷ ps) zero (suc i) = ground arith
advance_at-left_at count (p ∷ ps) (suc j) zero = ground arith
advance_at-left_at count (p ∷ ps) (suc j) (suc i) = ground (arith, advance_at-left_at count ps j i)

run-left_at :
    (schedule : List ℕ) (s : Server) (i : ℕ)
    → left_at (run s schedule).clients i ≤ left_at s.clients i - turns i schedule
unfolding run step
run-left_at [] s i = omega arith
run-left_at (j ∷ schedule) s i =
    ground (arith, run-left_at schedule (step s j) i, advance_at-left_at s.count s.clients j i)

counted-zero : (ps : List Phase) → ((i : ℕ) → left_at ps i ≡ 0) → counted ps ≡ 0
counted-zero [] h = refl
counted-zero (p ∷ ps) h = ground (arith, h 0, counted-zero ps (λ i. h (suc i)))

left_at-start : (n i : ℕ) → left_at (replicate n waiting) i ≡ (if ltb i n then 2 else 0)
left_at-start zero i = ground arith
left_at-start (suc n) zero = ground arith
left_at-start (suc n) (suc i) = ground (arith, left_at-start n i)

-- Once each of fewer than 2^32 connections has had two turns, in whatever order, the counter is back
-- at zero, and the next connection gets a slot.
pub slots_drain :
    (n : ℕ) (schedule : List ℕ)
    → n < 2 ^ 32
    → ((i : ℕ) → i < n → 2 ≤ turns i schedule)
    → ((run (start n) schedule).count ≡ 0)
      × ((acquire_sse_slot (run (start n) schedule).count).1 ≡ true)
unfolding acquire_sse_slot
slots_drain n schedule few fair =
    let none_left = counted-zero (run (start n) schedule).clients (λ i. idle_at i) in
    let empty = (slots_limited n schedule few).1 in (omega arith, ground arith)
  where
    idle_at : (i : ℕ) → left_at (run (start n) schedule).clients i ≡ 0
    idle_at i = ground (arith, run-left_at schedule (start n) i, left_at-start n i, fair i)
