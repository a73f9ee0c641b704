-- ===== src/Transport/Slots.antt =====
-- `acquire_sse_slot`, `release_sse_slot` and `send_sse` of crates/folk-transport/src/lib.rs: the
-- atomic counter of event streams, and connections that interleave between its operations.
pub mod Drains
use folk_around.Prelude.{
  ℕ, zero, suc, ◌+◌, ◌-◌, ◌%◌, ◌^◌, ◌≤◌, ◌<◌, Bool, true, false, List, [], ◌∷◌, ◌≡◌, refl, arith,
  leb, ltb, if◌then◌else◌, length, replicate,
}

abbrev pub max_sse_clients : ℕ
max_sse_clients = 32

abbrev pub u32_bound : ℕ
u32_bound = 2 ^ 32

-- `AtomicU32::fetch_add(1)` and `fetch_sub(1)`; each returns the value before.
unfoldable pub fetch_add : ℕ → ℕ
fetch_add count = (count + 1) % u32_bound

unfoldable pub fetch_sub : ℕ → ℕ
fetch_sub count = (count + u32_bound - 1) % u32_bound

-- A connection at `send_sse`: not yet there; past the `fetch_add` of a full counter, with its
-- `fetch_sub` to come; streaming; finished.
pub data Phase : Type 0 where
  waiting overshot streaming finished : Phase

-- One atomic step of a connection: the counter after it, and where the connection stands.
unfoldable pub advance : ℕ → Phase → ℕ × Phase
advance count waiting = (fetch_add count, if leb max_sse_clients count then overshot else streaming)
advance count overshot = (fetch_sub count, finished)
advance count streaming = (fetch_sub count, finished)
advance count finished = (count, finished)

-- `acquire_sse_slot` with no other connection in between
unfoldable pub acquire_sse_slot : ℕ → ℕ × Bool
acquire_sse_slot prev =
    if leb max_sse_clients prev then (fetch_sub (fetch_add prev), false) else (fetch_add prev, true)

unfoldable pub release_sse_slot : ℕ → ℕ
release_sse_slot count = fetch_sub count

pub record Server : Type 0 where
  pub count : ℕ
  pub clients : List Phase

advance_at : ℕ → List Phase → ℕ → ℕ × List Phase
advance_at count [] i = (count, [])
advance_at count (p ∷ ps) zero = let (count', p') = advance count p in (count', p' ∷ ps)
advance_at count (p ∷ ps) (suc i) = let (count', ps') = advance_at count ps i in (count', p ∷ ps')

-- The scheduler lets connection `i` take its next step.
pub step : Server → ℕ → Server
step s i =
    let (count, clients) = advance_at s.count s.clients i in
    record { count = count; clients = clients }

pub run : Server → List ℕ → Server
run s [] = s
run s (i ∷ schedule) = run (step s i) schedule

abbrev pub start : ℕ → Server
start n = record { count = 0; clients = replicate n waiting }

abbrev is_streaming : Phase → ℕ
is_streaming streaming = 1
is_streaming _ = 0

-- those that the counter counts
abbrev is_counted : Phase → ℕ
is_counted streaming = 1
is_counted overshot = 1
is_counted _ = 0

abbrev pub streams : List Phase → ℕ
streams [] = 0
streams (p ∷ ps) = is_streaming p + streams ps

abbrev pub counted : List Phase → ℕ
counted [] = 0
counted (p ∷ ps) = is_counted p + counted ps

record IsConsistent (s : Server) : Type 0 where
  count_eq : s.count ≡ counted s.clients
  few : length s.clients < 4294967296
  limited : streams s.clients ≤ 32

is_counted-le-one : (p : Phase) → is_counted p ≤ 1
is_counted-le-one p = ground arith

is_streaming-le : (p : Phase) → is_streaming p ≤ is_counted p
is_streaming-le p = ground arith

streams-le-counted : (ps : List Phase) → streams ps ≤ counted ps
streams-le-counted [] = omega arith
streams-le-counted (p ∷ ps) = ground (arith, streams-le-counted ps)

counted-le-length : (ps : List Phase) → counted ps ≤ length ps
counted-le-length [] = omega arith
counted-le-length (p ∷ ps) = ground (arith, counted-le-length ps)

advance_lem :
    (c s count : ℕ) (p : Phase) (ps : List Phase)
    → count ≡ c + counted (p ∷ ps)
    → c + length (p ∷ ps) < 4294967296
    → s ≤ c
    → s + streams (p ∷ ps) ≤ 32
    → ((advance count p).0 ≡ c + counted ((advance count p).1 ∷ ps))
      × (s + streams ((advance count p).1 ∷ ps) ≤ 32)
unfolding advance fetch_add fetch_sub
advance_lem c s count waiting ps e few le h =
    ground (arith, streams-le-counted ps, counted-le-length ps)
advance_lem c s count overshot ps e few le h =
    ground (arith, streams-le-counted ps, counted-le-length ps)
advance_lem c s count streaming ps e few le h =
    ground (arith, streams-le-counted ps, counted-le-length ps)
advance_lem c s count finished ps e few le h = (e, h)

-- The others hold `c` of the counter's units and `s` of the streams.
advance_at_lem :
    (c s count : ℕ) (ps : List Phase) (i : ℕ)
    → count ≡ c + counted ps
    → c + length ps < 4294967296
    → s ≤ c
    → s + streams ps ≤ 32
    → ((advance_at count ps i).0 ≡ c + counted (advance_at count ps i).1)
      × (length (advance_at count ps i).1 ≡ length ps)
      × (s + streams (advance_at count ps i).1 ≤ 32)
unfolding advance_at
advance_at_lem c s count [] i e few le h = (e, refl, h)
advance_at_lem c s count (p ∷ ps) zero e few le h =
    let (counts, limit) = advance_lem c s count p ps e few le h in (counts, refl, limit)
advance_at_lem c s count (p ∷ ps) (suc i) e few le h =
    let ih =
      advance_at_lem (c + is_counted p) (s + is_streaming p) count ps i (omega arith)
        (omega (arith, is_counted-le-one p)) (omega (arith, is_streaming-le p)) (omega arith) in
    omega arith

step-IsConsistent : (s : Server) (i : ℕ) → IsConsistent s → IsConsistent (step s i)
unfolding step
step-IsConsistent s i v =
    let (counts, same, limit) =
      advance_at_lem 0 0 s.count s.clients i (omega arith) (omega arith) (omega arith)
        (omega arith) in
    record { count_eq = omega arith; few = omega arith; limited = omega arith }

run-IsConsistent : (schedule : List ℕ) (s : Server) → IsConsistent s → IsConsistent (run s schedule)
unfolding run
run-IsConsistent [] s v = v
run-IsConsistent (i ∷ schedule) s v = run-IsConsistent schedule (step s i) (step-IsConsistent s i v)

start-idle :
    (n : ℕ)
    → (counted (replicate n waiting) ≡ 0)
      × (streams (replicate n waiting) ≡ 0)
      × (length (replicate n waiting) ≡ n)
start-idle zero = (refl, refl, refl)
start-idle (suc n) = omega (arith, start-idle n)

-- However fewer than 2^32 connections interleave, at most 32 of them stream at a time, and the
-- counter is the number of those that stream or have yet to take back an attempt.
pub slots_limited :
    (n : ℕ) (schedule : List ℕ)
    → n < 2 ^ 32
    → (streams (run (start n) schedule).clients ≤ 32)
      × ((run (start n) schedule).count ≡ counted (run (start n) schedule).clients)
slots_limited n schedule few =
    let v = run-IsConsistent schedule (start n) (record {
      count_eq = omega (arith, start-idle n);
      few = omega (arith, start-idle n);
      limited = omega (arith, start-idle n);
    }) in
    (v.limited, v.count_eq)

-- With nobody in between, a slot is given exactly below the limit; a release takes back what a
-- success has added, and a refusal leaves the counter as it was.
pub acquire_sse_slot_lem :
    (count : ℕ)
    → count < 2 ^ 32 - 1
    → ((acquire_sse_slot count).1 ≡ ltb count 32)
      × ((if ltb count 32
            then release_sse_slot (acquire_sse_slot count).0
            else (acquire_sse_slot count).0)
          ≡ count)
unfolding acquire_sse_slot release_sse_slot fetch_add fetch_sub
acquire_sse_slot_lem count h = (ground arith, ground arith)
