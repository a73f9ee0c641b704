-- ===== src/Transport/Http/Limits.antt =====
-- How much of a request is kept in memory.
use folk_around.Prelude.{
  ℕ, ◌+◌, ◌*◌, ◌≤◌, ◌<◌, false, List, [], ◌∷◌, ◌++◌, Option, none, some, ◌≡◌, ◌≢◌, inl, inr, refl,
  arith, length, length-append, All, ltb, leb, Bool-cases,
}
use folk_around.Text.{Bytes, is_empty}
use folk_around.Transport.Headers.{header_end}
use folk_around.Transport.Http.{
  Response, ReadResult, chunk, failed, complete, rejected, Length, unknown, expected, refused,
  length_at, settle, read_request, max_http_header_bytes,
}

-- The program reads into a buffer of 4096 bytes.
abbrev pub IsShort : ReadResult → Type 0
IsShort (chunk bytes) = length bytes ≤ 4096
IsShort failed = Unit

-- The largest request that is waited for: a header, its marker and a body.
abbrev pub largest : ℕ
largest = 64 * 1024 + 4 + 1024 * 1024

abbrev IsBounded : Bytes → Length → Type 0
IsBounded buffer unknown = length buffer ≤ 65536
IsBounded buffer (expected n) = (length buffer < n) × (n ≤ largest)
IsBounded buffer (refused r) = length buffer ≤ 65536

abbrev IsCapped : Length → Type 0
IsCapped unknown = Unit
IsCapped (expected n) = n ≤ largest
IsCapped (refused r) = Unit

header_end-marker :
    (buffer : Bytes) (offset len : ℕ) → header_end buffer ≡ some (offset, len) → len ≤ 4
unfolding header_end
header_end-marker buffer offset len e = ground arith

length_at-IsCapped :
    (buffer : Bytes) (block : Option (ℕ × ℕ))
    → header_end buffer ≡ block
    → IsCapped (length_at buffer block)
length_at-IsCapped buffer none e = tt
length_at-IsCapped buffer (some (offset, len)) e =
    ground (arith, header_end-marker buffer offset len e)

settle-IsCapped : (buffer : Bytes) (len : Length) → IsCapped len → IsCapped (settle buffer len)
settle-IsCapped buffer unknown h = length_at-IsCapped buffer (header_end buffer) refl
settle-IsCapped buffer (expected n) h = h
settle-IsCapped buffer (refused r) h = h

IsBounded-length : (buffer : Bytes) (len : Length) → IsBounded buffer len → length buffer ≤ largest
IsBounded-length buffer unknown h = omega arith
IsBounded-length buffer (expected n) h = omega arith
IsBounded-length buffer (refused r) h = omega arith

IsBounded-IsCapped : (buffer : Bytes) (len : Length) → IsBounded buffer len → IsCapped len
IsBounded-IsCapped buffer unknown h = tt
IsBounded-IsCapped buffer (expected n) h = h.1
IsBounded-IsCapped buffer (refused r) h = tt

complete-injective : {a b : Bytes} → complete a ≡ complete b → a ≡ b
complete-injective e = cc

rejected-ne-complete : {r : Response} {b : Bytes} → rejected r ≢ complete b
rejected-ne-complete e = cc

-- One round of the loop, once it is known what the length is.
after_chunk :
    (buffer bytes : Bytes) (len s : Length) (reads : List ReadResult) (b : Bytes)
    → is_empty bytes ≡ false
    → settle (buffer ++ bytes) len ≡ s
    → IsCapped s
    → length (buffer ++ bytes) ≤ largest + 4096
    → ((len' : Length)
        → IsBounded (buffer ++ bytes) len'
        → read_request (buffer ++ bytes) len' reads ≡ complete b
        → length b ≤ largest + 4096)
    → read_request buffer len (chunk bytes ∷ reads) ≡ complete b
    → length b ≤ largest + 4096
unfolding read_request
after_chunk buffer bytes len (refused r) reads b some_bytes e c h ih r_eq =
    absurd (rejected-ne-complete (rw (some_bytes, e, read_request) at r_eq))
after_chunk buffer bytes len (expected n) reads b some_bytes e c h ih r_eq =
    elim (Bool-cases (leb n (length (buffer ++ bytes)))) [
      | inl done ↦ rw (← complete-injective (rw (some_bytes, e, done, read_request) at r_eq)) h
      | inr more ↦
          ih (expected n) (ground arith, c) (rw (some_bytes, e, more, read_request) at r_eq)
    ]
after_chunk buffer bytes len unknown reads b some_bytes e c h ih r_eq =
    elim (Bool-cases (ltb max_http_header_bytes (length (buffer ++ bytes)))) [
      | inl long ↦ absurd (rejected-ne-complete (rw (some_bytes, e, long, read_request) at r_eq))
      | inr short ↦ ih unknown (ground arith) (rw (some_bytes, e, short, read_request) at r_eq)
    ]

read_request-le :
    (reads : List ReadResult) (buffer : Bytes) (len : Length) (b : Bytes)
    → IsBounded buffer len
    → All IsShort reads
    → read_request buffer len reads ≡ complete b
    → length b ≤ largest + 4096
unfolding read_request
read_request-le [] buffer len b h s e =
    rw (← complete-injective e) (omega (arith, IsBounded-length buffer len h))
read_request-le (failed ∷ reads) buffer len b h s e = cc
read_request-le (chunk bytes ∷ reads) buffer len b h (short, s) e =
    elim (Bool-cases (is_empty bytes)) [
      | inl stop ↦
          rw (← complete-injective (rw (stop, read_request) at e))
            (omega (arith, IsBounded-length buffer len h))
      | inr more ↦
          after_chunk buffer bytes len _ reads b more refl
            (settle-IsCapped (buffer ++ bytes) len (IsBounded-IsCapped buffer len h))
            (omega (arith, IsBounded-length buffer len h, length-append buffer bytes))
            (λ len' h'. read_request-le reads (buffer ++ bytes) len' b h' s) e
    ]

-- However a client sends its request in reads of at most 4096 bytes, the request that is handled is
-- at most a header of 64 KiB with its marker, a body of 1 MiB and one read long.
pub read_request_bounded :
    (reads : List ReadResult) (b : Bytes)
    → All IsShort reads
    → read_request [] unknown reads ≡ complete b
    → length b ≤ largest + 4096
read_request_bounded reads b = read_request-le reads [] unknown b (omega arith)
