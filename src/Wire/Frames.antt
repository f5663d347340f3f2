-- ===== src/Wire/Frames.antt =====
-- `wire::send_frame` and `wire::Framer` of server/ServerAdmin/AdminWire.h.
pub mod Stream
mod Tests
use scholar_vpn.Prelude.{
  ℕ, zero, suc, ◌+◌, ◌*◌, ◌/◌, ◌%◌, ◌^◌, Bool, true, false, List, [], ◌∷◌, ◌++◌, Option, none, some,
  ltb, if◌then◌else◌, length, take, drop,
}

abbrev pub k_max_frame : ℕ
k_max_frame = 64 * 1024

-- `uint8_t(n >> 24)` and so on.
abbrev pub header : ℕ → List ℕ
header n = (n / 2 ^ 24 % 256) ∷ (n / 2 ^ 16 % 256) ∷ (n / 2 ^ 8 % 256) ∷ (n % 256) ∷ []

-- The bytes that `send_frame` writes, where the connection takes them all; `none` if it refuses.
unfoldable pub send_frame : List ℕ → Option (List ℕ)
send_frame payload =
    if ltb k_max_frame (length payload) then none else some (header (length payload) ++ payload)

abbrev append_both : Option (List ℕ) → Option (List ℕ) → Option (List ℕ)
append_both none b = none
append_both (some a) none = none
append_both (some a) (some b) = some (a ++ b)

-- The bytes on the connection after one call of `send_frame` for each payload.
unfoldable pub send_all : List (List ℕ) → Option (List ℕ)
send_all [] = some []
send_all (p ∷ ps) = append_both (send_frame p) (send_all ps)

pub record Framer : Type 0 where
  pub buf : List ℕ
  pub bad : Bool

unfoldable pub feed : Framer → List ℕ → Framer
feed f bytes = record f { buf = f.buf ++ bytes }

-- Byte `i`; the code reads only below the size.
abbrev pub byte : List ℕ → ℕ → ℕ
byte [] i = 0
byte (x ∷ xs) zero = x
byte (x ∷ xs) (suc i) = byte xs i

-- The shifted bytes do not overlap, so that `|` adds them.
abbrev pub frame_len : List ℕ → ℕ
frame_len b = byte b 0 * 2 ^ 24 + byte b 1 * 2 ^ 16 + byte b 2 * 2 ^ 8 + byte b 3

-- The frame, where one is whole, and the framer after the call.
unfoldable pub next : Framer → Option (List ℕ) × Framer
next f =
    if ltb (length f.buf) 4
    then (none, f)
    else if ltb k_max_frame (frame_len f.buf)
    then (none, record f { bad = true })
    else if ltb (length f.buf) (4 + frame_len f.buf)
    then (none, f)
    else (
      some (take (frame_len f.buf) (drop 4 f.buf)),
      record f { buf = drop (4 + frame_len f.buf) f.buf },
    )

-- `next` until it has no frame, with fuel: the frames, and the framer left.
unfoldable pub drain : ℕ → Framer → List (List ℕ) × Framer
drain zero f = ([], f)
drain (suc fuel) f =
    let (r, f') = next f in
    elim r [ none ↦ ([], f') | some p ↦ let (ps, f'') = drain fuel f' in (p ∷ ps, f'') ]

-- What calls of `recv_frame` return while the chunks arrive, one `recv` after the other.
unfoldable pub receive : Framer → List (List ℕ) → List (List ℕ) × Framer
receive f [] = ([], f)
receive f (chunk ∷ chunks) =
    let (ps, f') = drain (suc (length (feed f chunk).buf)) (feed f chunk) in
    let (qs, f'') = receive f' chunks in (ps ++ qs, f'')
