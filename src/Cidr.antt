-- ===== src/Cidr.antt =====
-- src/platform/cidr.h: IPv4 networks, and in Cidr/IpList the lists of src/platform/iplist.cpp.
pub mod Range
pub mod IpList
pub mod Counts
mod Tests
use Prim.Native.Nat.{bit_and}
use scholar_vpn.Prelude.{
  ℕ, ◌+◌, ◌-◌, ◌*◌, ◌%◌, ◌^◌, Bool, true, false, ◌&&◌, ◌||◌, List, [], ◌∷◌, Option, none, some, ltb,
  leb, ◌==◌, if◌then◌else◌,
}
use scholar_vpn.Update.Text.{trim}

pub record Net : Type 0 where
  pub addr : ℕ
  pub prefix : ℕ

-- Bits shifted out of the 32 are lost.
unfoldable pub mask_of : ℕ → ℕ
mask_of prefix = if prefix == 0 then 0 else (2 ^ 32 - 1) * 2 ^ (32 - prefix) % 2 ^ 32

infixl 5 ◌>>=◌
unfoldable pub ◌>>=◌ {ℓ κ} : {A : Type ℓ} {B : Type κ} → Option A → (A → Option B) → Option B
none >>= f = none
some a >>= f = f a

abbrev pub is_digit : ℕ → Bool
is_digit c = leb b'0' c && leb c b'9'

-- The digits of an octet behind the value `v` of `n` digits: the octet, and what is left.
unfoldable pub octet_from : ℕ → ℕ → List ℕ → Option (ℕ × List ℕ)
octet_from v n [] = some (v, [])
octet_from v n (c ∷ s) =
    let rest = octet_from (v * 10 + (c - b'0')) (n + 1) s in
    if is_digit c
    then (if ltb 3 (n + 1) || ltb 255 (v * 10 + (c - b'0')) then none else rest)
    else some (v, c ∷ s)

unfoldable pub parse_octet : List ℕ → Option (ℕ × List ℕ)
parse_octet [] = none
parse_octet (c ∷ s) = if is_digit c then octet_from 0 0 (c ∷ s) else none

unfoldable pub parse_dot : List ℕ → Option (List ℕ)
parse_dot [] = none
parse_dot (c ∷ s) = if c == b'.' then some s else none

-- Digits up to the end, of a number up to 32.
unfoldable pub prefix_from : ℕ → List ℕ → Option ℕ
prefix_from v [] = some v
prefix_from v (c ∷ s) =
    let rest = prefix_from (v * 10 + (c - b'0')) s in
    if is_digit c then (if ltb 32 (v * 10 + (c - b'0')) then none else rest) else none

abbrev pub nonempty : List ℕ → Option (List ℕ)
nonempty [] = none
nonempty (c ∷ s) = some (c ∷ s)

-- Without a prefix, 32.
unfoldable pub parse_prefix : List ℕ → Option ℕ
unfolding ◌>>=◌
parse_prefix [] = some 32
parse_prefix (c ∷ s) = if c == b'/' then nonempty s >>= prefix_from 0 else none

-- The shifted octets do not overlap, so that `|` adds them.
unfoldable pub parse_trimmed : List ℕ → Option Net
parse_trimmed s = do
  a ← parse_octet s
  s1 ← parse_dot a.1
  b ← parse_octet s1
  s2 ← parse_dot b.1
  c ← parse_octet s2
  s3 ← parse_dot c.1
  d ← parse_octet s3
  prefix ← parse_prefix d.1
  some (record { addr = a.0 * 2 ^ 24 + b.0 * 2 ^ 16 + c.0 * 2 ^ 8 + d.0; prefix = prefix })

unfoldable pub parse : List ℕ → Option Net
unfolding ◌>>=◌
parse text = nonempty (trim text) >>= parse_trimmed

unfoldable pub normalize : Net → Net
normalize c = record c { addr = bit_and c.addr (mask_of c.prefix) }

unfoldable pub size : Net → ℕ
size c = 2 ^ (32 - c.prefix)

unfoldable pub contains : Net → ℕ → Bool
contains net ip = bit_and ip (mask_of net.prefix) == bit_and net.addr (mask_of net.prefix)

unfoldable pub less : Net → Net → Bool
less a b = if a.addr == b.addr then ltb a.prefix b.prefix else ltb a.addr b.addr
