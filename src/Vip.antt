-- ===== src/Vip.antt =====
-- `VirtualIpPool` of server/UDP/Session.h: the addresses of the tunnel's subnet that sessions hold.
-- Addresses are in host order; `htonl` and `ntohl` are parameters (`ByteOrder`).
pub mod Valid
pub mod Choose
pub mod Range
pub mod Lease
mod Tests
use Prim.Native.Nat.{bit_and, bit_or, bit_xor}
use scholar_vpn.Prelude.{
  ℕ, zero, suc, ◌+◌, ◌-◌, ◌*◌, ◌%◌, ◌^◌, ◌<◌, ◌≡◌, Bool, true, false, not, ◌&&◌, ◌||◌, List, [],
  ◌∷◌, Option, none, some, ltb, leb, ◌==◌, if◌then◌else◌, contains, erase,
}

-- `htonl` and `ntohl` of <arpa/inet.h>, on 32-bit words.
pub record ByteOrder : Type 0 where
  pub htonl : ℕ → ℕ
  pub ntohl : ℕ → ℕ
  pub ntohl-htonl : (a : ℕ) → a < 2 ^ 32 → ntohl (htonl a) ≡ a
  pub htonl_zero : (a : ℕ) → a < 2 ^ 32 → htonl a ≡ 0 → a ≡ 0
  pub htonl_of_zero : htonl 0 ≡ 0

pub record Pool : Type 0 where
  pub used : List ℕ
  pub first : ℕ
  pub last : ℕ
  pub gw : ℕ

-- A prefix below 0 is read as 0.
unfoldable pub mask_of_prefix : ℕ → ℕ
mask_of_prefix prefix =
    if leb prefix 0
    then 0
    else if leb 32 prefix
    then 2 ^ 32 - 1
    else 2 ^ 32 - 1 - (2 ^ (32 - prefix) - 1)

-- The range of host addresses, and the mark for a subnet that has none.
unfoldable pub ranged : ℕ → ℕ → ℕ → Pool
ranged gw first last =
    if ltb last first
    then record { used = []; first = 0; last = 0; gw = gw }
    else record { used = []; first = first; last = last; gw = gw }

-- The constructor, from the gateway in host order.
unfoldable pub make : ℕ → ℕ → Pool
make gw prefix =
    let mask = mask_of_prefix prefix in
    let net = bit_and gw mask in
    let top = bit_or net (2 ^ 32 - 1 - mask) in
    ranged gw ((net + 1) % 2 ^ 32) (if ltb 0 top then top - 1 else top)

abbrev pub is_void : Pool → Bool
is_void p = p.first == 0 || ltb p.last p.first

abbrev pub is_free : Pool → ℕ → Bool
is_free p ip = not (ip == p.gw) && not (contains p.used ip)

abbrev pub take_up : Pool → ℕ → Pool
take_up p ip = record p { used = ip ∷ p.used }

-- The random draws left; `draw i` is the value of `dist(rng)` in round i.
unfoldable pub random_pick : Pool → (ℕ → ℕ) → ℕ → ℕ → Option ℕ
random_pick p draw zero i = none
random_pick p draw (suc rounds) i =
    let rest = random_pick p draw rounds (i + 1) in
    if is_free p (draw i) then some (draw i) else rest

-- `while (ip <= last)`, with fuel.
unfoldable pub scan : Pool → ℕ → ℕ → Option ℕ
scan p zero ip = none
scan p (suc fuel) ip =
    let rest = scan p fuel (ip + 1) in
    if ltb p.last ip
    then none
    else if is_free p ip
    then some ip
    else if ip == 2 ^ 32 - 1
    then none
    else rest

-- The address that `allocate` picks, in host order. The scan has one round for each address.
unfoldable pub choose : Pool → (ℕ → ℕ) → Option ℕ
choose p draw = if is_void p then none else elim (random_pick p draw 32 0) [
  | some ip ↦ some ip
  | none ↦ scan p (suc (p.last - p.first)) p.first
]

module _ (o : ByteOrder) where
  -- The pool and the address in network order; 0 if the pool is full.
  unfoldable pub allocate : Pool → (ℕ → ℕ) → Pool × ℕ
  allocate p draw = elim (choose p draw) [ some ip ↦ (take_up p ip, o.htonl ip) | none ↦ (p, 0) ]

  unfoldable pub release : Pool → ℕ → Pool
  release p ip_net = record p { used = erase (o.ntohl ip_net) p.used }

unfoldable pub try_acquire : Pool → ℕ → Pool × Bool
try_acquire p ip =
    if ip == 0 || ip == p.gw || ltb ip p.first || ltb p.last ip
    then (p, false)
    else if contains p.used ip
    then (p, false)
    else (take_up p ip, true)

-- FNV-1a on 64 bits.
unfoldable pub fnv : ℕ → List ℕ → ℕ
fnv h [] = h
fnv h (c ∷ key) = fnv (bit_xor h c * 1099511628211 % 2 ^ 64) key

-- The candidate address of an identity.
unfoldable pub preferred_for : Pool → List ℕ → ℕ
preferred_for p key =
    if is_void p
    then 0
    else let ip = (p.first + fnv 14695981039346656037 key % (p.last - p.first + 1)) % 2 ^ 32 in
      if ip == p.gw then (if ltb ip p.last then ip + 1 else p.first) else ip
