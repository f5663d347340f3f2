-- ===== src/Vip/Tests.antt =====
-- The pool of 10.8.0.1/29 with two sessions, and an identity that comes back.
use scholar_vpn.Prelude.{ℕ, ◌≡◌, ◌≢◌, ◌⊎◌, refl, true, [], ◌∷◌, some, contains, arith}
use scholar_vpn.Vip.{
  ByteOrder, Pool, allocate, choose, random_pick, scan, try_acquire, take_up, preferred_for, fnv,
}
use scholar_vpn.Vip.Valid.{IsValid}
use scholar_vpn.Vip.Choose.{Fresh, allocate-Fresh, allocate_complete, acquires, step, step-IsValid}
use scholar_vpn.Vip.Lease.{
  Vips, allocate_virtual_ip, release_virtual_ip, assign, by_lease, by_identity, by_pool, lease_of,
  leased_elsewhere,
}
use scholar_vpn.Vip.Lease.Laws.{Grants, allocate_virtual_ip-Grants, reconnect_stable}

-- A big-endian machine.
abbrev big_endian : ByteOrder
big_endian = record {
  htonl = λ a. a;
  ntohl = λ a. a;
  ntohl-htonl = λ a h. refl;
  htonl_zero = λ a h e. e;
  htonl_of_zero = refl;
}

abbrev gateway : ℕ
gateway = 0x0a080001

abbrev two_held : Pool
two_held = record {
  used = 0x0a080003 ∷ 0x0a080002 ∷ [];
  first = 0x0a080001;
  last = 0x0a080006;
  gw = gateway;
}

abbrev one_left : Pool
one_left = record two_held { last = 0x0a080003; used = 0x0a080003 ∷ 0x0a080002 ∷ [] }

two_held-IsValid : IsValid two_held
unfolding contains
two_held-IsValid = record { word = omega arith; hosts = omega arith; distinct = (refl, (refl, tt)) }

one_left-IsValid : IsValid one_left
unfolding contains
one_left-IsValid = record { word = omega arith; hosts = omega arith; distinct = (refl, (refl, tt)) }

-- Each draw hits a held address, so the scan decides.
abbrev unlucky : ℕ → ℕ
unlucky i = 0x0a080002

allocate_scans : (allocate big_endian two_held unlucky).1 ≡ 0x0a080004
unfolding allocate choose random_pick scan contains
allocate_scans = refl

allocate-Fresh_example :
    (((allocate big_endian two_held unlucky).1 ≡ 0)
      × ((allocate big_endian two_held unlucky).0 ≡ two_held))
    ⊎ ((ip : ℕ) × ((allocate big_endian two_held unlucky).1 ≡ ip)
        × (ip ≢ 0)
        × Fresh two_held ip
        × ((allocate big_endian two_held unlucky).0 ≡ take_up two_held ip))
allocate-Fresh_example =
    allocate-Fresh big_endian two_held unlucky two_held-IsValid (λ i. omega arith)

allocate_complete_example : contains one_left.used 0x0a080002 ≡ true
unfolding allocate choose random_pick scan contains
allocate_complete_example =
    allocate_complete big_endian one_left unlucky 0x0a080002 one_left-IsValid (λ i. omega arith)
      refl refl (omega arith)

step-IsValid_example : IsValid (step big_endian two_held (acquires 0x0a080005))
step-IsValid_example = step-IsValid big_endian two_held (acquires 0x0a080005) two_held-IsValid tt

abbrev server : Vips
server = record { pool = some two_held; last_vip = []; vip_to_key = [] }

allocate_virtual_ip-Grants_example :
    Grants big_endian two_held
      (b'a' ∷ [])
      (allocate_virtual_ip big_endian unlucky server (b'a' ∷ []))
allocate_virtual_ip-Grants_example =
    allocate_virtual_ip-Grants big_endian unlucky server two_held two_held-IsValid
      (λ i. omega arith) (b'a' ∷ []) refl

granted_to_a : (allocate_virtual_ip big_endian unlucky server (b'a' ∷ [])).1 ≡ 0x0a080005
unfolding allocate_virtual_ip assign by_lease by_identity by_pool lease_of preferred_for fnv
    try_acquire contains allocate choose random_pick scan leased_elsewhere
granted_to_a = refl

reconnect_stable_example :
    let (v', ip_net) = allocate_virtual_ip big_endian unlucky server (b'a' ∷ []) in
    (allocate_virtual_ip big_endian
      (λ i. 0x0a080006)
      (release_virtual_ip big_endian v' ip_net)
      (b'a' ∷ [])).1
    ≡ ip_net
reconnect_stable_example =
    reconnect_stable big_endian unlucky (λ i. 0x0a080006) server two_held b'a' [] two_held-IsValid
      (λ i. omega arith) refl (λ e. absurd (omega (arith, granted_to_a)))
