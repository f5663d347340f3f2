-- ===== src/Vip/Lease.antt =====
-- `UDP::allocate_virtual_ip` and `UDP::release_virtual_ip` of server/UDP/UDP.cpp: an identity gets
-- the address of its lease, or the one derived from its name, or any free one. Writing the leases to
-- their file is left out.
pub mod Laws
use scholar_vpn.Prelude.{
  ℕ, ◌+◌, ◌≡◌, Bool, true, false, not, ◌&&◌, ◌||◌, List, [], ◌∷◌, Option, none, some, ltb, ◌==◌,
  if◌then◌else◌, bytes_eq, length,
}
use scholar_vpn.Vip.{ByteOrder, Pool, allocate, release, try_acquire, preferred_for}

-- A map from identities; `m_last_vip`.
abbrev pub Leases : Type 0
Leases = List (List ℕ × ℕ)

unfoldable pub lease_of : Leases → List ℕ → Option ℕ
lease_of [] id = none
lease_of ((k, ip) ∷ m) id = if bytes_eq k id then some ip else lease_of m id

unfoldable pub put : Leases → List ℕ → ℕ → Leases
put [] id ip = (id, ip) ∷ []
put ((k, old) ∷ m) id ip = if bytes_eq k id then (k, ip) ∷ m else (k, old) ∷ put m id ip

-- Another identity's lease names the address.
unfoldable pub leased_elsewhere : Leases → List ℕ → ℕ → Bool
leased_elsewhere [] id ip = false
leased_elsewhere ((k, held) ∷ m) id ip =
    (not (bytes_eq k id) && (held == ip)) || leased_elsewhere m id ip

-- The fields of `UDP` that the two functions read and write. `vip_to_key` maps an address in
-- network order to the key of the session that holds it.
pub record Vips : Type 0 where
  pub pool : Option Pool
  pub last_vip : Leases
  pub vip_to_key : List (ℕ × List ℕ)

unfoldable pub remember : Leases → List ℕ → ℕ → Leases
remember m [] ip = m
remember m (c ∷ id) ip = put (if ltb 10000 (length m) then [] else m) (c ∷ id) ip

unfoldable pub erase_key : ℕ → List (ℕ × List ℕ) → List (ℕ × List ℕ)
erase_key ip [] = []
erase_key ip ((a, k) ∷ m) = if a == ip then erase_key ip m else (a, k) ∷ erase_key ip m

module _ (o : ByteOrder) (draw : ℕ → ℕ) (v : Vips) where
  -- The last resort: any free address.
  unfoldable pub by_pool : Pool → List ℕ → Vips × ℕ
  by_pool p id =
      let (p', ip_net) = allocate o p draw in
      if ip_net == 0
      then (record v { pool = some p' }, 0)
      else (record v { pool = some p'; last_vip = remember v.last_vip id (o.ntohl ip_net) }, ip_net)

  -- The address derived from the identity, unless it is held or leased to another.
  unfoldable pub by_identity : Pool → List ℕ → Vips × ℕ
  by_identity p id =
      let hint = preferred_for p id in
      let (p', taken) = try_acquire p hint in
      if not (hint == 0) && (not (leased_elsewhere v.last_vip id hint) && taken)
      then (record v { pool = some p'; last_vip = remember v.last_vip id hint }, o.htonl hint)
      else by_pool p id

  -- The address of the lease, if it is free.
  unfoldable pub by_lease : Pool → List ℕ → ℕ → Vips × ℕ
  by_lease p id preferred =
      let (p', taken) = try_acquire p preferred in
      if not (preferred == 0) && taken
      then (record v { pool = some p' }, o.htonl preferred)
      else by_identity p id

  -- The three stages with a pool; an empty identity goes to the last at once.
  unfoldable pub assign : Pool → List ℕ → Vips × ℕ
  assign p [] = by_pool p []
  assign p (c ∷ id) = elim (lease_of v.last_vip (c ∷ id)) [
    | some ip ↦ by_lease p (c ∷ id) ip
    | none ↦ by_lease p (c ∷ id) 0
  ]

  unfoldable pub allocate_virtual_ip : List ℕ → Vips × ℕ
  allocate_virtual_ip id = elim v.pool [ none ↦ (v, 0) | some p ↦ assign p id ]

unfoldable pub release_virtual_ip : ByteOrder → Vips → ℕ → Vips
release_virtual_ip o v ip_net = if ip_net == 0 then v else elim v.pool [
  | none ↦ record v { vip_to_key = erase_key ip_net v.vip_to_key }
  | some p ↦ record v {
    pool = some (release o p ip_net);
    vip_to_key = erase_key ip_net v.vip_to_key;
  }
]
