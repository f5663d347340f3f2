-- ===== src/Server/Keeps/Rooms.antt =====
-- `get_or_create_session` of server/UDP/UDP.cpp keeps the invariant.
use scholar_vpn.Prelude.{
  ℕ, suc, ◌-◌, ◌^◌, ◌<◌, ◌≡◌, inl, refl, subst, Bool, not, ◌&&◌, List, ◌∷◌, Option, none, some, leb,
  ◌==◌, bytes_eq_iff, length, arith, by_branch, by_option,
}
use scholar_vpn.Vip.{ByteOrder}
use scholar_vpn.Server.{Session, Server}
use scholar_vpn.Server.Table.{
  find, remove, evict, free_address, k_max_pending_sessions, k_max_sessions_per_ip, new_session,
  pending, per_ip, oldest_pending, evict_key, make_room, add_session, get_or_create_session,
}
use scholar_vpn.Server.Held.{held, Present, find-Present}
use scholar_vpn.Server.Seats.{Seats-add, oldest-leaves_room, find-remove-none}
use scholar_vpn.Server.Valid.{IsValid, evict_key-IsValid}

-- The key is not in the table, and the source may have one more session.
abbrev HasRoom : List ℕ → List ℕ → Server → Type 0
HasRoom key ip sv = (find sv.sessions key ≡ none) × (per_ip sv.sessions ip < k_max_sessions_per_ip)

module _ (o : ByteOrder) where
  new-IsValid :
      (sv : Server) (key ip : List ℕ) (tcp : Bool) (now : ℕ)
      → IsValid o sv
      → HasRoom key ip sv
      → length sv.sessions < sv.max_clients
      → IsValid o (record sv { sessions = new_session key ip tcp now ∷ sv.sessions })
  unfolding new_session held
  new-IsValid sv key ip tcp now v r l = record {
    pool = v.pool;
    has_pool = v.has_pool;
    pool_ok = v.pool_ok;
    spans = v.spans;
    exact = v.exact;
    distinct = v.distinct;
    good = ((inl refl, refl, inl refl), v.good);
    seats = Seats-add sv.max_clients sv.sessions (new_session key ip tcp now) v.seats r.0 r.1 l;
  }

  -- The table after a call, and the session found in it.
  abbrev pub Found : Server × Option Session → Type 0
  Found (sv, none) = IsValid o sv
  Found (sv, some s) = IsValid o sv × Present sv.sessions s

  abbrev Room : List ℕ → List ℕ → Option Server → Type 0
  Room key ip none = Unit
  Room key ip (some sv) = IsValid o sv × HasRoom key ip sv

  evicted-HasRoom :
      (sv : Server) (key ip : List ℕ) (s : Session)
      → IsValid o sv
      → find sv.sessions key ≡ none
      → oldest_pending sv.sessions ip (2 ^ 64 - 1) none ≡ some s
      → HasRoom key ip (evict_key o sv s.peer_key)
  unfolding evict_key evict free_address
  evicted-HasRoom sv key ip s v n d =
      let (e, c) = oldest-leaves_room sv.sessions ip (2 ^ 64 - 1) s v.seats.unique d in
      rw (e, evict_key)
        (by_branch (HasRoom key ip) (s.ip_assigned && not (s.virtual_ip == 0)) _ _ (λ b. room c)
          (λ b. room c))
    where
      room :
          suc (per_ip (remove sv.sessions s.peer_key) ip) ≡ per_ip sv.sessions ip
          → (find (remove sv.sessions s.peer_key) key ≡ none)
            × (per_ip (remove sv.sessions s.peer_key) ip < k_max_sessions_per_ip)
      room c = (find-remove-none sv.sessions s.peer_key key n, omega (arith, c, v.seats.few ip))

  make_room-IsValid :
      (sv : Server) (key ip : List ℕ)
      → IsValid o sv
      → find sv.sessions key ≡ none
      → Room key ip (make_room o sv ip)
  unfolding make_room
  make_room-IsValid sv key ip v n =
      by_branch (Room key ip) (leb k_max_pending_sessions (pending sv.sessions)) _ _ (λ b. tt)
        λ b.
          by_branch (Room key ip) (leb k_max_sessions_per_ip (per_ip sv.sessions ip)) _ _
            (λ c.
              by_option (Room key ip) (oldest_pending sv.sessions ip (2 ^ 64 - 1) none) _ _
                (λ d. tt)
                (λ s d. (evict_key-IsValid o sv s.peer_key v, evicted-HasRoom sv key ip s v n d)))
            (λ c. (v, (n, ground (arith, c))))

  added-Found :
      (sv : Server) (key ip : List ℕ) (tcp : Bool) (now : ℕ)
      → IsValid o sv
      → HasRoom key ip sv
      → Found (add_session sv (new_session key ip tcp now))
  unfolding add_session new_session find
  added-Found sv key ip tcp now v r =
      by_branch Found (leb sv.max_clients (length sv.sessions)) _ _ (λ b. v)
        λ b. (
          new-IsValid sv key ip tcp now v r (ground (arith, b)),
          rw ((bytes_eq_iff key key).1 refl, find) refl,
        )

  pub created-Found :
      (sv : Server) (key ip : List ℕ) (tcp : Bool) (now : ℕ)
      → IsValid o sv
      → Found (get_or_create_session o sv key ip tcp now)
  unfolding get_or_create_session
  created-Found sv key ip tcp now v =
      by_option Found (find sv.sessions key) _ _
        (λ e.
          by_option Found (make_room o sv ip) _ _ (λ d. v)
            (λ sv' d. roomy sv' (subst (Room key ip) d (make_room-IsValid sv key ip v e))))
        (λ s e. (v, find-Present sv.sessions key s e))
    where
      roomy :
          (sv' : Server)
          → Room key ip (some sv')
          → Found (add_session sv' (new_session key ip tcp now))
      roomy sv' r = added-Found sv' key ip tcp now r.0 r.1

  pub created-IsValid : (r : Server × Option Session) → Found r → IsValid o r.0
  created-IsValid (sv, none) f = f
  created-IsValid (sv, some s) f = f.0
