-- ===== src/Service/Blacklist/Tests.antt =====
-- A table of three rows, asked about sub-domains.
use scholar_vpn.Prelude.{ℕ, ◌≡◌, ◌↔◌, refl, true, false, List, [], ◌∷◌, none, some, bytes_eq, arith}
use scholar_vpn.Service.Blacklist.{
  Row, Lists, ip_kind, load, strip_star, add_domain, add_entry, add_row, add_rows, has, any_sub,
  is_sub, domain_blocked,
}
use scholar_vpn.Service.Blacklist.Laws.{Some, Blocks, domain_blocked-rows}

-- "*.a.b", "10.0.0.1" of kind ip, and NULL.
abbrev rows : List Row
rows =
    record { domain = some (b'*' ∷ b'.' ∷ b'a' ∷ b'.' ∷ b'b' ∷ []); kind = none }
    ∷ record { domain = some (b'1' ∷ []); kind = some ip_kind }
    ∷ record { domain = none; kind = none }
    ∷ []

abbrev stale : Lists
stale = record { domains = (b'x' ∷ []) ∷ []; ips = []; machines = []; loaded_at = 10 }

-- "c.a.b"
abbrev sub : List ℕ
sub = b'c' ∷ b'.' ∷ b'a' ∷ b'.' ∷ b'b' ∷ []

blocks_sub : domain_blocked (load (some rows) 70 stale) sub ≡ true
unfolding domain_blocked load add_rows add_row add_entry add_domain strip_star has any_sub is_sub
    bytes_eq
blocks_sub = refl

-- "ca.b" is no sub-domain of "a.b".
lets_pass : domain_blocked (load (some rows) 70 stale) (b'c' ∷ b'a' ∷ b'.' ∷ b'b' ∷ []) ≡ false
unfolding domain_blocked load add_rows add_row add_entry add_domain strip_star has any_sub is_sub
    bytes_eq
lets_pass = refl

-- A query that cannot be prepared leaves the lists empty.
no_table : domain_blocked (load none 70 stale) (b'x' ∷ []) ≡ false
unfolding domain_blocked load has any_sub
no_table = refl

domain_blocked-rows_example :
    (domain_blocked (load (some rows) 70 stale) sub ≡ true) ↔ Some (Blocks sub) rows
domain_blocked-rows_example = domain_blocked-rows rows 70 stale sub (omega arith) (λ e. cc)
