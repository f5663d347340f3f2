-- ===== src/Vip/Valid.antt =====
-- The invariant of `VirtualIpPool` and its calls.
use scholar_vpn.Prelude.{
  ℕ, ◌^◌, ◌<◌, ◌≤◌, ◌≡◌, ◌≢◌, true, false, contains, All, Distinct, All-erase, erase-Distinct,
  arith,
}
use scholar_vpn.Vip.{ByteOrder, Pool, take_up, release, try_acquire}

-- An address that a session may hold.
abbrev pub Host : Pool → ℕ → Type 0
Host p ip = (p.first ≤ ip) × (ip ≤ p.last) × (ip ≢ p.gw)

pub record IsValid (p : Pool) : Type 0 where
  pub word : p.last < 2 ^ 32
  pub hosts : All (Host p) p.used
  pub distinct : Distinct p.used

pub take_up-IsValid :
    (p : Pool) (ip : ℕ)
    → IsValid p
    → Host p ip
    → contains p.used ip ≡ false
    → IsValid (take_up p ip)
take_up-IsValid p ip v h c = record {
  word = v.word;
  hosts = (h, v.hosts);
  distinct = (c, v.distinct);
}

pub release-IsValid : (o : ByteOrder) (p : Pool) (ip : ℕ) → IsValid p → IsValid (release o p ip)
unfolding release
release-IsValid o p ip v = record {
  word = v.word;
  hosts = All-erase (Host p) p.used (o.ntohl ip) v.hosts;
  distinct = erase-Distinct p.used (o.ntohl ip) v.distinct;
}

-- `try_acquire` takes an address exactly if it is a host address other than 0 that nobody holds.
pub try_acquire-true :
    (p : Pool) (ip : ℕ)
    → (try_acquire p ip).1 ≡ true
    → (ip ≢ 0) × Host p ip × (contains p.used ip ≡ false) × ((try_acquire p ip).0 ≡ take_up p ip)
unfolding try_acquire
try_acquire-true p ip h = ground arith

pub try_acquire-false :
    (p : Pool) (ip : ℕ) → (try_acquire p ip).1 ≡ false → (try_acquire p ip).0 ≡ p
unfolding try_acquire
try_acquire-false p ip h = ground arith

pub try_acquire_free :
    (p : Pool) (ip : ℕ)
    → ip ≢ 0
    → Host p ip
    → contains p.used ip ≡ false
    → try_acquire p ip ≡ (take_up p ip, true)
unfolding try_acquire
try_acquire_free p ip n h c = ground arith
