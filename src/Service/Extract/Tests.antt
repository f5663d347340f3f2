-- ===== src/Service/Extract/Tests.antt =====
-- A DNS question for "A.b" in an IPv4 packet with a header of 20 bytes, and packets cut short.
use scholar_vpn.Prelude.{ℕ, ◌+◌, ◌≡◌, ◌≢◌, refl, List, [], ◌∷◌, ◌++◌, take, arith}
use scholar_vpn.Service.Extract.{
  fault, reject, ok, ◌>>=◌, ◌>>◌, need, read, read16, tolower, lower_bytes, labels,
  extract_dns_name, extract_domain,
}
use scholar_vpn.Service.Extract.Safety.{extract_domain-safe}
use scholar_vpn.Service.Extract.Names.{encode, extract_dns_name-query}

-- The IP header, the UDP header and the DNS header with one question.
abbrev headers : List ℕ
headers =
    (0x45 ∷ 0 ∷ 0 ∷ 0 ∷ 0 ∷ 0 ∷ 0 ∷ 0 ∷ 64 ∷ 17 ∷ 0 ∷ 0 ∷ 10 ∷ 8 ∷ 0 ∷ 2 ∷ 8 ∷ 8 ∷ 8 ∷ 8 ∷ [])
    ++ ((0xc0 ∷ 0 ∷ 0 ∷ 53 ∷ 0 ∷ 0 ∷ 0 ∷ 0 ∷ [])
        ++ (1 ∷ 2 ∷ 1 ∷ 0 ∷ 0 ∷ 1 ∷ 0 ∷ 0 ∷ 0 ∷ 0 ∷ 0 ∷ 0 ∷ []))

-- "A" and "b".
abbrev names : List (List ℕ)
names = (b'A' ∷ []) ∷ (b'b' ∷ []) ∷ []

abbrev question : List ℕ
question = headers ++ (encode names ++ (0 ∷ 1 ∷ 0 ∷ 1 ∷ []))

found : extract_domain question ≡ ok (b'a' ∷ b'.' ∷ b'b' ∷ [])
unfolding extract_domain extract_dns_name labels lower_bytes tolower read16 read need ◌>>=◌ ◌>>◌
found = refl

cut_short : extract_domain (take 42 question) ≡ reject
unfolding extract_domain extract_dns_name labels lower_bytes tolower read16 read need ◌>>=◌ ◌>>◌
cut_short = refl

extract_domain-safe_example : extract_domain question ≢ fault
extract_domain-safe_example = extract_domain-safe question

port_53 : read16 question (20 + 2) ≡ ok 53
unfolding read16 read ◌>>=◌
port_53 = refl

one_question : read16 question (20 + 12) ≡ ok 1
unfolding read16 read ◌>>=◌
one_question = refl

extract_dns_name-query_example : extract_dns_name question 20 ≡ ok (b'a' ∷ b'.' ∷ b'b' ∷ [])
unfolding tolower
extract_dns_name-query_example =
    extract_dns_name-query headers (0 ∷ 1 ∷ 0 ∷ 1 ∷ []) (b'A' ∷ []) ((b'b' ∷ []) ∷ []) 20 1 refl
      port_53 one_question (omega arith) ((λ e. cc), ((λ e. cc), tt)) (omega arith) (omega arith)
