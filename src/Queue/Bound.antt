-- ===== src/Queue/Bound.antt =====
-- src/PacketQueue.cpp and server/Buffer/QueueBuffer.cpp: how many packets a queue takes.
use scholar_vpn.Prelude.{
  ℕ, zero, suc, ◌+◌, ◌≤◌, ◌≡◌, refl, sym, ap, ◌∙◌, subst, false, List, [], ◌∷◌, ◌++◌, ltb, leb,
  length, take, length-append, take-append, append_assoc, append-nil, arith, Bool-cases, inl, inr,
}
use scholar_vpn.Queue.{PacketQueue}
use scholar_vpn.Queue.Server.{QueueBuffer}
use scholar_vpn.Queue
use scholar_vpn.Queue.Server

module _ {ℓ} {A : Type ℓ} where
  take_all : (n : ℕ) (ys xs : List A) → length ys ≡ n → take n (ys ++ xs) ≡ ys
  take_all n ys xs e = subst (λ m. take m (ys ++ xs) ≡ ys) e (take-append ys xs)

  take_short : (n : ℕ) (ys : List A) → length ys ≤ n → take n ys ≡ ys
  take_short zero [] h = refl
  take_short zero (y ∷ ys) h = absurd (omega arith)
  take_short (suc n) [] h = refl
  take_short (suc n) (y ∷ ys) h = ap (◌∷◌ y) (take_short n ys (omega arith))

  -- A push of each packet, one after the other.
  abbrev pub client_pushes : PacketQueue A → List A → PacketQueue A
  client_pushes q [] = q
  client_pushes q (x ∷ xs) = client_pushes (Queue.push q x).0 xs

  abbrev pub server_pushes : QueueBuffer A → List A → QueueBuffer A
  server_pushes q [] = q
  server_pushes q (x ∷ xs) = server_pushes (Queue.Server.push q x).0 xs

  client-take :
      (n : ℕ) (ys xs : List A)
      → length ys ≤ n
      → (client_pushes (record { max_size = n; queue = ys; stopped = false }) xs).queue
        ≡ take n (ys ++ xs)
  unfolding Queue.push
  client-take n ys [] h = sym (ap (take n) (append-nil ys) ∙ take_short n ys h)
  client-take n ys (x ∷ xs) h = elim (Bool-cases (leb n (length ys))) [
    | inl e ↦
        rw (e, client_pushes, Queue.push)
          (client-take n ys xs h
            ∙ take_all n ys xs (ground arith)
            ∙ sym (take_all n ys (x ∷ xs) (ground arith)))
    | inr e ↦
        rw (e, client_pushes, Queue.push)
          (client-take n (ys ++ (x ∷ [])) xs (ground (arith, length-append ys (x ∷ [])))
            ∙ ap (take n) (append_assoc ys (x ∷ []) xs))
  ]

  server-take :
      (n : ℕ) (ys xs : List A)
      → length ys ≤ n + 1
      → (server_pushes (record { max_size = n; queue = ys; stopped = false }) xs).queue
        ≡ take (n + 1) (ys ++ xs)
  unfolding Queue.Server.push
  server-take n ys [] h = sym (ap (take (n + 1)) (append-nil ys) ∙ take_short (n + 1) ys h)
  server-take n ys (x ∷ xs) h = elim (Bool-cases (ltb n (length ys))) [
    | inl e ↦
        rw (e, server_pushes, Queue.Server.push)
          (server-take n ys xs h
            ∙ take_all (n + 1) ys xs (ground arith)
            ∙ sym (take_all (n + 1) ys (x ∷ xs) (ground arith)))
    | inr e ↦
        rw (e, server_pushes, Queue.Server.push)
          (server-take n (ys ++ (x ∷ [])) xs (ground (arith, length-append ys (x ∷ [])))
            ∙ ap (take (n + 1)) (append_assoc ys (x ∷ []) xs))
  ]

  -- Of the packets pushed into new queues of maximal size `n`, the client's keeps the first `n`, and
  -- the server's the first `n + 1`, in their order.
  pub pushes-take :
      (n : ℕ) (xs : List A)
      → ((client_pushes (Queue.create n) xs).queue ≡ take n xs)
        × ((server_pushes (Queue.Server.create n) xs).queue ≡ take (n + 1) xs)
  unfolding Queue.create Queue.Server.create
  pushes-take n xs = (client-take n [] xs (omega arith), server-take n [] xs (omega arith))
