-- ===== src/Queue/Laws.antt =====
-- The queues of src/PacketQueue.cpp and server/Buffer/QueueBuffer.cpp: order and bound over any
-- sequence of calls.
use scholar_vpn.Prelude.{
  ◌≤◌, ◌≡◌, refl, sym, ap, ◌∙◌, subst, Bool, true, false, List, [], ◌∷◌, ◌++◌, Option, none, some,
  leb, length, length-append, append_assoc, arith, Bool-cases, inl, inr, ◌⊎◌,
}
use scholar_vpn.Queue.{PacketQueue, push, try_pop, shutdown}

-- A call by some thread.
pub data Call {ℓ} (A : Type ℓ) : Type ℓ where
  pushes : A → Call A
  pops : Call A
  shuts : Call A

-- The queue after the calls, with what the accepted pushes put in and what the pops took out.
pub record Traffic {ℓ} (A : Type ℓ) : Type ℓ where
  pub queue : PacketQueue A
  pub put : List A
  pub taken : List A

module _ {ℓ} {A : Type ℓ} where
  abbrev pub pushed : Traffic A → A → PacketQueue A × Bool → Traffic A
  pushed t x (q, true) = record { queue = q; put = t.put ++ (x ∷ []); taken = t.taken }
  pushed t x (q, false) = record t { queue = q }

  abbrev pub popped : Traffic A → PacketQueue A × Option A → Traffic A
  popped t (q, some x) = record { queue = q; put = t.put; taken = t.taken ++ (x ∷ []) }
  popped t (q, none) = record t { queue = q }

  abbrev pub call : Traffic A → Call A → Traffic A
  call t (pushes x) = pushed t x (push t.queue x)
  call t pops = popped t (try_pop t.queue)
  call t shuts = record t { queue = shutdown t.queue }

  abbrev pub calls : Traffic A → List (Call A) → Traffic A
  calls t [] = t
  calls t (c ∷ cs) = calls (call t c) cs

  -- Nothing is lost or out of order, and the bound holds.
  pub record IsOrdered (t : Traffic A) : Type ℓ where
    pub order : t.put ≡ t.taken ++ t.queue.queue
    pub bound : length t.queue.queue ≤ t.queue.max_size

  push-IsOrdered : (t : Traffic A) (x : A) → IsOrdered t → IsOrdered (call t (pushes x))
  unfolding push
  push-IsOrdered t x v = elim (Bool-cases t.queue.stopped) [
    | inl e ↦ subst IsOrdered (sym (ap (pushed t x) (stays e))) v
    | inr e ↦ elim (Bool-cases (leb t.queue.max_size (length t.queue.queue))) [
      | inl f ↦ subst IsOrdered (sym (ap (pushed t x) (full e f))) v
      | inr f ↦ subst IsOrdered (sym (ap (pushed t x) (enters e f))) (record {
        order = ap (λ l. l ++ (x ∷ [])) v.order ∙ append_assoc t.taken t.queue.queue (x ∷ []);
        bound = ground (arith, length-append t.queue.queue (x ∷ []));
      })
    ]
  ]
    where
      stays : t.queue.stopped ≡ true → push t.queue x ≡ (t.queue, false)
      stays e = ground (arith, e)

      full :
          t.queue.stopped ≡ false
          → leb t.queue.max_size (length t.queue.queue) ≡ true
          → push t.queue x ≡ (t.queue, false)
      full e f = ground (arith, e, f)

      enters :
          t.queue.stopped ≡ false
          → leb t.queue.max_size (length t.queue.queue) ≡ false
          → push t.queue x ≡ (record t.queue { queue = t.queue.queue ++ (x ∷ []) }, true)
      enters e f = ground (arith, e, f)

  pop-IsOrdered : (t : Traffic A) → IsOrdered t → IsOrdered (call t pops)
  unfolding try_pop
  pop-IsOrdered t v = elim (List-cases t.queue.queue) [
    | inl e ↦ subst IsOrdered (sym (ap (popped t) (none_left e))) v
    | inr (x, xs, e) ↦ subst IsOrdered (sym (ap (popped t) (first x xs e))) (record {
      order = v.order ∙ ap (λ l. t.taken ++ l) e ∙ sym (append_assoc t.taken (x ∷ []) xs);
      bound = omega (arith, v.bound, ap length e);
    })
  ]
    where
      List-cases : (l : List A) → (l ≡ []) ⊎ ((x : A) × (xs : List A) × (l ≡ x ∷ xs))
      List-cases [] = inl refl
      List-cases (x ∷ xs) = inr (x, xs, refl)

      step : List A → PacketQueue A × Option A
      step l = elim l [ [] ↦ (t.queue, none) | x ∷ xs ↦ (record t.queue { queue = xs }, some x) ]

      none_left : t.queue.queue ≡ [] → try_pop t.queue ≡ (t.queue, none)
      none_left e = ap step e

      first :
          (x : A) (xs : List A)
          → t.queue.queue ≡ x ∷ xs
          → try_pop t.queue ≡ (record t.queue { queue = xs }, some x)
      first x xs e = ap step e

  -- From a queue whose traffic is in order, every sequence of pushes, pops and shutdowns leads to one
  -- in order: what was accepted is what was taken followed by what is queued, and the queue holds no
  -- more than its maximal size.
  pub calls-IsOrdered : (t : Traffic A) (cs : List (Call A)) → IsOrdered t → IsOrdered (calls t cs)
  unfolding shutdown
  calls-IsOrdered t [] v = v
  calls-IsOrdered t (pushes x ∷ cs) v =
      calls-IsOrdered (call t (pushes x)) cs (push-IsOrdered t x v)
  calls-IsOrdered t (pops ∷ cs) v = calls-IsOrdered (call t pops) cs (pop-IsOrdered t v)
  calls-IsOrdered t (shuts ∷ cs) v =
      calls-IsOrdered (call t shuts) cs (record { order = v.order; bound = v.bound })
