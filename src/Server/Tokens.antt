-- ===== src/Server/Tokens.antt =====
-- The registration of a client with a token, in `handle_identity` of server/UDP/UDP.cpp.
use scholar_vpn.Prelude.{
  ℕ, suc, ◌+◌, ◌≤◌, ◌≡◌, ◌⊎◌, inl, inr, refl, subst, Bool, true, false, not, List, [], ◌∷◌, ◌++◌,
  Option, none, some, if◌then◌else◌, bytes_eq, bytes_eq_iff, arith, by_branch, by_option, is_not,
}
use scholar_vpn.Server.{Server, Chance}
use scholar_vpn.Server.Auth.{is_empty}
use scholar_vpn.Server.Identity.{
  without_line, file_remove_line, file_append_line, consume, register,
}

-- How often a line occurs.
unfoldable pub times : List (List ℕ) → List ℕ → ℕ
times [] line = 0
times (l ∷ ls) line = if bytes_eq l line then suc (times ls line) else times ls line

-- One, if the token is the one asked about and nothing refused it.
unfoldable pub spends : List ℕ → List ℕ → Option ℕ → ℕ
spends token other none = if bytes_eq token other then 1 else 0
spends token other (some reason) = 0

-- The lines with one of them taken out.
Taken : List (List ℕ) → List ℕ → Option (List (List ℕ)) → Type 0
Taken ls line none = times ls line ≡ 0
Taken ls line (some kept) = (t : List ℕ) → times ls t ≡ spends line t none + times kept t

without_line-Taken : (ls : List (List ℕ)) (line : List ℕ) → Taken ls line (without_line ls line)
unfolding without_line times spends Taken
without_line-Taken [] line = refl
without_line-Taken (l ∷ ls) line =
    by_branch (Taken (l ∷ ls) line) (bytes_eq l line) _ _
      (λ b. λ t. rw ((bytes_eq_iff l line).0 b) (ground arith))
      (λ b. later b (without_line ls line) (without_line-Taken ls line))
  where
    later :
        bytes_eq l line ≡ false
        → (r : Option (List (List ℕ))) → Taken ls line r
        → Taken (l ∷ ls) line (elim r [ none ↦ none | some kept ↦ some (l ∷ kept) ])
    later b none h = rw b h
    later b (some kept) h = λ t. let e = h t in ground (arith, e)

-- A line that was removed was there once more.
Removed : List (List ℕ) → List ℕ → List (List ℕ) × Bool → Type 0
Removed ls line r = r.1 ≡ true → (t : List ℕ) → times ls t ≡ spends line t none + times r.0 t

file_remove_line-Removed :
    (ls : List (List ℕ)) (line : List ℕ) (rewrites : Bool)
    → Removed ls line (file_remove_line ls line rewrites)
unfolding file_remove_line Removed Taken
file_remove_line-Removed ls line rewrites =
    by_option (Removed ls line) (without_line ls line) _ _ (λ e h. absurd (cc))
      λ kept e.
        by_branch (Removed ls line) rewrites _ _
          (λ b h. subst (Taken ls line) e (without_line-Taken ls line)) (λ b h. absurd (cc))

file_append_line-appended :
    (ls : List (List ℕ)) (line : List ℕ) (appends : Bool)
    → (file_append_line ls line appends).1 ≡ true
    → (file_append_line ls line appends).0 ≡ ls ++ (line ∷ [])
unfolding file_append_line
file_append_line-appended ls line appends =
    by_branch (λ (r : List (List ℕ) × Bool). r.1 ≡ true → r.0 ≡ ls ++ (line ∷ [])) appends _ _
      (λ b h. refl) (λ b h. absurd (cc))

-- The tokens and the clients after a registration.
record Registered (sv : Server) (token hex : List ℕ) (r : Server × Option ℕ) : Type 0 where
  pub spent : (t : List ℕ) → spends token t r.1 + times r.0.tokens t ≤ times sv.tokens t
  pub listed :
      ((r.1 ≡ none) × (r.0.clients ≡ sv.clients ++ (hex ∷ [])))
      ⊎ ((r.1 ≡ some 1) × (r.0.clients ≡ sv.clients))

register-Registered :
    (ch : Chance) (sv : Server) (token hex : List ℕ)
    → Registered sv token hex (register ch sv token hex)
unfolding register consume spends Removed
register-Registered ch sv token hex =
    let t = file_remove_line sv.tokens token ch.rewrites in
    let c = file_append_line sv.clients hex ch.appends in
    by_branch R (is_empty token) _ _ (λ b. kept)
      λ b.
        by_branch R (not t.1) _ _ (λ d. kept)
          λ d.
            let gone = file_remove_line-Removed sv.tokens token ch.rewrites (is_not t.1 d) in
            by_branch R (not c.1) _ _
              (λ e. record { spent = λ u. omega (arith, gone u); listed = inr (refl, refl) })
              (λ e. record {
                spent = λ u. omega (arith, gone u);
                listed =
                    inl (refl, file_append_line-appended sv.clients hex ch.appends (is_not c.1 e));
              })
  where
    R : Server × Option ℕ → Type 0
    R r = Registered sv token hex r

    kept : R (sv, some 1)
    kept = record { spent = λ t. omega arith; listed = inr (refl, refl) }

-- Registrations one after the other, with the chance, the token and the client's key of each: how many
-- of them went through with a certain token.
unfoldable pub registered : Server → List ℕ → List (Chance × List ℕ × List ℕ) → ℕ
registered sv t [] = 0
registered sv t ((ch, token, hex) ∷ rs) =
    let r = register ch sv token hex in spends token t r.1 + registered r.0 t rs

-- Of all registrations that follow one another, at most as many go through with a token as there are
-- lines with it in the file of tokens at first, whatever the other tokens are and whether the files
-- can be written.
pub registered_once :
    (rs : List (Chance × List ℕ × List ℕ)) (sv : Server) (t : List ℕ)
    → registered sv t rs ≤ times sv.tokens t
unfolding registered
registered_once [] sv t = omega arith
registered_once ((ch, token, hex) ∷ rs) sv t =
    let r = register ch sv token hex in
    omega (arith, registered_once rs r.0 t, (register-Registered ch sv token hex).spent t)

-- A registration that goes through puts the client at the end of the list; one that is refused, for
-- reason 1, leaves the list as it is.
pub register-lists :
    (ch : Chance) (sv : Server) (token hex : List ℕ)
    → ((register ch sv token hex).1 ≡ none)
        × ((register ch sv token hex).0.clients ≡ sv.clients ++ (hex ∷ []))
      ⊎ ((register ch sv token hex).1 ≡ some 1)
        × ((register ch sv token hex).0.clients ≡ sv.clients)
register-lists ch sv token hex = (register-Registered ch sv token hex).listed
