-- ===== src/Tcp/Received.antt =====
-- The loop of src/tcp.cpp over a stream of frames in any pieces.
use scholar_vpn.Prelude.{
  ℕ, ◌+◌, ◌*◌, ◌≤◌, ◌≡◌, refl, sym, ap, ◌∙◌, false, List, ◌++◌, ltb, leb, ◌==◌, length, drop,
  length-append, drop_add, drop_all, drop-append_le, arith, by_branch,
}
use scholar_vpn.Tcp.Recv.{Rx, compact_rx, unread, advance}

-- Before a call, `u` is what was not handed out yet.
pub record Reads (r : Rx) (u : List ℕ) : Type 0 where
  pub fits : r.rx_off + r.consumed ≤ length r.rx_buf
  pub left : drop r.consumed (unread r) ≡ u
  pub good : r.need_reconnect ≡ false

-- Behind `advance`.
pub record Stands (r : Rx) (u : List ℕ) : Type 0 where
  pub fits : r.rx_off ≤ length r.rx_buf
  pub left : unread r ≡ u
  pub none_out : r.consumed ≡ 0
  pub good : r.need_reconnect ≡ false

compact_rx-Stands : (r : Rx) (u : List ℕ) → Stands r u → Stands (compact_rx r) u
unfolding compact_rx
compact_rx-Stands r u s =
    by_branch Fine (r.rx_off == 0) _ _ (λ _. s)
      λ _.
        by_branch Fine (leb (length r.rx_buf) r.rx_off) _ _
          (λ e. record {
            fits = omega arith;
            left = sym (drop_all r.rx_off r.rx_buf (ground (arith, e))) ∙ s.left;
            none_out = s.none_out;
            good = s.good;
          })
          λ _.
            by_branch Fine (leb (64 * 1024) r.rx_off) _ _
              (λ _. record {
                fits = omega arith;
                left = s.left;
                none_out = s.none_out;
                good = s.good;
              })
              (λ _. s)
  where
    Fine : Rx → Type 0
    Fine r' = Stands r' u

pub advance-Stands : (r : Rx) (u : List ℕ) → Reads r u → Stands (advance r) u
unfolding advance
advance-Stands r u v =
    by_branch Fine (ltb 0 r.consumed) _ _
      (λ _.
        compact_rx-Stands (record r { rx_off = r.rx_off + r.consumed; consumed = 0 }) u
          (record {
            fits = v.fits;
            left = drop_add r.rx_off r.consumed r.rx_buf ∙ v.left;
            none_out = refl;
            good = v.good;
          }))
      (λ e.
        let z = nothing r.consumed e in
        record {
          fits = omega (arith, v.fits);
          left = sym (ap (λ n. drop n (unread r)) z) ∙ v.left;
          none_out = z;
          good = v.good;
        })
  where
    Fine : Rx → Type 0
    Fine r' = Stands r' u

    nothing : (n : ℕ) → ltb 0 n ≡ false → n ≡ 0
    nothing n e = ground (arith, e)

pub Stands-Reads : (r : Rx) (u : List ℕ) → Stands r u → Reads r u
Stands-Reads r u s = record {
  fits = omega (arith, s.fits, s.none_out);
  left = ap (λ n. drop n (unread r)) s.none_out ∙ s.left;
  good = s.good;
}

pub fed-Stands :
    (r : Rx) (u bytes : List ℕ)
    → Stands r u
    → Stands (record r { rx_buf = r.rx_buf ++ bytes }) (u ++ bytes)
fed-Stands r u bytes s = record {
  fits = omega (arith, s.fits, length-append r.rx_buf bytes);
  left = drop-append_le r.rx_off r.rx_buf bytes s.fits ∙ ap (λ xs. xs ++ bytes) s.left;
  none_out = s.none_out;
  good = s.good;
}
