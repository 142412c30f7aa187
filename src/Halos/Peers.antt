-- ===== src/Halos/Peers.antt =====
-- Which ranks are listed as halo peers (halos/halo_peers.hpp).
use native.Mathlib.Decide.{dec_lt}
use sphexa.Base.{ℕ, zero, suc, ◌+◌, ◌-◌, ◌≤◌, ◌<◌, ◌≡◌, ◌≢◌, ◌↔◌, ap, arith, ltb→lt}
use sphexa.Domain.Ranges.{IndexPair}
use sphexa.Primitives.Sort.{In}
use sphexa.Focus.Peers.{halo, peer_flags_to_list}
use sphexa.Focus.Peers.Flags.{flag_peers-listed}
use sphexa.Halos.{is_halo, halo_peers}

module _ (layout : ℕ → ℕ) where
  -- A leaf that has particles.
  abbrev pub Occupied : ℕ → ℕ → Type 0
  Occupied start end = (i : ℕ) × (start ≤ i) × (i < end) × (layout i < layout (i + 1))

  Occupied-from :
      (d start end : ℕ) → start + d ≡ end → layout start < layout end → Occupied start end
  Occupied-from zero start end e h =
      absurd (omega (arith, ap layout {x = start} {y = end} (omega arith)))
  Occupied-from (suc d) start end e h = elim (dec_lt (layout start) (layout (start + 1))) [
    | yes rises ↦ (start, omega arith, omega arith, rises)
    | no flat ↦
        let (i, a, b, rises) = Occupied-from d (start + 1) end (omega arith) (omega arith) in
        (i, omega arith, b, rises)
  ]

  module _ (up : (i : ℕ) → layout i ≤ layout (i + 1)) where
    layout-le : (d i j : ℕ) → i + d ≡ j → layout i ≤ layout j
    layout-le zero i j e = omega (arith, ap layout {x = i} {y = j} (omega arith))
    layout-le (suc d) i j e = omega (arith, up i, layout-le d (i + 1) j (omega arith))

    -- The list of peers that halo_peers and peer_flags_to_list give has those other ranks, and
    -- no further, of which at least one leaf in the focus tree has particles. The layout does
    -- not fall, and the range of each rank does not end before it starts.
    pub halo_peers-listed :
        (my_rank num_ranks : ℕ) (f_assignment : ℕ → IndexPair)
        → ((rank : ℕ) → rank < num_ranks → (f_assignment rank).start ≤ (f_assignment rank).end)
        → (rank : ℕ)
        → In rank (peer_flags_to_list (halo_peers my_rank layout f_assignment num_ranks) halo)
          ↔ (rank < num_ranks)
            × (rank ≢ my_rank)
            × Occupied (f_assignment rank).start (f_assignment rank).end
    unfolding halo_peers is_halo
    halo_peers-listed my_rank num_ranks f_assignment inside rank =
        let (to, from) =
          flag_peers-listed my_rank (is_halo layout f_assignment) halo num_ranks rank in
        let start = (f_assignment rank).start in
        let end = (f_assignment rank).end in
        (
          λ h.
              let (here, ne, filled) = to h in
              (
                here,
                ne,
                Occupied-from (end - start) start end (omega (arith, inside rank here))
                    (ltb→lt (layout start) (layout end) filled),
              ),
          λ (here, ne, (i, a, b, rises)).
              let low = layout-le (i - start) start i (omega arith) in
              let high = layout-le (end - (i + 1)) (i + 1) end (omega arith) in
              from (here, ne, ground arith),
        )
