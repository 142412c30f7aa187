-- ===== src/Examples/Peers.antt =====
-- Three ranks of two leaves each, of which the second is finer and the third coarser in the
-- focus tree.
use sphexa.Base.{ℕ, zero, suc, ◌+◌, ◌*◌, ◌≤◌, ◌<◌, ◌≡◌, ◌≢◌, ◌↔◌, refl, ap, arith, List, [], ◌∷◌}
use sphexa.Domain.Ranges.{IndexPair}
use sphexa.Primitives.Search.{at}
use sphexa.Primitives.Sort.{In}
use sphexa.Focus.Peers.{
  focus, mask_bits, elements, includes, is_peer, flag_rank, peers_loop, flag_peers, is_focus_peer,
  halo, focus_peers, list_loop, peer_flags_to_list,
}
use sphexa.Halos.{halo_peers}
use sphexa.Halos.Peers.{Occupied, halo_peers-listed}
use sphexa.Focus.Peers.Listed.{IsGlobal, IsResolved, focus_peers-listed}

abbrev global_offsets : List ℕ
global_offsets = 0 ∷ 2 ∷ 4 ∷ 6 ∷ []

abbrev focus_offsets : ℕ → IndexPair
focus_offsets zero = record { start = 0; end = 1 }
focus_offsets (suc zero) = record { start = 1; end = 5 }
focus_offsets (suc (suc rank)) = record { start = 5; end = 6 }

abbrev global_tree : ℕ → ℕ
global_tree i = 2 * i

-- 0, 4, 5, 6, 7, 8, 12, ...
abbrev focus_tree : ℕ → ℕ
focus_tree zero = 0
focus_tree (suc zero) = 4
focus_tree (suc (suc zero)) = 5
focus_tree (suc (suc (suc zero))) = 6
focus_tree (suc (suc (suc (suc zero)))) = 7
focus_tree (suc (suc (suc (suc (suc i))))) = 8 + 4 * i

focus_up : (j : ℕ) → focus_tree j < focus_tree (j + 1)
focus_up zero = omega arith
focus_up (suc zero) = omega arith
focus_up (suc (suc zero)) = omega arith
focus_up (suc (suc (suc zero))) = omega arith
focus_up (suc (suc (suc (suc zero)))) = omega arith
focus_up (suc (suc (suc (suc (suc i))))) =
    let next : suc (suc (suc (suc (suc i)))) + 1 ≡ suc (suc (suc (suc (suc (suc i))))) =
      omega arith in
    let key = ap focus_tree next in omega arith

global_inside :
    (rank : ℕ)
    → rank < 3
    → (at global_offsets rank ≤ at global_offsets (rank + 1)) × (at global_offsets (rank + 1) ≤ 6)
global_inside zero h = (omega arith, omega arith)
global_inside (suc zero) h = (omega arith, omega arith)
global_inside (suc (suc zero)) h = (omega arith, omega arith)
global_inside (suc (suc (suc rank))) h = absurd (omega arith)

focus_inside :
    (rank : ℕ)
    → rank < 3
    → ((focus_offsets rank).start ≤ (focus_offsets rank).end) × ((focus_offsets rank).end ≤ 6)
focus_inside zero h = (omega arith, omega arith)
focus_inside (suc zero) h = (omega arith, omega arith)
focus_inside (suc (suc rank)) h = (omega arith, omega arith)

focus_ends :
    (rank : ℕ)
    → rank < 3
    → (focus_offsets rank).start < (focus_offsets rank).end
    → IsGlobal global_offsets focus_offsets 0 global_tree focus_tree rank
        (focus_tree (focus_offsets rank).end)
focus_ends zero h g = (2, omega arith, omega arith, refl)
focus_ends (suc zero) h g = (4, omega arith, omega arith, refl)
focus_ends (suc (suc zero)) h g = (6, omega arith, omega arith, refl)
focus_ends (suc (suc (suc rank))) h g = absurd (omega arith)

abbrev finer_rank : ℕ
finer_rank = 1

focus_peers-listed_example :
    In finer_rank
      (peer_flags_to_list (focus_peers global_offsets focus_offsets 0 global_tree focus_tree) focus)
    ↔ (finer_rank < 3)
      × (finer_rank ≢ 0)
      × ¬ IsResolved global_offsets focus_offsets 0 global_tree focus_tree finer_rank
focus_peers-listed_example =
    focus_peers-listed global_offsets focus_offsets 0 global_tree focus_tree 6 6
      (λ j h. omega arith) (λ j h. focus_up j) global_inside focus_inside focus_ends finer_rank

-- Only the second rank has a leaf that the global tree cannot give.
second_rank :
    peer_flags_to_list (focus_peers global_offsets focus_offsets 0 global_tree focus_tree) focus
    ≡ 1 ∷ []
unfolding peer_flags_to_list list_loop focus_peers flag_peers peers_loop flag_rank is_focus_peer
    is_peer includes elements mask_bits
second_rank = refl

focus_ordered : (rank : ℕ) → rank < 3 → (focus_offsets rank).start ≤ (focus_offsets rank).end
focus_ordered rank h = (focus_inside rank h).0

-- Each leaf has two particles.
abbrev last_rank : ℕ
last_rank = 2

halo_peers-listed_example :
    In last_rank (peer_flags_to_list (halo_peers 0 global_tree focus_offsets 3) halo)
    ↔ (last_rank < 3) × (last_rank ≢ 0) × Occupied global_tree 5 6
halo_peers-listed_example =
    halo_peers-listed global_tree (λ i. omega arith) 0 3 focus_offsets focus_ordered last_rank
