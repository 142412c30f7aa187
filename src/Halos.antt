-- ===== src/Halos.antt =====
-- The ranks from which a rank requests halo particles
-- (domain/include/cstone/halos/halo_peers.hpp).
pub mod Peers
use sphexa.Base.{ℕ, List, Bool, ltb}
use sphexa.Domain.Ranges.{IndexPair}
use sphexa.Focus.Peers.{halo, flag_peers}

-- The test of the loop: the leaves of the rank have particles.
unfoldable pub is_halo : (ℕ → ℕ) → (ℕ → IndexPair) → ℕ → Bool
is_halo layout f_assignment rank =
    ltb (layout (f_assignment rank).start) (layout (f_assignment rank).end)

-- The assignment is of `num_ranks` ranks.
unfoldable pub halo_peers : ℕ → (ℕ → ℕ) → (ℕ → IndexPair) → ℕ → List ℕ
halo_peers my_rank layout f_assignment num_ranks =
    flag_peers my_rank (is_halo layout f_assignment) halo num_ranks
