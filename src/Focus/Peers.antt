-- ===== src/Focus/Peers.antt =====
-- The ranks from which a rank requests data (domain/include/cstone/focus/peer_flags.hpp), on the
-- CPU.
pub mod Includes
pub mod Flags
pub mod Listed
use sphexa.Base.{
  ℕ, zero, suc, ◌+◌, ◌-◌, Bool, true, false, not, List, [], ◌∷◌, bit_and, bit_or, ltb, ◌==◌,
  if◌then◌else◌, length, set, replicate,
}
use sphexa.Domain.Ranges.{IndexPair}
use sphexa.Primitives.Search.{at}

pub data PeerMask : Type 0 where
  focus : PeerMask
  halo : PeerMask

unfoldable pub mask_bits : PeerMask → ℕ
mask_bits focus = 1
mask_bits halo = 2

-- The elements from the index `start` up to the index `end`, which is not before it.
unfoldable pub elements : (ℕ → ℕ) → ℕ → ℕ → List ℕ
elements tree zero i = []
elements tree (suc left) i = tree i ∷ elements tree left (i + 1)

abbrev pub segment : (ℕ → ℕ) → ℕ → ℕ → List ℕ
segment tree start end = elements tree (end - start) start

-- The standard library's includes: whether the first range has all elements of the second.
unfoldable pub includes : List ℕ → List ℕ → Bool
includes [] [] = true
includes [] (y ∷ ys) = false
includes (x ∷ xs) [] = true
includes (x ∷ xs) (y ∷ ys) =
    let rest = includes xs (if ltb x y then y ∷ ys else ys) in if ltb y x then false else rest

unfoldable pub is_peer : List ℕ → List ℕ → Bool
is_peer glob foc = if ltb (length glob) (length foc) then true else not (includes glob foc)

-- The loop over the ranks, which sets a flag of those that are peers.
module _ (my_rank : ℕ) (marked : ℕ → Bool) (mask : PeerMask) where
  -- One round of the loop.
  unfoldable pub flag_rank : ℕ → List ℕ → List ℕ
  flag_rank rank peer_flags =
      if rank == my_rank
      then peer_flags
      else if marked rank
      then set peer_flags rank (bit_or (at peer_flags rank) (mask_bits mask))
      else peer_flags

  -- `left` ranks from `rank` on.
  unfoldable pub peers_loop : ℕ → ℕ → List ℕ → List ℕ
  peers_loop zero rank peer_flags = peer_flags
  peers_loop (suc left) rank peer_flags = peers_loop left (rank + 1) (flag_rank rank peer_flags)

  unfoldable pub flag_peers : ℕ → List ℕ
  flag_peers num_ranks = peers_loop num_ranks 0 (replicate num_ranks 0)

module _ (global_offsets : List ℕ) (focus_offsets : ℕ → IndexPair) (my_rank : ℕ)
    (global_tree focus_tree : ℕ → ℕ) where
  -- The test of the loop.
  unfoldable pub is_focus_peer : ℕ → Bool
  is_focus_peer rank =
      is_peer (segment global_tree (at global_offsets rank) (at global_offsets (rank + 1)))
        (segment focus_tree (focus_offsets rank).start (focus_offsets rank).end)

  unfoldable pub focus_peers : List ℕ
  focus_peers = flag_peers my_rank is_focus_peer focus (length global_offsets - 1)

-- The ranks from `rank` on whose flags have the bit.
unfoldable pub list_loop : List ℕ → ℕ → ℕ → List ℕ
list_loop [] mask rank = []
list_loop (flag ∷ peer_flags) mask rank =
    let rest = list_loop peer_flags mask (rank + 1) in
    if bit_and flag mask == 0 then rest else rank ∷ rest

unfoldable pub peer_flags_to_list : List ℕ → PeerMask → List ℕ
peer_flags_to_list peer_flags mask = list_loop peer_flags (mask_bits mask) 0
