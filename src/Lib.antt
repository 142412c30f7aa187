-- ===== src/Lib.antt =====
-- SPH-EXA: the octree in cornerstone format and the domain decomposition built on it, the library
-- Cornerstone in domain/include/cstone.
--
-- Particles are sorted by keys of a space filling curve. An octree is the sorted array of the keys at
-- which its leaves start, and the end of the key space (Tree). A step of the update decides for each
-- leaf whether it is merged, kept or split, writes the new array by a prefix sum of these decisions,
-- and counts the particles of each leaf by binary search. The ranks of a distributed run each own a
-- range of the curve (Domain): particles are sent to the owner of their key, leaves and particles of
-- other ranks are kept as halos, and a layout gives each leaf its place in the particle arrays.
--
-- Base, and the files in Base/: numbers, lists, powers and binary operations that the parts share.
-- Key: the template parameter KeyType, 32- or 64-bit unsigned, with the constants and the wrap-around
--   of its arithmetic (tree/definitions.h).
-- Clz: countLeadingZeros and countTrailingZeros (primitives/clz.hpp).
-- Sfc: sizes and levels of nodes (Sfc/Node), keys with a placeholder bit (Sfc/Prefix), octal digits
--   (Sfc/Digit), the search for a node (Sfc/Locate), the nodes that span a range (Sfc/Span);
--   sfc/common.hpp. The Hilbert curve (Sfc/Hilbert); sfc/hilbert.hpp.
-- Primitives: std::lower_bound and std::upper_bound as primitives/stl.hpp writes them
--   (Primitives/Search), loops that write an array (Primitives/Loop), gather and scatter
--   (Primitives/Gather); std::sort and std::unique (Primitives/Sort).
-- Tree: what an octree is (Tree/Cornerstone), the rebalance step (Tree/Rebalance), the counts
--   (Tree/Counts), the update (Tree/Update), the octree around given keys (Tree/Spanning);
--   tree/csarray.hpp and tree/cs_util.hpp.
-- Octree: the octree with inner nodes, sorted by level (tree/octree.hpp).
-- Focus: the rebalance of the tree that is fine around a rank's own particles (focus/rebalance.hpp),
--   keys that a leaf array has to have as boundaries (Focus/Inject, focus/inject.hpp),
--   and the ranks that have finer leaves than the global tree (Focus/Peers, focus/peer_flags.hpp).
-- Domain: index ranges (Domain/Ranges), placement of received particles (Domain/Buffer), owners of
--   keys (Domain/Assignment), ranges of leaves and the layout (Domain/Layout); the headers of
--   domain/include/cstone/domain.
-- Traversal: the traversals of the linked octree with a criterion, of one node (Traversal) and of
--   pairs (Traversal/Dual); traversal/traversal.hpp.
-- Fields: which particle fields are in use, and the memory that they pass on
--   (fields/field_states.hpp).
-- Halos: the ranks from which halo particles are requested (halos/halo_peers.hpp).
-- Memory: several arrays in one buffer (util/pack_buffers.hpp, with util/reallocate.hpp and
--   primitives/math.hpp).
-- Examples: small inputs.
--
-- A function of the model has the name of the code's function in this language's spelling. Arrays that
-- are written are lists; an array that is only read is a function from indices, `at xs` for the list
-- xs. Pointers into an array are indices. Unsigned arithmetic wraps around where the code's does
-- (`% 2 ^ w`); signed indices are taken to be in range, and a signed value that may be negative is an
-- integer. The indices of findSearchBounds are signed integers of the width of a key: with 32-bit keys
-- they are in range for arrays of up to 2 ^ 30 keys. Loops that OpenMP runs in parallel write separate
-- elements and are run in order.
--
-- The loops of the binary search and of findSearchBounds run on fuel, the number of elements searched:
-- the range halves, or doubles, in each round. The loops of extractMarkedElements run on fuel, the
-- number of indices left, of which each round takes one where the flags do not fall. computeOctree
-- repeats the update on fuel: each update that changes the tree lowers a weight, which is at most the
-- square of the size of the key space (Tree/Update/Potential). singleTraversal runs on fuel, of which
-- it takes at most two rounds for each node, dualTraversal on fuel as well: a pair of nodes n levels
-- above the leaves, taken together, takes at most (8 ^ n - 1) / 7 rounds (Traversal/Dual/Room). The
-- stack of dualTraversal is a list, with the assertion on its length as an outcome. The loops from a
-- node up to an ancestor run on fuel, the index of the node: a parent comes before its children.
--
-- Not modelled: floating point (boxes, acceptance criteria, the bins of equal counts, the physics of
-- sph, ryoanji and physics), message passing, CUDA, the application in main, the sort of the linked
-- octree's nodes, the Morton curve, and the criteria of the traversals, which test boxes.
pub mod Base
pub mod Key
pub mod Clz
pub mod Sfc
pub mod Primitives
pub mod Fields
pub mod Traversal
pub mod Tree
pub mod Memory
pub mod Halos
pub mod Octree
pub mod Focus
pub mod Domain
pub mod Examples
