-- ===== src/Examples/Spanning.antt =====
-- Octrees around given keys, and keys of the Hilbert curve.
use sphexa.Base.{ℕ, zero, suc, ◌+◌, ◌≤◌, ◌<◌, ◌≡◌, refl, arith, List, [], ◌∷◌, inl, inr}
use sphexa.Examples.Tree.{root_tree, root_tree-IsOctree}
use sphexa.Focus.Inject.{inject_keys}
use sphexa.Focus.Inject.Octree.{inject_keys-IsOctree}
use sphexa.Key.{key32, key64, n_nodes}
use sphexa.Primitives.Search.{at}
use sphexa.Primitives.Sort.{In}
use sphexa.Sfc.Hilbert.{i_hilbert, decode_hilbert, i_hilbert2, decode_hilbert2}
use sphexa.Sfc.Hilbert.Plane.{decode_hilbert2-i_hilbert2}
use sphexa.Sfc.Hilbert.RoundTrip.{decode_hilbert-i_hilbert}
use sphexa.Sfc.Span.{span_sfc_range}
use sphexa.Sfc.Span.Cover.{span_sfc_range-Tiles}
use sphexa.Tree.Cornerstone.{IsOctree}
use sphexa.Tree.Cornerstone.Tiles.{Tiles}
use sphexa.Tree.Spanning.{compute_spanning_tree}
use sphexa.Tree.Spanning.Cover.{compute_spanning_tree-IsOctree}

decode_hilbert-i_hilbert_example :
    decode_hilbert key64 (i_hilbert key64 2097151 5 1000) ≡ (2097151, 5, 1000)
decode_hilbert-i_hilbert_example =
    decode_hilbert-i_hilbert key64 2097151 5 1000 (omega arith) (omega arith) (omega arith)

decode_hilbert2-i_hilbert2_example :
    decode_hilbert2 key64 (i_hilbert2 key64 2097151 5) ≡ (2097151, 5)
decode_hilbert2-i_hilbert2_example =
    decode_hilbert2-i_hilbert2 key64 2097151 5 (omega arith) (omega arith)

span_sfc_range-Tiles_example : Tiles key32 1 (span_sfc_range key32 1 482).output 482
span_sfc_range-Tiles_example = span_sfc_range-Tiles key32 1 482 (omega arith) (omega arith)

abbrev three_ranks : List ℕ
three_ranks = 0 ∷ 1 ∷ 482 ∷ 1073741824 ∷ []

three_ranks_up : (j : ℕ) → j < 3 → at three_ranks j ≤ at three_ranks (j + 1)
three_ranks_up zero h = omega arith
three_ranks_up (suc zero) h = omega arith
three_ranks_up (suc (suc zero)) h = omega arith
three_ranks_up (suc (suc (suc j))) h = absurd (omega arith)

compute_spanning_tree-IsOctree_example :
    let tree = compute_spanning_tree key32 three_ranks in
    IsOctree key32 (at tree) (n_nodes tree)
    × ((j : ℕ) → j < 4 → (i : ℕ) × (i ≤ n_nodes tree) × (at tree i ≡ at three_ranks j))
compute_spanning_tree-IsOctree_example =
    compute_spanning_tree-IsOctree key32 three_ranks (omega arith) refl refl three_ranks_up

abbrev two_keys : List ℕ
two_keys = 482 ∷ 1 ∷ []

two_keys-le : (z : ℕ) → In z two_keys → z ≤ 1073741824
two_keys-le z (inl e) = omega arith
two_keys-le z (inr (inl e)) = omega arith
two_keys-le z (inr (inr h)) = absurd h

inject_keys-IsOctree_example :
    let new = inject_keys key32 root_tree two_keys in
    IsOctree key32 (at new) (n_nodes new)
    × ((z : ℕ) → In z root_tree → In z new)
    × ((z : ℕ) → In z two_keys → In z new)
inject_keys-IsOctree_example =
    inject_keys-IsOctree key32 root_tree two_keys root_tree-IsOctree two_keys-le
