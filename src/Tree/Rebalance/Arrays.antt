-- ===== src/Tree/Rebalance/Arrays.antt =====
-- The arrays of decisions and of offsets, element by element, and the array that is built from
-- them (rebalanceDecision and rebalanceTree of tree/csarray.hpp).
use native.Mathlib.Numerals.{add-one}
use native.Mathlib.Decide.{ℕ_discrete}
use sphexa.Base.{
  ℕ, zero, suc, ◌+◌, ◌-◌, ◌≤◌, ◌<◌, ◌≡◌, ◌↔◌, refl, ap, sym, ◌∙◌, arith, Bool, true, false, List,
  [], ◌∷◌, ◌++◌, ◌==◌, if◌then◌else◌, length, set, length-set, get_or-set_self, get_or-set_ne,
  replicate, length-replicate, set-append, drop,
}
use sphexa.Key.{KeyType, n_nodes}
use sphexa.Primitives.Search.{at}
use sphexa.Tree.Cornerstone.{IsOctree, IsOctree-length}
use sphexa.Tree.Rebalance.{
  calculate_node_op, decision_loop, rebalance_decision, exclusive_scan, rebalance_tree,
}
use sphexa.Tree.Rebalance.Groups.{op}
use sphexa.Tree.Rebalance.Emitted.{
  emitted, total, length-emitted, total-offsets, process_loop-emitted,
}

keeps_flag : (x : ℕ) (c : Bool) → ((if x == 1 then c else false) ≡ true) ↔ ((x ≡ 1) × (c ≡ true))
keeps_flag x c = ground arith

module _ (t : KeyType) (tree counts : ℕ → ℕ) (bucket_size : ℕ) where
  abbrev decision : ℕ → ℕ
  decision i = calculate_node_op t tree i counts bucket_size

  pub length-decision_loop :
      (left i : ℕ) (ops : List ℕ) (c : Bool)
      → length (decision_loop t tree counts bucket_size left i ops c).0 ≡ length ops
  unfolding decision_loop
  length-decision_loop zero i ops c = refl
  length-decision_loop (suc left) i ops c =
      length-decision_loop left (i + 1) (set ops i (decision i)) _ ∙ length-set ops i (decision i)

  -- Elements before the loop's index are left alone.
  decision_loop-before :
      (left i j : ℕ) (ops : List ℕ) (c : Bool)
      → j < i
      → at (decision_loop t tree counts bucket_size left i ops c).0 j ≡ at ops j
  unfolding decision_loop
  decision_loop-before zero i j ops c h = refl
  decision_loop-before (suc left) i j ops c h =
      decision_loop-before left (i + 1) j (set ops i (decision i)) _ (omega arith)
      ∙ get_or-set_ne ops i j (decision i) 0 (omega arith)

  decision_loop-behind :
      (left i j : ℕ) (ops : List ℕ) (c : Bool)
      → i + left ≤ j
      → at (decision_loop t tree counts bucket_size left i ops c).0 j ≡ at ops j
  unfolding decision_loop
  decision_loop-behind zero i j ops c h = refl
  decision_loop-behind (suc left) i j ops c h =
      decision_loop-behind left (i + 1) j (set ops i (decision i)) _ (omega arith)
      ∙ get_or-set_ne ops i j (decision i) 0 (omega arith)

  pub decision_loop-at :
      (left i j : ℕ) (ops : List ℕ) (c : Bool)
      → i ≤ j
      → j < i + left
      → j < length ops
      → at (decision_loop t tree counts bucket_size left i ops c).0 j ≡ decision j
  unfolding decision_loop
  decision_loop-at zero i j ops c a b h = absurd (omega arith)
  decision_loop-at (suc left) i j ops c a b h = elim (ℕ_discrete i j) [
    | yes e ↦
        ap (at (decision_loop t tree counts bucket_size left (i + 1) (set ops i (decision i)) _).0)
          (sym e)
        ∙ decision_loop-before left (i + 1) i (set ops i (decision i)) _ (omega arith)
        ∙ get_or-set_self ops i (decision i) 0 (omega arith)
        ∙ ap decision e
    | no ne ↦
        decision_loop-at left (i + 1) j (set ops i (decision i)) _ (omega arith) (omega arith)
          (omega (arith, length-set ops i (decision i)))
  ]

  -- The flag is kept by the loop exactly if every decision is to keep the node.
  pub decision_loop-converged :
      (left i : ℕ) (ops : List ℕ) (c : Bool)
      → ((decision_loop t tree counts bucket_size left i ops c).1 ≡ true)
        ↔ ((c ≡ true) × ((j : ℕ) → i ≤ j → j < i + left → decision j ≡ 1))
  unfolding decision_loop
  decision_loop-converged zero i ops c = (λ e. (e, λ j a b. absurd (omega arith)), λ e. e.0)
  decision_loop-converged (suc left) i ops c =
      let (to, from) =
        decision_loop-converged left (i + 1) (set ops i (decision i))
          (if decision i == 1 then c else false) in
      let flag = keeps_flag (decision i) c in
      (
        λ e.
            let (f, all) = to e in
            (
              (flag.0 f).1,
              λ j a b. elim (ℕ_discrete i j) [
                | yes g ↦ sym (ap decision g) ∙ (flag.0 f).0
                | no ne ↦ all j (omega arith) (omega arith)
              ],
            ),
        λ (f, all). from (
          flag.1 (all i (omega arith) (omega arith), f),
          λ j a b. all j (omega arith) (omega arith),
        ),
      )

-- The scan starts at `acc` and rises by each element.
pub exclusive_scan-first :
    (acc : ℕ) (xs : List ℕ) → 0 < length xs → at (exclusive_scan acc xs) 0 ≡ acc
unfolding exclusive_scan
exclusive_scan-first acc [] h = absurd (omega arith)
exclusive_scan-first acc (x ∷ xs) h = refl

pub exclusive_scan-rises :
    (acc : ℕ) (xs : List ℕ) (i : ℕ)
    → suc i < length xs
    → at (exclusive_scan acc xs) (suc i) ≡ at (exclusive_scan acc xs) i + at xs i
unfolding exclusive_scan
exclusive_scan-rises acc [] i h = absurd (omega arith)
exclusive_scan-rises acc (x ∷ []) i h = absurd (omega arith)
exclusive_scan-rises acc (x ∷ y ∷ xs) zero h = refl
exclusive_scan-rises acc (x ∷ y ∷ xs) (suc i) h =
    exclusive_scan-rises (acc + x) (y ∷ xs) i (omega arith)

pub drop-replicate : (n a : ℕ) → drop n (replicate (n + 1) a) ≡ a ∷ []
drop-replicate zero a = refl
drop-replicate (suc n) a =
    let e : suc n + 1 ≡ suc (n + 1) = omega arith in rw e (drop-replicate n a)

-- The new tree: what the nodes emit, and the end of the old tree.
pub rebalance_tree-emitted :
    (t : KeyType) (tree node_ops : List ℕ) (counts : ℕ → ℕ) (bucket_size n : ℕ)
    (o : IsOctree t (at tree) n)
    → length tree ≡ suc n
    → length node_ops ≡ suc n
    → ((i : ℕ) → i < n → at node_ops i ≡ op t (at tree) n o counts bucket_size i)
    → rebalance_tree t tree node_ops
      ≡ emitted (at tree) (op t (at tree) n o counts bucket_size) n 0 ++ at tree n ∷ []
unfolding rebalance_tree
rebalance_tree-emitted t tree node_ops counts bucket_size n o a b e =
    let ops = op t (at tree) n o counts bucket_size in
    let offsets = at (exclusive_scan 0 node_ops) in
    let rises : (i : ℕ) → i < n → offsets (i + 1) ≡ offsets i + ops i = λ i h.
      rw (add-one i)
        (exclusive_scan-rises 0 node_ops i (omega arith) ∙ ap (λ (x : ℕ). offsets i + x) (e i h)) in
    let b' : n_nodes tree ≡ n = omega arith in
    let start : offsets 0 ≡ 0 = exclusive_scan-first 0 node_ops (omega arith) in
    let size : total ops n 0 ≡ offsets n =
      omega (arith, total-offsets ops offsets n rises n 0 n (omega arith) (omega arith)) in
    let filled =
      process_loop-emitted t (at tree) n o counts bucket_size offsets rises n 0 []
        (replicate (offsets n + 1) 0) (omega arith) (sym start)
        (omega (arith, length-replicate {A = ℕ} (offsets n + 1) 0)) in
    let last : offsets n + 1 - 1 ≡ offsets n = omega arith in
    rw (b', filled, size, last, drop-replicate (offsets n) 0)
      (set-append (emitted (at tree) ops n 0) 0 [] (offsets n) (at tree n)
        (length-emitted (at tree) ops n 0 ∙ size))

-- The same for the operations that rebalance_decision finds.
pub rebalance-emitted :
    (t : KeyType) (tree : List ℕ) (counts : ℕ → ℕ) (bucket_size : ℕ)
    (o : IsOctree t (at tree) (n_nodes tree))
    → rebalance_tree t tree
        (rebalance_decision t
          (at tree)
          counts
          (n_nodes tree)
          bucket_size
          (replicate {A = ℕ} (suc (n_nodes tree)) 0)).0
      ≡ emitted (at tree) (op t (at tree) (n_nodes tree) o counts bucket_size) (n_nodes tree) 0
        ++ at tree (n_nodes tree) ∷ []
unfolding rebalance_decision
rebalance-emitted t tree counts bucket_size o =
    let n = n_nodes tree in
    let blank : length (replicate {A = ℕ} (suc n) 0) ≡ suc n = length-replicate {A = ℕ} (suc n) 0 in
    rebalance_tree-emitted t tree _ counts bucket_size n o (IsOctree-length tree o)
      (length-decision_loop t (at tree) counts bucket_size n 0 _ true ∙ blank)
      (λ i h.
        decision_loop-at t (at tree) counts bucket_size n 0 i _ true (omega arith) (omega arith)
          (omega (arith, blank)))
