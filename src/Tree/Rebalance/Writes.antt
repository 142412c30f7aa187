-- ===== src/Tree/Rebalance/Writes.antt =====
-- The loops of processNode (tree/csarray.hpp) on an array that is a part done and a part to do.
use mathlib.Core.List.{append_assoc}
use sphexa.Base.{
  ℕ, zero, suc, ◌+◌, ◌-◌, ◌*◌, ◌^◌, ◌≤◌, ◌<◌, ◌≡◌, refl, ap, sym, ◌∙◌, arith, List, [], ◌∷◌, ◌++◌,
  length, length-append, set, set-append, drop, true, false, ltb, ◌==◌, if◌then◌else◌,
}
use native.Mathlib.Nat.{mod-eq_of_lt}
use sphexa.Base.Pow.{pow8-lt, pow8_pos, pow8-add}
use sphexa.Key.{
  KeyType, key32, max_tree_level, wrap, wrap_sub, wrap_sub_exact, key_bits, key_space_lt,
}
use sphexa.Sfc.Node.Level.{tree_level-pow8, node_range-pow8}
use sphexa.Sfc.Node.Power.{log8ceil-pow8}
use sphexa.Sfc.Node.{node_range, log8ceil}
use sphexa.Tree.Cornerstone.Tiles.{rungs}
use sphexa.Tree.Rebalance.{write_siblings, process_node}

-- The keys of a node's descendants are written behind the part that is done.
pub write_siblings_lem :
    (t : KeyType) (node width left sibling index : ℕ) (front back : List ℕ)
    → length front ≡ index + sibling
    → left ≤ length back
    → node + (sibling + left) * width ≤ 2 ^ key_bits t
    → 0 < width
    → write_siblings t node width left sibling index (front ++ back)
      ≡ front ++ (rungs (node + sibling * width) width left ++ drop left back)
unfolding write_siblings rungs
write_siblings_lem t node width zero sibling index front back h r w p = refl
write_siblings_lem t node width (suc left) sibling index front [] h r w p = absurd (omega arith)
write_siblings_lem t node width (suc left) sibling index front (x ∷ back) h r w p =
    let key = node + sibling * width in
    let exact : wrap t key ≡ key = mod-eq_of_lt (omega arith) in
    let rest =
      write_siblings_lem t node width left (sibling + 1) index (front ++ key ∷ []) back
        (omega (arith, length-append front (key ∷ []))) (omega arith) (omega arith) p in
    let shift : node + (sibling + 1) * width ≡ key + width = omega arith in
    rw (
      exact,
      set-append front x back (index + sibling) key h,
      ← append_assoc front (key ∷ []) back,
      rest,
      shift,
      append_assoc front (key ∷ []) (rungs (key + width) width left ++ drop left back),
    )

no_shift : (node width : ℕ) → node + 0 * width ≡ node
no_shift node width = omega arith

-- The branches on the operation code, a power of 8.
on_pow8 {ℓ} :
    {A : Type ℓ} (e : ℕ) (one eight more none result : A)
    → (e ≡ 0 → one ≡ result)
    → (e ≡ 1 → eight ≡ result)
    → (1 < e → more ≡ result)
    → (if 8 ^ e == 1
        then one
        else if 8 ^ e == 8
        then eight
        else if ltb 8 (8 ^ e)
        then more
        else none)
      ≡ result
on_pow8 zero one eight more none result a b c = a refl
on_pow8 (suc zero) one eight more none result a b c = b refl
on_pow8 (suc (suc e)) one eight more none result a b c =
    let n1 : (8 ^ suc (suc e) == 1) ≡ false = ground (arith, pow8-lt 1 (suc (suc e))) in
    let n8 : (8 ^ suc (suc e) == 8) ≡ false = ground (arith, pow8-lt 1 (suc (suc e))) in
    let big : ltb 8 (8 ^ suc (suc e)) ≡ true = ground (arith, pow8-lt 1 (suc (suc e))) in
    rw (n1, n8, big) (c (omega arith))

write_one :
    (front back : List ℕ) (i v : ℕ)
    → length front ≡ i
    → 0 < length back
    → set (front ++ back) i v ≡ front ++ v ∷ drop 1 back
write_one front [] i v h p = absurd (omega arith)
write_one front (x ∷ back) i v h p = set-append front x back i v h

-- A node's step of the loop, where the node of 8 ^ k keys is to become 8 ^ e nodes.
pub process_node-split :
    (t : KeyType) (i k e : ℕ) (tree offsets : ℕ → ℕ) (front back : List ℕ)
    → k ≤ max_tree_level t
    → e ≤ k
    → e ≤ 4
    → tree (i + 1) ≡ tree i + 8 ^ k
    → tree (i + 1) ≤ 8 ^ max_tree_level t
    → offsets (i + 1) ≡ offsets i + 8 ^ e
    → length front ≡ offsets i
    → 8 ^ e ≤ length back
    → process_node t i tree offsets (front ++ back)
      ≡ front ++ (rungs (tree i) (8 ^ (k - e)) (8 ^ e) ++ drop (8 ^ e) back)
unfolding process_node rungs
process_node-split t i k e tree offsets front back b c d next fits f g h =
    let width : wrap_sub t (tree (i + 1)) (tree i) ≡ 8 ^ k =
      wrap_sub_exact t (tree (i + 1)) (tree i) (omega arith) (omega (arith, key_space_lt t))
      ∙ omega arith in
    let code : offsets (i + 1) - offsets i ≡ 8 ^ e = omega arith in
    let whole : 8 ^ k ≡ 8 ^ e * 8 ^ (k - e) =
      ap (λ (x : ℕ). 8 ^ x) (omega arith) ∙ pow8-add e (k - e) in
    let narrow : (x : ℕ) → x ≡ e → node_range t (max_tree_level t - k + x) ≡ 8 ^ (k - e) =
      λ x p. node_range-pow8 t (max_tree_level t - k + x) ∙ ap (λ (y : ℕ). 8 ^ y) (omega arith) in
    let written : write_siblings t (tree i) (8 ^ (k - e)) (8 ^ e) 0 (offsets i) (front ++ back)
        ≡ front ++ (rungs (tree i) (8 ^ (k - e)) (8 ^ e) ++ drop (8 ^ e) back) =
      rw (no_shift (tree i) (8 ^ (k - e))) at (
        write_siblings_lem t (tree i) (8 ^ (k - e)) (8 ^ e) 0 (offsets i) front back (omega arith) h
          (omega (arith, key_space_lt t, whole)) (pow8_pos (k - e))) in
    rw (width, tree_level-pow8 t k b, code)
      (on_pow8 e _ _ _ _ _
        (λ z. rw z (write_one front back (offsets i) (tree i) g (omega (arith, pow8_pos e))))
        (λ z. rw (narrow 1 (sym z)) (
          ap (λ (m : ℕ). write_siblings t (tree i) (8 ^ (k - e)) m 0 (offsets i) (front ++ back))
            (ap (λ (x : ℕ). 8 ^ x) (sym z))
          ∙ written))
        (λ z. rw (narrow (log8ceil key32 (8 ^ e)) (log8ceil-pow8 key32 e (omega arith))) written))

-- A node that is merged away writes nothing.
pub process_node-none :
    (t : KeyType) (i : ℕ) (tree offsets : ℕ → ℕ) (new_tree : List ℕ)
    → offsets (i + 1) ≡ offsets i
    → process_node t i tree offsets new_tree ≡ new_tree
unfolding process_node
process_node-none t i tree offsets new_tree h =
    let code : offsets (i + 1) - offsets i ≡ 0 = omega arith in rw code
