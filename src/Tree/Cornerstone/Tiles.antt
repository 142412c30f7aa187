-- ===== src/Tree/Cornerstone/Tiles.antt =====
-- The same format for lists: the starts of adjoining cells, from one key to another.
use native.Mathlib.Numerals.{add-one}
use sphexa.Base.{
  ℕ, zero, suc, ◌+◌, ◌-◌, ◌*◌, ◌^◌, ◌≤◌, ◌<◌, ◌≡◌, refl, ap, ◌∙◌, arith, List, [], ◌∷◌, ◌++◌,
  length,
}
use sphexa.Base.Pow.{pow8-add}
use sphexa.Key.{KeyType, max_tree_level}
use sphexa.Primitives.Search.{at}
use sphexa.Tree.Cornerstone.{IsNode, IsOctree}

-- The keys of the list start cells that tile [lo, hi).
pub data Tiles (t : KeyType) : ℕ → List ℕ → ℕ → Type 0 where
  done : {lo : ℕ} → Tiles t lo [] lo
  tile :
      {lo hi : ℕ} {keys : List ℕ} (next : ℕ)
      → IsNode t lo next
      → Tiles t next keys hi
      → Tiles t lo (lo ∷ keys) hi

pub Tiles-append :
    {t : KeyType} {lo mid hi : ℕ} {xs ys : List ℕ}
    → Tiles t lo xs mid
    → Tiles t mid ys hi
    → Tiles t lo (xs ++ ys) hi
Tiles-append Tiles.done q = q
Tiles-append (Tiles.tile next n p) q = Tiles.tile next n (Tiles-append p q)

pub Tiles-one : {t : KeyType} {lo hi : ℕ} → IsNode t lo hi → Tiles t lo (lo ∷ []) hi
Tiles-one {hi} n = Tiles.tile hi n Tiles.done

-- `count` keys from `node` on, `width` apart.
unfoldable pub rungs : ℕ → ℕ → ℕ → List ℕ
rungs node width zero = []
rungs node width (suc count) = node ∷ rungs (node + width) width count

pub length-rungs : (node width count : ℕ) → length (rungs node width count) ≡ count
unfolding rungs
length-rungs node width zero = refl
length-rungs node width (suc count) = ap suc (length-rungs (node + width) width count)

-- A run of cells of one size.
rungs-Tiles :
    (t : KeyType) (k : ℕ)
    → k ≤ max_tree_level t
    → (count q node end : ℕ) → node ≡ q * 8 ^ k
    → node + count * 8 ^ k ≡ end
    → Tiles t node (rungs node (8 ^ k) count) end
unfolding rungs
rungs-Tiles t k b zero q node end e f = let g : node ≡ end = omega arith in rw (← g) Tiles.done
rungs-Tiles t k b (suc count) q node end e f =
    Tiles.tile (node + 8 ^ k) (k, q, b, e, refl)
      (rungs-Tiles t k b count (q + 1) (node + 8 ^ k) end (omega arith) (omega arith))

-- A cell splits into 8 ^ e cells of the size e levels further down.
pub split-Tiles :
    (t : KeyType) (k q e node : ℕ)
    → k ≤ max_tree_level t
    → e ≤ k
    → node ≡ q * 8 ^ k
    → Tiles t node (rungs node (8 ^ (k - e)) (8 ^ e)) (node + 8 ^ k)
split-Tiles t k q e node b h a =
    let whole : 8 ^ k ≡ 8 ^ e * 8 ^ (k - e) =
      ap (λ (x : ℕ). 8 ^ x) (omega arith) ∙ pow8-add e (k - e) in
    rungs-Tiles t (k - e) (omega arith) (8 ^ e) (q * 8 ^ e) node (node + 8 ^ k)
      (omega (arith, ap (λ (x : ℕ). q * x) whole)) (omega arith)

pub Tiles-first :
    {t : KeyType} {lo hi : ℕ} {keys : List ℕ} → Tiles t lo keys hi → at (keys ++ hi ∷ []) 0 ≡ lo
Tiles-first Tiles.done = refl
Tiles-first (Tiles.tile next n p) = refl

Tiles-last :
    {t : KeyType} {lo hi : ℕ} {keys : List ℕ}
    → Tiles t lo keys hi
    → at (keys ++ hi ∷ []) (length keys) ≡ hi
Tiles-last Tiles.done = refl
Tiles-last (Tiles.tile next n p) = Tiles-last p

Tiles-IsNode :
    {t : KeyType} {lo hi : ℕ} {keys : List ℕ}
    → Tiles t lo keys hi
    → (i : ℕ) → i < length keys
    → IsNode t (at (keys ++ hi ∷ []) i) (at (keys ++ hi ∷ []) (i + 1))
Tiles-IsNode Tiles.done i h = absurd (omega arith)
Tiles-IsNode (Tiles.tile next n p) zero h = rw (Tiles-first p) n
Tiles-IsNode (Tiles.tile next n p) (suc i) h =
    rw (add-one (suc i)) (rw (add-one i) at (Tiles-IsNode p i (omega arith)))

-- What tiles the key space is, with its end, an octree.
pub Tiles-IsOctree :
    {t : KeyType} {keys : List ℕ}
    → Tiles t 0 keys (8 ^ max_tree_level t)
    → IsOctree t (at (keys ++ 8 ^ max_tree_level t ∷ [])) (length keys)
Tiles-IsOctree tiles = record {
  starts = Tiles-first tiles;
  ends = Tiles-last tiles;
  node = Tiles-IsNode tiles;
}
