-- ===== src/Primitives/Loop.antt =====
-- The form of the loops that write an array: for (i = first; i < last; ++i) array[i] = f(i), where
-- `f` may read the array as it is by then.
use native.Mathlib.Decide.{ℕ_discrete}
use sphexa.Base.{
  ℕ, zero, suc, ◌+◌, ◌≤◌, ◌<◌, ◌≡◌, refl, ap, sym, ◌∙◌, arith, List, length, set, length-set,
  get_or-set_self, get_or-set_ne, ◌⊎◌, inl, inr,
}
use sphexa.Primitives.Search.{at}

-- `left` elements from the place `i` on.
unfoldable pub write_loop : (ℕ → List ℕ → ℕ) → ℕ → ℕ → List ℕ → List ℕ
write_loop f zero i array = array
write_loop f (suc left) i array = write_loop f left (i + 1) (set array i (f i array))

module _ (f : ℕ → List ℕ → ℕ) where
  pub length-write_loop :
      (left i : ℕ) (array : List ℕ) → length (write_loop f left i array) ≡ length array
  unfolding write_loop
  length-write_loop zero i array = refl
  length-write_loop (suc left) i array =
      length-write_loop left (i + 1) _ ∙ length-set array i (f i array)

  pub write_loop-outside :
      (left i j : ℕ) (array : List ℕ)
      → (j < i) ⊎ (i + left ≤ j)
      → at (write_loop f left i array) j ≡ at array j
  unfolding write_loop
  write_loop-outside zero i j array h = refl
  write_loop-outside (suc left) i j array (inl h) =
      write_loop-outside left (i + 1) j _ (inl (omega arith))
      ∙ get_or-set_ne array i j (f i array) 0 (omega arith)
  write_loop-outside (suc left) i j array (inr h) =
      write_loop-outside left (i + 1) j _ (inr (omega arith))
      ∙ get_or-set_ne array i j (f i array) 0 (omega arith)

  -- Where each element's value does not hang on the array.
  pub write_loop-at :
      (value : ℕ → ℕ) (left i j : ℕ) (array : List ℕ)
      → ((k : ℕ) (xs : List ℕ) → i ≤ k → k < i + left → f k xs ≡ value k)
      → i ≤ j
      → j < i + left
      → j < length array
      → at (write_loop f left i array) j ≡ value j
  unfolding write_loop
  write_loop-at value zero i j array e a b h = absurd (omega arith)
  write_loop-at value (suc left) i j array e a b h = elim (ℕ_discrete i j) [
    | yes g ↦
        ap (at (write_loop f left (i + 1) (set array i (f i array)))) (sym g)
        ∙ write_loop-outside left (i + 1) i _ (inl (omega arith))
        ∙ get_or-set_self array i (f i array) 0 (omega arith)
        ∙ e i array (omega arith) (omega arith)
        ∙ ap value g
    | no ne ↦
        write_loop-at value left (i + 1) j _ (λ k xs c d. e k xs (omega arith) (omega arith))
          (omega arith) (omega arith) (omega (arith, length-set array i (f i array)))
  ]
