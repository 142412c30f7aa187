-- ===== src/Traversal/Dual/Room.antt =====
-- dualTraversal with its stack of 128 pairs makes the calls of the descent
-- (traversal/traversal.hpp).
use mathlib.Core.List.{Perm, append_assoc, append-nil}
use mathlib.Core.List.Perm
use native.Mathlib.Nat.{add_assoc, add-mul, suc-add, zero-add}
use sphexa.Base.{
  ℕ, zero, suc, ◌+◌, ◌-◌, ◌*◌, ◌≤◌, ◌<◌, ◌≡◌, ◌≢◌, inl, inr, refl, ap, ◌∙◌, arith, Bool, ◌&&◌,
  Bool-cases, some, List, [], ◌∷◌, ◌++◌, length, length-append, mul-le-mul,
}
use sphexa.Traversal.Dual.{
  Call, NodePair, Interactions, Run, finished, is_leaf, subdivide, resume, pop, dual_loop,
  dual_traversal,
}
use sphexa.Traversal.Dual.Visits.{below, visit, calls_for}
use sphexa.Traversal.Dual.Octants

-- Fuel for a pair: one round, and that of eight pairs.
unfoldable pub rounds : ℕ → ℕ
rounds zero = 0
rounds (suc depth) = 1 + 8 * rounds depth

module _ (child_offsets height : ℕ → ℕ) (continuation : ℕ → ℕ → Bool) where
  abbrev state : List NodePair → List Call → Interactions
  state = Octants.state child_offsets height continuation

  abbrev Open : ℕ → NodePair → Type 0
  Open = Octants.Open child_offsets height continuation

  abbrev AllOpen : ℕ → List NodePair → Type 0
  AllOpen = Octants.AllOpen child_offsets height continuation

  abbrev descent : ℕ → NodePair → List Call
  descent = visit child_offsets continuation

  abbrev visit_all : ℕ → List NodePair → List Call
  visit_all = Octants.visit_all child_offsets height continuation

  module _
      (falls : (i octant : ℕ)
        → child_offsets i ≢ 0
        → octant < 8
        → height (child_offsets i + octant) < height i) where
    abbrev loop : ℕ → Interactions → Run
    loop = dual_loop child_offsets continuation

    -- The loop takes these pairs off the stack and makes the calls for them.
    record Passed (most : ℕ) (ps stack : List NodePair) (calls total : List Call) : Type 0 where
      taken : ℕ
      after : List Call
      quick : taken ≤ most
      run :
          (fuel : ℕ)
          → loop (taken + fuel) (state (ps ++ stack) calls) ≡ loop fuel (state stack after)
      all : Perm after (calls ++ total)

    abbrev Passes : ℕ → Type 0
    Passes depth =
        (p : NodePair) (stack : List NodePair) (calls : List Call)
        → Open depth p
        → length stack + 7 * depth ≤ 133
        → Passed (rounds depth) (p ∷ []) stack calls (descent depth p)

    pass_all :
        (depth : ℕ)
        → Passes depth
        → (ps stack : List NodePair) (calls : List Call) → AllOpen depth ps
        → length ps + length stack + 7 * depth ≤ 134
        → Passed (length ps * rounds depth) ps stack calls (visit_all depth ps)
    unfolding Octants.visit_all
    pass_all depth pass [] stack calls fit room = record {
      taken = 0;
      after = calls;
      quick = omega arith;
      run = λ fuel. rw (zero-add fuel) refl;
      all = rw append-nil (Perm.refl calls);
    }
    pass_all depth pass (p ∷ ps) stack calls (here, fit) room =
        let one = pass p (ps ++ stack) calls here (omega (arith, length-append ps stack)) in
        let others = pass_all depth pass ps stack one.after fit (omega arith) in
        record {
          taken = one.taken + others.taken;
          after = others.after;
          quick = omega (arith, one.quick, others.quick, add-mul 1 (length ps) (rounds depth));
          run = λ fuel.
              rw (add_assoc one.taken others.taken fuel)
                (one.run (others.taken + fuel) ∙ others.run fuel);
          all =
              Perm.trans others.all
                (rw (← append_assoc) (Perm.append_right (visit_all depth ps) one.all));
        }

    one_round :
        (a b fuel : ℕ) (stack stack' : List NodePair) (calls calls' : List Call)
        → subdivide child_offsets continuation a b (state stack calls) ≡ some (state stack' calls')
        → loop (suc fuel) (state ((a, b) ∷ stack) calls) ≡ loop fuel (state stack' calls')
    unfolding dual_loop pop resume
    one_round a b fuel stack stack' calls calls' e = rw e refl

    stop : (fuel : ℕ) (calls : List Call) → loop (suc fuel) (state [] calls) ≡ finished calls
    unfolding dual_loop pop
    stop fuel calls = refl

    pass_one : (depth : ℕ) → Passes depth
    unfolding visit rounds
    pass_one zero (a, b) stack calls (low, fit) room =
        absurd (omega (arith, Octants.Open-tall child_offsets height continuation falls a b fit))
    pass_one (suc depth) (a, b) stack calls (low, fit) room =
        let m =
          Octants.Met-each child_offsets height continuation falls depth 8 0
            (below child_offsets a b) stack calls
            (λ o _ h.
              Octants.below-le child_offsets height continuation falls a b depth o (low, fit)
                (omega arith))
            (omega arith) in
        let others =
          pass_all depth (pass_one depth) m.opened stack (calls ++ m.made) m.opened-Open
            (omega (arith, m.few)) in
        record {
          taken = suc others.taken;
          after = others.after;
          quick = omega (arith, others.quick, mul-le-mul (length m.opened) 8 (rounds depth) m.few);
          run = λ fuel. rw (suc-add others.taken fuel) (
              one_round a b (others.taken + fuel) stack (m.opened ++ stack) calls (calls ++ m.made)
                (Octants.subdivide-all child_offsets height continuation falls a b
                    (state stack calls) fit
                  ∙ m.result_is)
              ∙ others.run fuel);
          all = Perm.trans others.all (rw append_assoc (Perm.append_left calls m.same));
        }

    -- dual_traversal ends without more than 128 pairs on its stack, and its calls of the
    -- endpoint actions are, in some order, those of a recursive descent from the pair a, b. If a
    -- and b are both leaves, these are one call of p2p if the pair satisfies the criterion, and
    -- none otherwise. If not, the first pair is divided without a test of the criterion, and
    -- each further pair that is met gets one call of m2l if it does not satisfy the criterion,
    -- one of p2p if it does and is of two leaves, and is divided otherwise. A height falls from
    -- each node to its children, those of a and b are together at most 19, and the fuel is more
    -- than (8 ^ n - 1) / 7 for that sum n.
    pub dual_traversal-visit :
        (a b fuel : ℕ)
        → height a + height b ≤ 19
        → rounds (height a + height b) < fuel
        → (calls : List Call) × (dual_traversal child_offsets continuation a b fuel
            ≡ finished calls)
          × Perm calls (calls_for child_offsets continuation (height a + height b) a b)
    unfolding dual_traversal calls_for
    dual_traversal-visit a b fuel low enough =
        elim (Bool-cases (is_leaf child_offsets a && is_leaf child_offsets b)) [
          | inl leaves ↦ rw leaves (_, refl, Perm.refl _)
          | inr fit ↦
              let p =
                pass_one (height a + height b) (a, b) [] [] (omega arith, fit) (omega arith) in
              let left = fuel - p.taken - 1 in
              let whole : fuel ≡ p.taken + suc left = omega (arith, p.quick) in
              rw fit (
                p.after,
                ap (λ f. loop f (state ((a, b) ∷ []) [])) whole
                    ∙ p.run (suc left)
                    ∙ stop left p.after,
                p.all,
              )
        ]
