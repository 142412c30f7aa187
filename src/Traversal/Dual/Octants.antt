-- ===== src/Traversal/Dual/Octants.antt =====
-- The eight octants of a subdivided node: what they leave on the stack of dualTraversal, and the
-- calls made at once (traversal/traversal.hpp).
use mathlib.Core.List.{Perm, append_assoc, append-nil, perm_append_comm}
use mathlib.Core.List.Perm
use sphexa.Base.{
  ℕ, zero, suc, ◌+◌, ◌*◌, ◌≤◌, ◌<◌, ◌≡◌, ◌≢◌, inl, inr, refl, ap, sym, ◌∙◌, arith, Bool, true,
  false, ◌&&◌, Bool-cases, Option, none, some, List, [], ◌∷◌, ◌++◌, ◌==◌, ltb, length,
  length-append, if◌then◌else◌,
}
use sphexa.Traversal.Dual.{
  Call, m2l, p2p, NodePair, Interactions, is_leaf, interact, interact_then, target_loop,
  source_loop, subdivide,
}
use sphexa.Traversal.Dual.Visits.{target_first, below, meet, meet_each, visit}

module _ (child_offsets height : ℕ → ℕ) (continuation : ℕ → ℕ → Bool) where
  abbrev pub state : List NodePair → List Call → Interactions
  state stack calls = record { stack = stack; calls = calls }

  -- A pair that can be on the stack, of nodes whose heights are together at most `depth`.
  abbrev pub Open : ℕ → NodePair → Type 0
  Open depth (a, b) =
      (height a + height b ≤ depth) × (is_leaf child_offsets a && is_leaf child_offsets b ≡ false)

  abbrev pub AllOpen : ℕ → List NodePair → Type 0
  AllOpen depth [] = Unit {0}
  AllOpen depth (p ∷ ps) = Open depth p × AllOpen depth ps

  unfoldable pub visit_all : ℕ → List NodePair → List Call
  visit_all depth [] = []
  visit_all depth (p ∷ ps) = visit child_offsets continuation depth p ++ visit_all depth ps

  -- What the eight interactions leave: the pairs that are opened, on top of the stack, and the calls
  -- made at once.
  pub record Met (depth n octant : ℕ) (pairs : ℕ → NodePair) (stack : List NodePair)
      (calls : List Call) (result : Option Interactions) : Type 0 where
    pub opened : List NodePair
    pub made : List Call
    pub result_is : result ≡ some (state (opened ++ stack) (calls ++ made))
    pub few : length opened ≤ n
    pub opened-Open : AllOpen depth opened
    pub same : Perm (made ++ visit_all depth opened) (
        meet_each child_offsets continuation
          (visit child_offsets continuation depth)
          n
          octant
          pairs)

  visit_all-append :
      (depth : ℕ) (ps qs : List NodePair)
      → visit_all depth (ps ++ qs) ≡ visit_all depth ps ++ visit_all depth qs
  unfolding visit_all
  visit_all-append depth [] qs = refl
  visit_all-append depth (p ∷ ps) qs = rw (visit_all-append depth ps qs, append_assoc) refl

  AllOpen-append :
      (depth : ℕ) (ps : List NodePair) (p : NodePair)
      → AllOpen depth ps
      → Open depth p
      → AllOpen depth (ps ++ p ∷ [])
  AllOpen-append depth [] p all o = (o, tt)
  AllOpen-append depth (q ∷ ps) p (this, all) o = (this, AllOpen-append depth ps p all o)

  -- The two loops as one.
  unfoldable pub interact_all : ℕ → ℕ → (ℕ → NodePair) → Interactions → Option Interactions
  interact_all zero octant pairs s = some s
  interact_all (suc n) octant pairs s =
      interact_then child_offsets continuation (interact_all n (octant + 1) pairs)
        (interact child_offsets continuation (pairs octant).0 (pairs octant).1 s)

  interact_then-eq :
      (f g : Interactions → Option Interactions) (s : Option Interactions)
      → ((u : Interactions) → f u ≡ g u)
      → interact_then child_offsets continuation f s ≡ interact_then child_offsets continuation g s
  unfolding interact_then
  interact_then-eq f g none h = refl
  interact_then-eq f g (some u) h = h u

  target_loop-all :
      (n octant a b : ℕ) (s : Interactions)
      → target_loop child_offsets continuation n octant a b s
        ≡ interact_all n octant (λ o. (child_offsets a + o, b)) s
  unfolding target_loop interact_all
  target_loop-all zero octant a b s = refl
  target_loop-all (suc n) octant a b s = interact_then-eq _ _ _ (target_loop-all n (octant + 1) a b)

  source_loop-all :
      (n octant a b : ℕ) (s : Interactions)
      → source_loop child_offsets continuation n octant a b s
        ≡ interact_all n octant (λ o. (a, child_offsets b + o)) s
  unfolding source_loop interact_all
  source_loop-all zero octant a b s = refl
  source_loop-all (suc n) octant a b s = interact_then-eq _ _ _ (source_loop-all n (octant + 1) a b)

  module _
      (falls : (i octant : ℕ)
        → child_offsets i ≢ 0
        → octant < 8
        → height (child_offsets i + octant) < height i) where
    pub Open-tall :
        (a b : ℕ)
        → is_leaf child_offsets a && is_leaf child_offsets b ≡ false
        → 0 < height a + height b
    unfolding is_leaf
    Open-tall a b o = elim (Bool-cases (child_offsets a == 0)) [
      | inr inner ↦ omega (arith, falls a 0 (ground arith) (omega arith))
      | inl leaf ↦
          let inner : child_offsets b ≢ 0 = ground arith in
          omega (arith, falls b 0 inner (omega arith))
    ]

    -- One octant more, of which the pair is called at once or opened.
    module _ (depth n octant : ℕ) (pairs : ℕ → NodePair) (stack : List NodePair)
        (calls : List Call) where
      abbrev here : NodePair
      here = pairs octant

      abbrev Rest : List NodePair → List Call → Type 0
      Rest stack calls =
          Met depth n (octant + 1) pairs stack calls
            (interact_all n (octant + 1) pairs (state stack calls))

      abbrev Whole : Type 0
      Whole =
          Met depth (suc n) octant pairs stack calls
            (interact_all (suc n) octant pairs (state stack calls))

      Met-call :
          (c : Call)
          → interact child_offsets continuation here.0 here.1 (state stack calls)
            ≡ some (state stack (calls ++ c ∷ []))
          → meet child_offsets continuation (visit child_offsets continuation depth) here ≡ c ∷ []
          → Rest stack (calls ++ c ∷ [])
          → Whole
      unfolding interact_all interact_then meet_each
      Met-call c e f m = record {
        opened = m.opened;
        made = c ∷ m.made;
        result_is = rw (e, m.result_is, append_assoc) refl;
        few = omega (arith, m.few);
        opened-Open = m.opened-Open;
        same = rw f (Perm.cons c m.same);
      }

      Met-push :
          interact child_offsets continuation here.0 here.1 (state stack calls)
            ≡ some (state (here ∷ stack) calls)
          → meet child_offsets continuation (visit child_offsets continuation depth) here
            ≡ visit child_offsets continuation depth here
          → Open depth here
          → Rest (here ∷ stack) calls
          → Whole
      unfolding interact_all interact_then meet_each visit_all
      Met-push e f o m = record {
        opened = m.opened ++ here ∷ [];
        made = m.made;
        result_is = rw (e, m.result_is, append_assoc) refl;
        few = omega (arith, m.few, length-append m.opened (here ∷ []));
        opened-Open = AllOpen-append depth m.opened here m.opened-Open o;
        same =
            rw (f, visit_all-append depth m.opened (here ∷ []), append-nil, ← append_assoc)
              (Perm.trans
                (perm_append_comm (m.made ++ visit_all depth m.opened)
                  (visit child_offsets continuation depth here))
                (Perm.append_left (visit child_offsets continuation depth here) m.same));
      }

    pub Met-each :
        (depth n octant : ℕ) (pairs : ℕ → NodePair) (stack : List NodePair) (calls : List Call)
        → ((o : ℕ) → octant ≤ o → o < octant + n → height (pairs o).0 + height (pairs o).1 ≤ depth)
        → length stack + n + 7 * depth ≤ 134
        → Met depth n octant pairs stack calls (interact_all n octant pairs (state stack calls))
    unfolding interact_all meet_each visit_all meet interact
    Met-each depth zero octant pairs stack calls low room = record {
      opened = [];
      made = [];
      result_is = rw append-nil refl;
      few = omega arith;
      opened-Open = tt;
      same = Perm.refl [];
    }
    Met-each depth (suc n) octant pairs stack calls low room =
        let a = (pairs octant).0 in
        let b = (pairs octant).1 in
        let later : (o : ℕ)
            → octant + 1 ≤ o
            → o < octant + 1 + n
            → height (pairs o).0 + height (pairs o).1 ≤ depth =
          λ o h g. low o (omega arith) (omega arith) in
        let called = λ (c : Call).
          Met-each depth n (octant + 1) pairs stack (calls ++ c ∷ []) later (omega arith) in
        let small = low octant (omega arith) (omega arith) in
        elim (Bool-cases (continuation a b)) [
          | inr far ↦
              Met-call depth n octant pairs stack calls (m2l a b) (rw far refl) (rw far refl)
                (called (m2l a b))
          | inl near ↦ elim (Bool-cases (is_leaf child_offsets a && is_leaf child_offsets b)) [
            | inl leaves ↦
                Met-call depth n octant pairs stack calls (p2p a b) (rw (near, leaves) refl)
                  (rw (near, leaves) refl) (called (p2p a b))
            | inr inner ↦
                let free : ltb (length stack) 128 ≡ true = ground (arith, Open-tall a b inner) in
                Met-push depth n octant pairs stack calls (rw (near, inner, free) refl)
                  (rw (near, inner) refl) (small, inner)
                  (Met-each depth n (octant + 1) pairs (pairs octant ∷ stack) calls later
                    (omega arith))
          ]
        ]

    -- A node that can be divided has a child in each octant, which is less high.
    pub below-le :
        (a b depth octant : ℕ)
        → Open (suc depth) (a, b)
        → octant < 8
        → height (below child_offsets a b octant).0 + height (below child_offsets a b octant).1
          ≤ depth
    unfolding target_first is_leaf
    below-le a b depth octant (low, fit) h = elim (Bool-cases (target_first child_offsets a b)) [
      | inl first ↦
          let inner : child_offsets a ≢ 0 = ground arith in
          rw first (omega (arith, falls a octant inner h))
      | inr second ↦
          let inner : child_offsets b ≢ 0 = ground arith in
          rw second (omega (arith, falls b octant inner h))
    ]

    pub subdivide-all :
        (a b : ℕ) (s : Interactions)
        → is_leaf child_offsets a && is_leaf child_offsets b ≡ false
        → subdivide child_offsets continuation a b s ≡ interact_all 8 0 (below child_offsets a b) s
    unfolding subdivide target_first
    subdivide-all a b s fit =
        let pairs : Bool → ℕ → NodePair =
          λ first o. if first then (child_offsets a + o, b) else (a, child_offsets b + o) in
        let same : (first : Bool)
            → target_first child_offsets a b ≡ first
            → interact_all 8 0 (pairs first) s ≡ interact_all 8 0 (below child_offsets a b) s =
          λ first e. ap (λ (c : Bool). interact_all 8 0 (pairs c) s) (sym e) in
        elim (Bool-cases (target_first child_offsets a b)) [
          | inl first ↦
              let inner : is_leaf child_offsets a ≡ false = ground arith in
              rw (first, inner) (target_loop-all 8 0 a b s ∙ same true first)
          | inr second ↦
              let inner : is_leaf child_offsets b ≡ false = ground arith in
              rw (second, inner) (source_loop-all 8 0 a b s ∙ same false second)
        ]
