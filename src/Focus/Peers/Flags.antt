-- ===== src/Focus/Peers/Flags.antt =====
-- The flags that a loop over the ranks sets, and the list made of them (focus/peer_flags.hpp,
-- halos/halo_peers.hpp).
use native.Mathlib.Decide.{ℕ_discrete}
use sphexa.Base.{
  ℕ, zero, suc, ◌+◌, ◌≤◌, ◌<◌, ◌≡◌, ◌≢◌, ◌↔◌, inl, inr, refl, ◌∙◌, subst, arith, Bool, true, false,
  Bool-cases, List, [], ◌∷◌, ◌==◌, bit_and, bit_or, length, length-set, if◌then◌else◌,
  get_or-set_self, get_or-set_ne, replicate, length-replicate, get_or-replicate,
}
use sphexa.Base.Bits.{zero-bit_or, zero-bit_and}
use sphexa.Primitives.Search.{at}
use sphexa.Primitives.Sort.{In}
use sphexa.Focus.Peers.{
  PeerMask, focus, halo, mask_bits, flag_rank, peers_loop, flag_peers, list_loop,
  peer_flags_to_list,
}

-- The ranks with the bit, of the flags from a rank on.
abbrev Flagged : ℕ → List ℕ → ℕ → ℕ → Type 0
Flagged z flags mask rank =
    (i : ℕ) × (i < length flags) × (rank + i ≡ z) × (bit_and (at flags i) mask ≢ 0)

In-Flagged :
    (z : ℕ) (flags : List ℕ) (mask rank : ℕ)
    → In z (list_loop flags mask rank)
    → Flagged z flags mask rank
unfolding list_loop
In-Flagged z [] mask rank h = absurd h
In-Flagged z (flag ∷ flags) mask rank h = elim (Bool-cases (bit_and flag mask == 0)) [
  | inl off ↦ later (In-Flagged z flags mask (rank + 1) (rw off at h))
  | inr lit ↦ elim (rw lit at h) [
    | inl e ↦ (0, omega arith, omega arith, λ (no : bit_and flag mask ≡ 0). absurd (ground arith))
    | inr g ↦ later (In-Flagged z flags mask (rank + 1) g)
  ]
]
  where
    later : Flagged z flags mask (rank + 1) → Flagged z (flag ∷ flags) mask rank
    later (i, b, e, f) = (suc i, omega arith, omega arith, f)

Flagged-In :
    (flags : List ℕ) (mask rank i : ℕ)
    → i < length flags
    → bit_and (at flags i) mask ≢ 0
    → In (rank + i) (list_loop flags mask rank)
unfolding list_loop
Flagged-In [] mask rank i b f = absurd (omega arith)
Flagged-In (flag ∷ flags) mask rank zero b f =
    let lit : (bit_and flag mask == 0) ≡ false = ground arith in rw lit (inl (omega arith))
Flagged-In (flag ∷ flags) mask rank (suc i) b f =
    let rest =
      subst (λ z. In z (list_loop flags mask (rank + 1))) {x = rank + 1 + i} {y = rank + suc i}
        (omega arith) (Flagged-In flags mask (rank + 1) i (omega arith) f) in
    elim (Bool-cases (bit_and flag mask == 0)) [
      | inl off ↦ rw off rest
      | inr lit ↦ rw lit (inr rest)
    ]

bits_set : (m : PeerMask) → bit_and (mask_bits m) (mask_bits m) ≢ 0
unfolding mask_bits
bits_set focus e = absurd (omega arith)
bits_set halo e = absurd (omega arith)

module _ (my_rank : ℕ) (marked : ℕ → Bool) (mask : PeerMask) where
  abbrev loop : ℕ → ℕ → List ℕ → List ℕ
  loop = peers_loop my_rank marked mask

  abbrev round : ℕ → List ℕ → List ℕ
  round = flag_rank my_rank marked mask

  -- The flag of a rank.
  abbrev flag_of : ℕ → ℕ
  flag_of rank = if rank == my_rank then 0 else if marked rank then mask_bits mask else 0

  length-round : (rank : ℕ) (flags : List ℕ) → length (round rank flags) ≡ length flags
  unfolding flag_rank
  length-round rank flags =
      ground (arith, length-set flags rank (bit_or (at flags rank) (mask_bits mask)))

  round-other : (rank j : ℕ) (flags : List ℕ) → rank ≢ j → at (round rank flags) j ≡ at flags j
  unfolding flag_rank
  round-other rank j flags ne =
      ground (arith, get_or-set_ne flags rank j (bit_or (at flags rank) (mask_bits mask)) 0 ne)

  round-same :
      (rank : ℕ) (flags : List ℕ)
      → rank < length flags
      → at flags rank ≡ 0
      → at (round rank flags) rank ≡ flag_of rank
  unfolding flag_rank
  round-same rank flags h z =
      let m = mask_bits mask in
      let bit : bit_or (at flags rank) m ≡ m = rw z (zero-bit_or m) in
      ground (arith, get_or-set_self flags rank (bit_or (at flags rank) m) 0 h)

  length-loop : (left rank : ℕ) (flags : List ℕ) → length (loop left rank flags) ≡ length flags
  unfolding peers_loop
  length-loop zero rank flags = refl
  length-loop (suc left) rank flags =
      length-loop left (rank + 1) (round rank flags) ∙ length-round rank flags

  loop-before :
      (left rank j : ℕ) (flags : List ℕ) → j < rank → at (loop left rank flags) j ≡ at flags j
  unfolding peers_loop
  loop-before zero rank j flags h = refl
  loop-before (suc left) rank j flags h =
      loop-before left (rank + 1) j (round rank flags) (omega arith)
      ∙ round-other rank j flags (omega arith)

  loop-at :
      (left rank j : ℕ) (flags : List ℕ)
      → rank ≤ j
      → j < rank + left
      → j < length flags
      → at flags j ≡ 0
      → at (loop left rank flags) j ≡ flag_of j
  unfolding peers_loop
  loop-at zero rank j flags a b h z = absurd (omega arith)
  loop-at (suc left) rank j flags a b h z = elim (ℕ_discrete rank j) [
    | yes e ↦
        rw e (loop-before left (j + 1) j (round j flags) (omega arith) ∙ round-same j flags h z)
    | no ne ↦
        loop-at left (rank + 1) j (round rank flags) (omega arith) (omega arith)
          (omega (arith, length-round rank flags)) (round-other rank j flags ne ∙ z)
  ]

  lit_other :
      (rank : ℕ)
      → bit_and (flag_of rank) (mask_bits mask) ≢ 0
      → (rank ≢ my_rank) × (marked rank ≡ true)
  lit_other rank lit = elim (ℕ_discrete rank my_rank) [
    | yes e ↦
        let own : (rank == my_rank) ≡ true = ground arith in
        absurd (lit (rw own (zero-bit_and (mask_bits mask))))
    | no ne ↦ elim (Bool-cases (marked rank)) [
      | inl on ↦ (ne, on)
      | inr off ↦
          let other : (rank == my_rank) ≡ false = ground arith in
          absurd (lit (rw (other, off) (zero-bit_and (mask_bits mask))))
    ]
  ]

  module _ (num_ranks : ℕ) where
    length-flags : length (flag_peers my_rank marked mask num_ranks) ≡ num_ranks
    unfolding flag_peers
    length-flags =
        length-loop num_ranks 0 (replicate num_ranks 0) ∙ length-replicate {A = ℕ} num_ranks 0

    flags-at :
        (rank : ℕ)
        → rank < num_ranks
        → at (flag_peers my_rank marked mask num_ranks) rank ≡ flag_of rank
    unfolding flag_peers
    flags-at rank h =
        loop-at num_ranks 0 rank (replicate num_ranks 0) (omega arith) (omega arith)
          (omega (arith, length-replicate {A = ℕ} num_ranks 0))
          (get_or-replicate {A = ℕ} num_ranks rank 0)

    -- The list has the other ranks that are marked.
    pub flag_peers-listed :
        (rank : ℕ)
        → In rank (peer_flags_to_list (flag_peers my_rank marked mask num_ranks) mask)
          ↔ (rank < num_ranks) × (rank ≢ my_rank) × (marked rank ≡ true)
    unfolding peer_flags_to_list
    flag_peers-listed rank =
        let flags = flag_peers my_rank marked mask num_ranks in
        let bits = mask_bits mask in
        (
          λ h.
              let (i, b, e, lit) = In-Flagged rank flags bits 0 h in
              let same : i ≡ rank = omega arith in
              let inside : rank < num_ranks = omega (arith, length-flags) in
              let (ne, on) = lit_other rank (rw (same, flags-at rank inside) at lit) in
              (inside, ne, on),
          λ (h, ne, lit).
              let other : (rank == my_rank) ≡ false = ground arith in
              let bit : at flags rank ≡ bits = flags-at rank h ∙ rw (other, lit) refl in
              subst (λ z. In z (list_loop flags bits 0)) {x = 0 + rank} {y = rank} (omega arith)
                (Flagged-In flags bits 0 rank (omega (arith, length-flags))
                  (rw bit (bits_set mask))),
        )
