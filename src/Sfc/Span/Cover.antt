-- ===== src/Sfc/Span/Cover.antt =====
-- What spanSfcRange stores are the starts of adjoining nodes from one key to the other
-- (sfc/common.hpp).
use native.Mathlib.Decide.{dec_lt}
use native.Mathlib.Nat.{
  mod-eq_of_lt, mul-div_cancel, div-mul-le_self, div-div-eq-div-mul, lt-div-mul-add, mul_comm,
  mul_assoc, add-mul,
}
use sphexa.Base.{
  ℕ, zero, suc, ◌+◌, ◌-◌, ◌*◌, ◌/◌, ◌%◌, ◌^◌, ◌≤◌, ◌<◌, ◌≡◌, refl, ap, sym, ◌∙◌, arith, [], ◌∷◌,
  ◌++◌, bit_xor, mul-le-mul, le_of_mul-le, subst,
}
use sphexa.Base.Pow.{pow8_pos, pow8-add, pow8-suc, mul-pow8-suc}
use sphexa.Key.{KeyType, max_tree_level, wrap, key_space_lt, unused_bits, key_bits, key_bits_parts}
use sphexa.Base.Bits.{bit_xor_self}
use sphexa.Clz.{count_leading_zeros, count_leading_zeros-zero}
use sphexa.Sfc.Node.{octal_power}
use sphexa.Sfc.Node.Level.{octal_power-pow8}
use sphexa.Sfc.Prefix.{last_nz_place}
use sphexa.Sfc.Digit.{octal_digit}
use sphexa.Sfc.Digit.Box.{octal_digit-mod}
use sphexa.Sfc.Span.{Span, emit, add_digits, span_up, span_down, span_sfc_range}
use sphexa.Sfc.Span.Places.{
  IsMultiple, IsMultiple-le, last_nz_place-IsMultiple, first_place, div-le_mono,
}
use sphexa.Tree.Cornerstone.Tiles.{Tiles, Tiles-append, Tiles-one}

eight : (x k : ℕ) → x * 8 * 8 ^ k ≡ x * 8 ^ suc k
eight x k =
    ap (λ (y : ℕ). y * 8 ^ k) (mul_comm x 8) ∙ mul_assoc 8 x (8 ^ k) ∙ sym (mul-pow8-suc x k)

module _ (t : KeyType) (lo : ℕ) where
  abbrev m : ℕ
  m = max_tree_level t

  -- So far the nodes from `lo` to `a` are stored.
  abbrev Covers : Span → Type 0
  Covers span = Tiles t lo span.output span.a

  -- `count` nodes of 8 ^ k keys more.
  emit-Covers :
      (pos count k : ℕ) (span : Span)
      → m - pos ≡ k
      → IsMultiple k span.a
      → span.a + count * 8 ^ k ≤ 8 ^ m
      → Covers span
      → Covers (emit t pos count span) × ((emit t pos count span).a ≡ span.a + count * 8 ^ k)
  unfolding emit
  emit-Covers pos zero k span e (q, f) h c = (c, omega arith)
  emit-Covers pos (suc count) k span e (q, f) h c =
      let power : octal_power t pos ≡ 8 ^ k = octal_power-pow8 t pos ∙ ap (λ (x : ℕ). 8 ^ x) e in
      let next : wrap t (span.a + octal_power t pos) ≡ span.a + 8 ^ k =
        ap (λ (x : ℕ). wrap t (span.a + x)) power ∙ mod-eq_of_lt (omega (arith, key_space_lt t)) in
      let more = Tiles-append c (Tiles-one {hi = span.a + 8 ^ k} (k, q, omega arith, f, refl)) in
      let (tiles, last) =
        emit-Covers pos count k
          (record {
            output = span.output ++ span.a ∷ [];
            num_values = span.num_values;
            a = wrap t (span.a + octal_power t pos);
          })
          e (q + 1, next ∙ omega arith) (omega arith) (rw next more) in
      (tiles, last ∙ omega arith)

  add_digits-Covers :
      (pos count k : ℕ) (span : Span)
      → m - pos ≡ k
      → IsMultiple k span.a
      → span.a + count * 8 ^ k ≤ 8 ^ m
      → Covers span
      → Covers (add_digits t pos count span)
        × ((add_digits t pos count span).a ≡ span.a + count * 8 ^ k)
  unfolding add_digits
  add_digits-Covers pos count k span e q h c =
      emit-Covers pos count k
        (record { output = span.output; num_values = span.num_values + count; a = span.a }) e q h c

  -- The digit that is added leads to the next multiple of 8.
  round_to_8 : (q e : ℕ) → q ≤ e * 8 → (q + (8 - q % 8) % 8 ≡ (q + 7) / 8 * 8) × ((q + 7) / 8 ≤ e)
  round_to_8 q e h = (omega arith, omega arith)

  -- The steps up end at the first multiple of the node size at the place `first`.
  span_up-Covers :
      (first left c : ℕ) (span : Span)
      → first + left ≤ m
      → IsMultiple (m - (first + left)) span.a
      → span.a ≤ c * 8 ^ (m - first)
      → c * 8 ^ (m - first) ≤ 8 ^ m
      → Covers span
      → let up = span_up t first left span in
        Covers up × IsMultiple (m - first) up.a × (span.a ≤ up.a) × (up.a ≤ c * 8 ^ (m - first))
  unfolding span_up
  span_up-Covers first zero c span b q h top cov =
      let e : first + 0 ≡ first = omega arith in
      (cov, subst (λ x. IsMultiple (m - x) span.a) e q, omega arith, h)
  span_up-Covers first (suc left) c span b (q, f) h top cov =
      let pos = first + suc left in
      let k = m - pos in
      let count = (8 - octal_digit t span.a pos) % 8 in
      let digit : octal_digit t span.a pos ≡ q % 8 =
        octal_digit-mod t span.a pos
        ∙ ap (λ (x : ℕ). x / 8 ^ k % 8) f
        ∙ ap (λ (x : ℕ). x % 8) (mul-div_cancel q (pow8_pos k)) in
      let whole : c * 8 ^ (m - first) ≡ c * 8 ^ left * 8 * 8 ^ k =
        ap (λ (x : ℕ). c * 8 ^ x) (omega arith)
        ∙ ap (λ (x : ℕ). c * x) (pow8-add (suc left) k)
        ∙ sym (mul_assoc c (8 ^ suc left) (8 ^ k))
        ∙ ap (λ (x : ℕ). x * 8 ^ k) (omega (arith, mul-pow8-suc c left)) in
      let bound : q ≤ c * 8 ^ left * 8 =
        le_of_mul-le q (c * 8 ^ left * 8) (8 ^ k) (pow8_pos k) (omega arith) in
      let (rounded, within) = round_to_8 q (c * 8 ^ left) bound in
      let reach : span.a + count * 8 ^ k ≡ (q + 7) / 8 * 8 ^ suc k =
        ap (λ (x : ℕ). x + count * 8 ^ k) f
        ∙ sym (add-mul q count (8 ^ k))
        ∙ ap (λ (x : ℕ). (q + (8 - x) % 8) * 8 ^ k) digit
        ∙ ap (λ (x : ℕ). x * 8 ^ k) rounded
        ∙ eight ((q + 7) / 8) k in
      let up_k : m - (first + left) ≡ suc k = omega arith in
      let limit : (q + 7) / 8 * 8 ^ suc k ≤ c * 8 ^ (m - first) = omega (
        arith,
        mul-le-mul ((q + 7) / 8) (c * 8 ^ left) (8 ^ suc k) within,
        eight (c * 8 ^ left) k,
      ) in
      let (tiles, last) = add_digits-Covers pos count k span refl (q, f) (omega arith) cov in
      let (covered, aligned, above, below) =
        span_up-Covers first left c (add_digits t pos count span) (omega arith)
          (rw up_k ((q + 7) / 8, last ∙ reach)) (omega arith) top tiles in
      (covered, aligned, omega arith, below)

  by_eights : (x k : ℕ) → x / 8 ^ k / 8 ≡ x / 8 ^ suc k
  by_eights x k = div-div-eq-div-mul x (8 ^ k) 8 ∙ ap (λ (y : ℕ). x / y) (omega (arith, pow8-suc k))

  -- One step down leads to the multiple of the node size that is next below `b`.
  down_step :
      (b pos k : ℕ) (span : Span)
      → m - pos ≡ k
      → IsMultiple k span.a
      → span.a ≤ b
      → span.a / 8 ^ suc k ≡ b / 8 ^ suc k
      → b ≤ 8 ^ m
      → Covers span
      → let next = add_digits t pos (octal_digit t b pos - octal_digit t span.a pos) span in
        Covers next × (next.a ≡ b / 8 ^ k * 8 ^ k)
  down_step b pos k span is_k (q, f) h agree top cov =
      let r = b / 8 ^ k in
      let count = octal_digit t b pos - octal_digit t span.a pos in
      let here : span.a / 8 ^ k ≡ q = ap (λ (x : ℕ). x / 8 ^ k) f ∙ mul-div_cancel q (pow8_pos k) in
      let same : q / 8 ≡ r / 8 =
        ap (λ (x : ℕ). x / 8) (sym here) ∙ by_eights span.a k ∙ agree ∙ sym (by_eights b k) in
      let low : q ≤ r = rw here at (div-le_mono span.a b (8 ^ k) (pow8_pos k) h) in
      let digit_b : octal_digit t b pos ≡ r % 8 =
        octal_digit-mod t b pos ∙ ap (λ (x : ℕ). b / 8 ^ x % 8) is_k in
      let digit_a : octal_digit t span.a pos ≡ q % 8 =
        octal_digit-mod t span.a pos
        ∙ ap (λ (x : ℕ). span.a / 8 ^ x % 8) is_k
        ∙ ap (λ (x : ℕ). x % 8) here in
      let digits : q + count ≡ r = omega arith in
      let reach : span.a + count * 8 ^ k ≡ r * 8 ^ k =
        ap (λ (x : ℕ). x + count * 8 ^ k) f
        ∙ sym (add-mul q count (8 ^ k))
        ∙ ap (λ (x : ℕ). x * 8 ^ k) digits in
      let below = div-mul-le_self b (8 ^ k) in
      let (tiles, last) = add_digits-Covers pos count k span is_k (q, f) (omega arith) cov in
      (tiles, last ∙ reach)

  -- The steps down end at `b`, whose digits above the first place are those of `a`.
  span_down-Covers :
      (b left pos : ℕ) (span : Span)
      → pos + left ≤ m
      → IsMultiple (m - pos) span.a
      → span.a ≤ b
      → span.a / 8 ^ suc (m - pos) ≡ b / 8 ^ suc (m - pos)
      → IsMultiple (m - (pos + left)) b
      → b ≤ 8 ^ m
      → Covers span
      → let down = span_down t b (suc left) pos span in Covers down × (down.a ≡ b)
  unfolding span_down
  span_down-Covers b zero pos span room a h agree target top cov =
      let k = m - pos in
      let (tiles, last) = down_step b pos k span refl a h agree top cov in
      let end : pos + 0 ≡ pos = omega arith in
      let (p, e) = subst (λ x. IsMultiple (m - x) b) end target in
      let exact : b / 8 ^ k * 8 ^ k ≡ b =
        ap (λ (x : ℕ). x * 8 ^ k) (ap (λ (x : ℕ). x / 8 ^ k) e ∙ mul-div_cancel p (pow8_pos k))
        ∙ sym e in
      (tiles, last ∙ exact)
  span_down-Covers b (suc left) pos span room a h agree target top cov =
      let k = m - pos in
      let (tiles, last) = down_step b pos k span refl a h agree top cov in
      let next = add_digits t pos (octal_digit t b pos - octal_digit t span.a pos) span in
      let up_k : k ≡ suc (m - (pos + 1)) = omega arith in
      let level : pos + suc left ≡ pos + 1 + left = omega arith in
      let same_digits : next.a / 8 ^ k ≡ b / 8 ^ k =
        ap (λ (x : ℕ). x / 8 ^ k) last ∙ mul-div_cancel (b / 8 ^ k) (pow8_pos k) in
      span_down-Covers b left (pos + 1) next (omega arith)
        (IsMultiple-le (m - (pos + 1)) k next.a (omega arith) (b / 8 ^ k, last))
        (omega (arith, div-mul-le_self b (8 ^ k)))
        (subst (λ x. next.a / 8 ^ x ≡ b / 8 ^ x) up_k same_digits)
        (subst (λ x. IsMultiple (m - x) b) level target) top tiles

-- The last place of `b` is not before the first place in which it differs from a lower key.
last_after_first :
    (t : KeyType) (a b first : ℕ)
    → first ≤ max_tree_level t
    → a / 8 ^ suc (max_tree_level t - first) ≡ b / 8 ^ suc (max_tree_level t - first)
    → a / 8 ^ (max_tree_level t - first) < b / 8 ^ (max_tree_level t - first)
    → IsMultiple (max_tree_level t - last_nz_place t b) b
    → first ≤ last_nz_place t b
last_after_first t a b first place agree less end = elim (dec_lt (last_nz_place t b) first) [
  | no after ↦ omega arith
  | yes before ↦
      let k = max_tree_level t - first in
      let (p, e) =
        IsMultiple-le (suc k) (max_tree_level t - last_nz_place t b) b (omega arith) end in
      let whole : b / 8 ^ k ≡ p * 8 =
        ap (λ (x : ℕ). x / 8 ^ k) (e ∙ sym (eight p k)) ∙ mul-div_cancel (p * 8) (pow8_pos k) in
      absurd (omega (arith, by_eights t a a k, by_eights t b b k))
]

-- The case of two different keys.
cover :
    (t : KeyType) (a b : ℕ)
    → a < b
    → b ≤ 8 ^ max_tree_level t
    → Tiles t a (span_sfc_range t a b).output b
unfolding span_sfc_range
cover t a b h top =
    let m = max_tree_level t in
    let first = (count_leading_zeros t (bit_xor a b) + 3 - unused_bits t) / 3 in
    let k = m - first in
    let (place, agree, less) = first_place t a b h top in
    let (low_a, end_a) = last_nz_place-IsMultiple t a (omega arith) in
    let (low_b, end_b) = last_nz_place-IsMultiple t b top in
    let left = last_nz_place t a - first in
    let down = last_nz_place t b - first in
    let inside = last_after_first t a b first place agree less end_b in
    let below = div-mul-le_self b (8 ^ k) in
    let bound : a ≤ b / 8 ^ k * 8 ^ k = omega (
      arith,
      lt-div-mul-add {a = a} (pow8_pos k),
      mul-le-mul (a / 8 ^ k + 1) (b / 8 ^ k) (8 ^ k) (omega arith),
      add-mul (a / 8 ^ k) 1 (8 ^ k),
    ) in
    let start : Span = record { output = []; num_values = 0; a = a } in
    let (tiles, aligned, above, under) =
      span_up-Covers t a first left (b / 8 ^ k) start (omega arith)
        (IsMultiple-le (m - (first + left)) (m - last_nz_place t a) a (omega arith) end_a) bound
        (omega arith) Tiles.done in
    let up = span_up t first left start in
    let squeezed : up.a / 8 ^ suc k ≡ b / 8 ^ suc k = omega (
      arith,
      div-le_mono a up.a (8 ^ suc k) (pow8_pos (suc k)) above,
      div-le_mono up.a b (8 ^ suc k) (pow8_pos (suc k)) (omega arith),
    ) in
    let count : suc (last_nz_place t b) - first ≡ suc down = omega arith in
    let level : last_nz_place t b ≡ first + down = omega arith in
    let (covered, last) =
      span_down-Covers t a b down first up (omega arith) aligned (omega arith) squeezed
        (subst (λ x. IsMultiple (m - x) b) level end_b) top tiles in
    rw count (subst (Tiles t a _) last covered)

-- Between a key and itself there is nothing to store.
cover_self : (t : KeyType) (a : ℕ) → a ≤ 8 ^ max_tree_level t → (span_sfc_range t a a).output ≡ []
unfolding span_sfc_range span_up span_down
cover_self t a h =
    let none : count_leading_zeros t (bit_xor a a) ≡ key_bits t =
      ap (count_leading_zeros t) (bit_xor_self a) ∙ count_leading_zeros-zero t in
    let place : (count_leading_zeros t (bit_xor a a) + 3 - unused_bits t) / 3
        ≡ suc (max_tree_level t) =
      omega (arith, key_bits_parts t) in
    let (low, _) = last_nz_place-IsMultiple t a h in
    let up : last_nz_place t a - suc (max_tree_level t) ≡ 0 = omega arith in
    let down : suc (last_nz_place t a) - suc (max_tree_level t) ≡ 0 = omega arith in
    rw (place, up, down) refl

-- span_sfc_range stores the starts of nodes that adjoin each other from a to b: each a cell of
-- the octree, the first at a, the last ending at b; nothing if the keys are the same. The keys
-- ascend and are at most the end of the key space.
pub span_sfc_range-Tiles :
    (t : KeyType) (a b : ℕ)
    → a ≤ b
    → b ≤ 8 ^ max_tree_level t
    → Tiles t a (span_sfc_range t a b).output b
span_sfc_range-Tiles t a b h top = elim (dec_lt a b) [
  | yes less ↦ cover t a b less top
  | no not_less ↦
      let same : a ≡ b = omega arith in
      subst (λ x. Tiles t a (span_sfc_range t a x).output x) same
        (rw (cover_self t a (omega arith)) Tiles.done)
]
