-- ===== src/Sfc/Span/Count.antt =====
-- The count and the stored values of spanSfcRange (sfc/common.hpp).
use sphexa.Base.{ℕ, zero, suc, ◌+◌, ◌≡◌, refl, ◌∙◌, arith, [], ◌∷◌, length, length-append}
use sphexa.Key.{KeyType}
use sphexa.Sfc.Span.{Span, emit, add_digits, span_up, span_down, span_sfc_range}

emit-length :
    (t : KeyType) (pos num_digits : ℕ) (span : Span)
    → length (emit t pos num_digits span).output ≡ length span.output + num_digits
unfolding emit
emit-length t pos zero span = omega arith
emit-length t pos (suc num_digits) span =
    emit-length t pos num_digits _ ∙ omega (arith, length-append span.output (span.a ∷ []))

emit-num_values :
    (t : KeyType) (pos num_digits : ℕ) (span : Span)
    → (emit t pos num_digits span).num_values ≡ span.num_values
unfolding emit
emit-num_values t pos zero span = refl
emit-num_values t pos (suc num_digits) span = emit-num_values t pos num_digits _

add_digits-count :
    (t : KeyType) (pos num_digits : ℕ) (span : Span)
    → length span.output ≡ span.num_values
    → length (add_digits t pos num_digits span).output
      ≡ (add_digits t pos num_digits span).num_values
unfolding add_digits
add_digits-count t pos num_digits span e = omega (
  arith,
  emit-length t pos num_digits _,
  emit-num_values t pos num_digits
      (record { output = span.output; num_values = span.num_values + num_digits; a = span.a }),
)

span_up-count :
    (t : KeyType) (first left : ℕ) (span : Span)
    → length span.output ≡ span.num_values
    → length (span_up t first left span).output ≡ (span_up t first left span).num_values
unfolding span_up
span_up-count t first zero span e = e
span_up-count t first (suc left) span e =
    span_up-count t first left _ (add_digits-count t (first + suc left) _ span e)

span_down-count :
    (t : KeyType) (b left pos : ℕ) (span : Span)
    → length span.output ≡ span.num_values
    → length (span_down t b left pos span).output ≡ (span_down t b left pos span).num_values
unfolding span_down
span_down-count t b zero pos span e = e
span_down-count t b (suc left) pos span e =
    span_down-count t b left (pos + 1) _ (add_digits-count t pos _ span e)

-- span_sfc_range stores as many values as it counts, for every two keys.
pub span_sfc_range-count :
    (t : KeyType) (a b : ℕ)
    → length (span_sfc_range t a b).output ≡ (span_sfc_range t a b).num_values
unfolding span_sfc_range
span_sfc_range-count t a b =
    span_down-count t b _ _ _
      (span_up-count t _ _ (record { output = []; num_values = 0; a = a }) refl)
