-- ===== src/Domain/Buffer/Room.antt =====
-- The room for received particles (domain/buffer_description.hpp).
use native.Mathlib.Decide.{dec_lt}
use sphexa.Base.{true, false, refl, ℕ, ◌+◌, ◌-◌, ◌^◌, ◌≤◌, ◌<◌, ◌≡◌, arith, ◌⊎◌, inl, inr, leb}
use sphexa.Key.{u32, sub32}
use sphexa.Domain.Buffer.{BufferDescription, exchange_buffer_size, receive_start, assigned_envelope}

-- The buffer once it has the size asked for.
abbrev pub grown : BufferDescription → ℕ → ℕ → BufferDescription
grown buf num_present num_assigned = record {
  start = buf.start;
  end = buf.end;
  size = exchange_buffer_size buf num_present num_assigned;
}

-- In a buffer enlarged to the size that exchange_buffer_size asks for, the range from
-- receive_start on has room for all incoming particles, it borders the range [start, end) and
-- does not overlap it, and assigned_envelope returns both together. The buffer and its
-- enlargement fit 32 bits, and no fewer particles are assigned than present.
pub receive_start-room :
    (buf : BufferDescription) (num_present num_assigned : ℕ)
    → buf.start ≤ buf.end
    → buf.end ≤ buf.size
    → buf.size < 2 ^ 32
    → num_present ≤ num_assigned
    → buf.end + (num_assigned - num_present) < 2 ^ 32
    → let incoming = num_assigned - num_present in
      let new = grown buf num_present num_assigned in
      let from = receive_start new incoming in
      let envelope = assigned_envelope new incoming in
      (buf.size ≤ new.size)
      × (from + incoming ≤ new.size)
      × ((from + incoming ≡ buf.start) × (envelope ≡ (from, buf.end))
          ⊎ (from ≡ buf.end) × (envelope ≡ (buf.start, from + incoming)))
unfolding exchange_buffer_size receive_start assigned_envelope
receive_start-room buf num_present num_assigned a b c d e =
    let incoming = num_assigned - num_present in
    let diff : sub32 num_assigned num_present ≡ incoming = omega arith in
    let tail : sub32 buf.size buf.end ≡ buf.size - buf.end = omega arith in
    let end : u32 (buf.end + incoming) ≡ buf.end + incoming = omega arith in
    elim (dec_lt buf.start incoming) [
      | no fits ↦
          let head : leb incoming buf.start ≡ true = ground arith in
          let from : sub32 buf.start incoming ≡ buf.start - incoming = omega arith in
          rw (diff, tail, end, head, from) (omega arith, omega arith, inl (omega arith, refl))
      | yes short ↦
          let head : leb incoming buf.start ≡ false = ground arith in
          rw (diff, tail, end, head) (ground arith, ground arith, inr (refl, refl))
    ]
