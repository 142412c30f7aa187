-- ===== src/Domain/Buffer.antt =====
-- Where particles from other ranks are received (domain/include/cstone/domain/buffer_description.hpp).
pub mod Room
use sphexa.Base.{ℕ, ◌+◌, ◌-◌, Bool, ◌||◌, leb, if◌then◌else◌, List, ◌++◌, take, drop, map}
use sphexa.Key.{u32, sub32}
use sphexa.Primitives.Search.{at}

-- The indices are of 32 bits.
pub record BufferDescription : Type 0 where
  pub start : ℕ
  pub end : ℕ
  pub size : ℕ

unfoldable pub exchange_buffer_size : BufferDescription → ℕ → ℕ → ℕ
exchange_buffer_size buf num_present num_assigned =
    let num_incoming = sub32 num_assigned num_present in
    let fit_head = leb num_incoming buf.start in
    let fit_tail = leb num_incoming (sub32 buf.size buf.end) in
    if fit_head || fit_tail then buf.size else u32 (buf.end + num_incoming)

unfoldable pub receive_start : BufferDescription → ℕ → ℕ
receive_start buf num_incoming =
    if leb num_incoming buf.start then sub32 buf.start num_incoming else buf.end

unfoldable pub assigned_envelope : BufferDescription → ℕ → ℕ × ℕ
assigned_envelope buf num_incoming =
    if leb num_incoming buf.start
    then (sub32 buf.start num_incoming, buf.end)
    else (buf.start, u32 (buf.end + num_incoming))

-- The particles present, in the order of `ordering`, and behind them those received.
unfoldable pub extract_locally_owned : BufferDescription → ℕ → ℕ → List ℕ → List ℕ → List ℕ
extract_locally_owned o1 num_present num_assigned ordering buffer =
    let present = take num_present (drop o1.start ordering) in
    let r_start = receive_start o1 (sub32 num_assigned num_present) in
    map (at buffer) present ++ take (sub32 num_assigned num_present) (drop r_start buffer)
