-- ===== src/Net/Retryable.antt =====
-- libraries/net/retryable.h: an operation that is tried again, each time after twice the time before.
-- The operation and the listeners are the caller's; a tick says whether the operation was called. An `int`
-- is an integer without bound: that one overflows, which C++ leaves undefined, is not modelled.
pub mod Retries
mod Tests
use peos.Prelude.{ℕ, ◌+◌, ◌/◌, Bool, true, false, ltb, if◌then◌else◌}
use peos.Prelude.Int.{ℤ, pos, negsuc, sub_ℕ, ◌+ℤ◌, ◌-ℤ◌, ltb_ℤ}

pub record Retryable : Type 0 where
  pub last_delta : ℤ
  pub retry_timer : ℤ
  pub retries : ℕ

abbrev pub retryable : ℤ → Retryable
retryable retry_ms = record { last_delta = retry_ms; retry_timer = pos 0; retries = 0 }

-- What a tick gives: whether the operation was called, what is returned, and the state.
pub record Ticked : Type 0 where
  pub called : Bool
  pub alive : Bool
  pub left : Retryable

-- The time is up: a sixth try is refused.
retry : Retryable → Ticked
retry r =
    let d = r.last_delta +ℤ r.last_delta in
    if ltb 4 r.retries
    then record { called = false; alive = false; left = record r { retries = r.retries + 1 } }
    else record {
      called = true;
      alive = true;
      left = record { last_delta = d; retry_timer = d; retries = r.retries + 1 };
    }

pub tick : Retryable → ℤ → Ticked
tick r dt =
    let r' = record r { retry_timer = r.retry_timer -ℤ dt } in
    if ltb_ℤ (pos 0) r'.retry_timer
    then record { called = false; alive = true; left = r' }
    else retry r'

-- `/ 2` of an `int`, towards 0.
half : ℤ → ℤ
half (pos n) = pos (n / 2)
half (negsuc n) = sub_ℕ 0 ((n + 1) / 2)

pub reset : Retryable → Retryable
reset r = record { last_delta = half r.last_delta; retry_timer = half r.retry_timer; retries = 0 }
