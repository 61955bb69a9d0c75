-- ===== src/Account/Window.antt =====
-- The timestamp window of `verify_signature` in src/account.rs.
use ruzor.Prelude.{ℕ, ◌+◌, ◌^◌, ◌<◌, ◌≡◌, ◌↔◌, ◌⊎◌, false, arith}
use ruzor.Prelude.Int.{ℤ, pos, negsuc, ◌+ℤ◌, ◌≤ℤ◌, InI64, sub_i64, abs_i64}
use ruzor.Account.{expired}

-- At most five minutes apart.
abbrev pub IsClose : ℤ → ℤ → Type 0
IsClose now timestamp = (now ≤ℤ timestamp +ℤ pos 300) × (timestamp ≤ℤ now +ℤ pos 300)

-- For a clock that is past the epoch and 300 seconds or more from the end of the i64, and any i64
-- timestamp, the test passes exactly for timestamps within 300 seconds of the clock, and for the
-- one 2^63 seconds before it, where the difference wraps and its absolute value is negative.
pub expired_iff :
    (n : ℕ) (timestamp : ℤ)
    → n + 300 < 2 ^ 63
    → InI64 timestamp
    → (expired (pos n) timestamp ≡ false)
      ↔ (IsClose (pos n) timestamp ⊎ (pos n ≡ timestamp +ℤ pos (2 ^ 63)))
unfolding expired sub_i64 abs_i64 ◌+ℤ◌
expired_iff n (pos t) hn ht = ground arith
expired_iff n (negsuc t) hn ht = ground arith
