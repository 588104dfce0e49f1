-- ===== src/Http/Semaphore.antt =====
-- `threading.BoundedSemaphore`, as utils/http.py uses it.
use openhound_okta.Base.{ℕ, ◌+◌, ◌-◌, Option, none, some, ltb, ◌==◌, nat_eq, if◌then◌else◌}

pub record Semaphore : Type 0 where
  pub limit : ℕ
  pub value : ℕ

abbrev pub full : ℕ → Semaphore
full limit = record { limit = limit; value = limit }

-- `none` is a caller that blocks.
unfoldable pub take_one : Semaphore → Option Semaphore
take_one s = if s.value == 0 then none else some (record s { value = s.value - 1 })

-- `none` is the `ValueError` of a release without an acquire.
unfoldable pub give_back : Semaphore → Option Semaphore
give_back s = if ltb s.value s.limit then some (record s { value = s.value + 1 }) else none
