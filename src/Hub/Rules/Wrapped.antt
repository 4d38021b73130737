-- ===== src/Hub/Rules/Wrapped.antt =====
-- hub/rules.go, evalThreshold: a duration whose product with a second does not fit in an int64.
use sakura_assistant.Base.{ℕ, ◌*◌, ◌%◌, ◌^◌, ◌≤◌}
use sakura_assistant.Hub.Rules.Threshold.{second}

-- The bit pattern of the product is that of a negative number.
abbrev pub IsWrapped : ℕ → Type 0
IsWrapped n = 2 ^ 63 ≤ n * second % 2 ^ 64
