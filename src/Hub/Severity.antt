-- ===== src/Hub/Severity.antt =====
-- hub/util.go: severities and their order.
use sakura_assistant.Base.{ℕ, max, String, ◌≡◌, ◌==◌, ltb, if◌then◌else◌, arith}

unfoldable pub sev_rank : String → ℕ
sev_rank s =
    if s == "critical" then 3 else if s == "warning" then 2 else if s == "info" then 1 else 0

unfoldable pub max_sev : String → String → String
max_sev a b = if ltb (sev_rank a) (sev_rank b) then b else a

-- The merged severity has the greater of the two ranks, and merging again with either changes
-- nothing.
pub sev_rank-max_sev :
    (a b : String)
    → (sev_rank (max_sev a b) ≡ max (sev_rank a) (sev_rank b))
      × (max_sev (max_sev a b) a ≡ max_sev a b)
      × (max_sev (max_sev a b) b ≡ max_sev a b)
unfolding max_sev
sev_rank-max_sev a b = ground arith
