-- ===== src/Hub/Rules/Types.antt =====
-- hub/types.go: samples and rules. A measured value is a float64, of which the code uses only the
-- order: values are of a type `V` with two tests. A sample comes from JSON, which has no NaN.
use sakura_assistant.Base.{ℕ, String, Option, Bool, List}

pub record Order (V : Type 0) : Type 0 where
  pub lt : V → V → Bool
  pub le : V → V → Bool

pub record DiskPayload (V : Type 0) : Type 0 where
  pub mount : String
  pub percent : Option V

pub record NetPayload (V : Type 0) : Type 0 where
  pub rx_bps : Option V
  pub tx_bps : Option V

-- The exit code is only printed: it is kept as its decimal text. Restart counts are never negative.
pub record ContainerPayload : Type 0 where
  pub name : String
  pub state : String
  pub exit_code : Option String
  pub restart_count : Option ℕ

pub record NasDiskPayload : Type 0 where
  pub dev : String
  pub smart : String

pub record NasPoolPayload : Type 0 where
  pub name : String
  pub state : String

pub record NasPayload : Type 0 where
  pub disks : List NasDiskPayload
  pub pools : List NasPoolPayload

-- The fields that the rules read.
pub record SamplePayload (V : Type 0) : Type 0 where
  pub ts : String
  pub cpu_percent : Option V
  pub mem_percent : Option V
  pub uptime_seconds : Option ℕ
  pub boot_time : Option String
  pub disks : List (DiskPayload V)
  pub net : Option (NetPayload V)
  pub containers : Option (List ContainerPayload)
  pub nas : Option NasPayload

pub record Rule (V : Type 0) : Type 0 where
  pub id : String
  pub kind : String
  pub metric : String
  pub label : Option String
  pub op : String
  pub value : Option V
  pub for_seconds : ℕ
  pub recover_value : Option V
  pub recover_for_seconds : ℕ
  pub matching : Option String
  pub severity : String
  pub enabled : Bool
