-- ===== src/Subnet.antt =====
-- core/blockchain/src/subnet/types.rs: the service subnets.
use is_a_chain.Prelude.{ℕ}

pub data SubnetId : Type 0 where
  model tools compute storage agent market : SubnetId

-- `subnet_id as u8`; the key of a subnet in a map.
abbrev pub discriminant : SubnetId → ℕ
discriminant model = 0
discriminant tools = 1
discriminant compute = 2
discriminant storage = 3
discriminant agent = 4
discriminant market = 5
