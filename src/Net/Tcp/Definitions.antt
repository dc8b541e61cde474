-- ===== src/Net/Tcp/Definitions.antt =====
-- libraries/net/tcp/definitions.h: flags, headers and endpoints.
-- A word of flags is a number; a flag is tested by dividing its bit out.
use peos.Prelude.{ℕ, ◌+◌, ◌/◌, ◌%◌, Bool, ◌==◌, if◌then◌else◌}

abbrev pub fin : ℕ
fin = 0x0001

abbrev pub syn : ℕ
syn = 0x0002

abbrev pub ack : ℕ
ack = 0x0010

-- `flags & flag`, as a condition.
abbrev pub has_flag : ℕ → ℕ → Bool
has_flag flags flag = flags / flag % 2 == 1

-- `flags | flag`.
abbrev pub set_flag : ℕ → ℕ → ℕ
set_flag flags flag = if has_flag flags flag then flags else flags + flag

-- The header's fields, in host byte order.
pub record Header : Type 0 where
  pub src_port : ℕ
  pub dest_port : ℕ
  pub seq_nbr : ℕ
  pub ack_nbr : ℕ
  pub flags_hdrsz : ℕ
  pub wndsz : ℕ
  pub checksum : ℕ
  pub urgptr : ℕ

-- `segment_metadata`, with the fields of the datagram that it points to.
pub record SegmentMetadata : Type 0 where
  pub tcp_header : Header
  pub src_addr : ℕ
  pub dest_addr : ℕ
  pub flags : ℕ

pub record Endpoint : Type 0 where
  pub ipaddr : ℕ
  pub port : ℕ

abbrev pub wildcard : Endpoint
wildcard = record { ipaddr = 0; port = 0 }
