-- ===== src/Net/Ethernet.antt =====
-- libraries/net/ethernet/protocol.cc: frames to and from the device.
pub mod Roundtrip
mod Tests
use peos.Prelude.{
  ℕ, ◌+◌, ◌-◌, ◌%◌, ◌^◌, Option, none, some, List, ◌++◌, length, take, drop, ltb, leb, ◌==◌,
  if◌then◌else◌,
}
use peos.Prelude.Fault.{◌>>◌, assert}
use peos.Net.Bytes.{load16, swap16, bytes16}

abbrev pub et_ipv4 : ℕ
et_ipv4 = 0x0800

abbrev pub et_arp : ℕ
et_arp = 0x0806

-- A frame handed on: who sent it, to whom, and the protocol's data.
pub record Frame : Type 0 where
  pub mac_dest : List ℕ
  pub mac_src : List ℕ
  pub ether_type : ℕ
  pub pdu : List ℕ

-- Frames that are too short, or of another type, are dropped. The size is kept in 16 bits.
pub on_receive : List ℕ → Option Frame
on_receive bytes =
    let ether_type = swap16 (load16 bytes 12) in
    if ltb (length bytes) 14
    then none
    else (if ether_type == et_arp
        then some (frame ether_type)
        else (if ether_type == et_ipv4 then some (frame ether_type) else none))
  where
    frame : ℕ → Frame
    frame ether_type = record {
      mac_dest = take 6 bytes;
      mac_src = take 6 (drop 6 bytes);
      ether_type = ether_type;
      pdu = take ((length bytes - 14) % 2 ^ 16) (drop 14 bytes);
    }

-- What the device is given to send.
pub send : List ℕ → ℕ → List ℕ → List ℕ → Option (List ℕ)
send hwaddr type destination bytes = do
  assert (leb (14 + length bytes) 5128)
  some (take 6 destination ++ (take 6 hwaddr ++ (bytes16 type ++ bytes)))
