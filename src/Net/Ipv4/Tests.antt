-- ===== src/Net/Ipv4/Tests.antt =====
-- A host at 10.0.0.2 in a subnet of 256 addresses.
use peos.Prelude.{
  get_or, suc, zero, ◌<◌, ℕ, ◌≡◌, refl, true, none, some, List, [], ◌∷◌, replicate, arith,
}
use peos.Support.Pool
use peos.Net.Ipv4.Datagram.{Ipv4, is_recipient, parse_ipaddr, parse_octets}
use peos.Net.Ipv4.Send.{send_single_datagram}
use peos.Net.Ipv4.Receive.{on_receive}
use peos.Net.Ipv4.Receive.Refused.{no_time, on_receive-Refused}
use peos.Net.Ipv4.Receive.Sent.{send-on_receive_whole}

abbrev host : Ipv4
host = record {
  local_ = 0x0A000002;
  netmask = 0xFFFFFF00;
  default_gateway = 0x0A000001;
  next_datagram_id = 7;
  reassembly_buffers = record {
    nodes = λ i. Pool.fresh none;
    watermark = 0;
    free_list_head = Pool.end_sentinel;
    free_list_tail = Pool.end_sentinel;
    count = 0;
  };
}

-- "10.0.0.2"
parses : parse_ipaddr (49 ∷ 48 ∷ 46 ∷ 48 ∷ 46 ∷ 48 ∷ 46 ∷ 50 ∷ []) ≡ some 0x0A000002
unfolding parse_ipaddr parse_octets
parses = refl

own_address : is_recipient host 0x0A000002 ≡ true
unfolding is_recipient
own_address = refl

send-on_receive_whole_example :
    (packet : List ℕ) × ((send_single_datagram host 17 0x0A000009 0x0A000002 (1 ∷ 2 ∷ [])).0
      ≡ some packet)
    × (on_receive host packet
        ≡ some (
          some (record {
            src_addr = 0x0A000009;
            dest_addr = 0x0A000002;
            protocol = 17;
            payload = 1 ∷ 2 ∷ [];
          }),
          host,
        ))
send-on_receive_whole_example =
    send-on_receive_whole host host 17 0x0A000009 0x0A000002 (1 ∷ 2 ∷ []) refl (omega arith)
      (omega arith) (omega arith) (omega arith) own_address

zeros_small : (n j : ℕ) → get_or (replicate n 0) j 0 < 256
zeros_small zero j = omega arith
zeros_small (suc n) zero = omega arith
zeros_small (suc n) (suc j) = zeros_small n j

-- A packet of 30 bytes with no time to live.
abbrev timeless : List ℕ
timeless = 0x45 ∷ 0 ∷ 0 ∷ 30 ∷ replicate 26 0

timeless_small : (j : ℕ) → get_or timeless j 0 < 256
timeless_small zero = omega arith
timeless_small (suc zero) = omega arith
timeless_small (suc (suc zero)) = omega arith
timeless_small (suc (suc (suc zero))) = omega arith
timeless_small (suc (suc (suc (suc j)))) = zeros_small 26 j

on_receive-Refused_example : on_receive host timeless ≡ some (none, host)
on_receive-Refused_example =
    on_receive-Refused host timeless timeless_small (omega arith) (no_time refl)
