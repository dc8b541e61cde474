-- ===== src/Net/Ethernet/Tests.antt =====
-- A frame with two bytes of data.
use peos.Prelude.{ℕ, ◌≡◌, refl, some, List, [], ◌∷◌, inr, arith}
use peos.Net.Ethernet.{send, on_receive}
use peos.Net.Ethernet.Roundtrip.{mac, send-on_receive}

send-on_receive_example :
    (sent : List ℕ) × (send (mac 1 2 3 4 5 6) 0x0800 (mac 9 8 7 6 5 4) (40 ∷ 41 ∷ []) ≡ some sent)
    × (on_receive sent
        ≡ some (record {
          mac_dest = mac 9 8 7 6 5 4;
          mac_src = mac 1 2 3 4 5 6;
          ether_type = 0x0800;
          pdu = 40 ∷ 41 ∷ [];
        }))
send-on_receive_example =
    send-on_receive 1 2 3 4 5 6 9 8 7 6 5 4 0x0800 (40 ∷ 41 ∷ []) (inr refl) (omega arith)
