-- ===== src/Net/Ipv4/Receive/Sent.antt =====
-- A datagram that is sent in one piece is received as it was by its addressee.
use peos.Prelude.{
  ℕ, ◌+◌, ◌-◌, ◌*◌, ◌/◌, ◌%◌, ◌^◌, ◌≤◌, ◌<◌, ◌≡◌, refl, ap, true, false, ◌||◌, some, List, [], ◌++◌,
  length, take, ◌==◌, le→ltb_false, ==_iff, take-length, arith, min, ◌∙◌,
}
use peos.Net.Bytes.{swap16, swap32, load16, load32}
use peos.Net.Bytes.Words.{swap16_order, swap32_order}
use peos.Net.Ipv4.Datagram.{
  Ipv4, load_header, unchecked, checksum, is_recipient, proto_tcp, proto_udp, proto_icmp,
}
use peos.Net.Ipv4.Send.{header_bytes, send_single_datagram}
use peos.Net.Ipv4.Receive.{
  passes_checks, right_checksum, on_receive, payload, options, more_fragments,
}
use peos.Net.Ipv4.Receive.Drops.{on_receive-whole}

module _ (id protocol check src_addr dest_addr : ℕ) (bytes : List ℕ)
    (fits : 20 + length bytes ≤ 1500) where
  abbrev sent : List ℕ
  sent = header_bytes (20 + length bytes) id protocol check src_addr dest_addr ++ bytes

  sent_length : length sent ≡ 20 + length bytes
  unfolding header_bytes
  sent_length = omega arith

  sent_passes : passes_checks (load_header sent) sent ≡ true
  unfolding passes_checks header_bytes load_header load16
  sent_passes =
      rw
        (
          swap16_order (20 + length bytes) (omega arith),
          le→ltb_false (20 + length bytes) 20 (omega arith),
          le→ltb_false (length sent) (20 + length bytes) (omega arith),
        )
        refl

  sent_payload : payload (load_header sent) sent ≡ bytes
  unfolding payload header_bytes load_header load16
  sent_payload = rw (swap16_order (20 + length bytes) (omega arith)) (
      ap (λ n. take n bytes) {x = min (20 + length bytes - 20) (length sent - 20)}
        {y = length bytes} (omega arith)
      ∙ take-length bytes)

  sent_right :
      check ≡ checksum (header_bytes (20 + length bytes) id protocol 0 src_addr dest_addr) []
      → right_checksum (load_header sent) sent ≡ true
  unfolding right_checksum header_bytes load_header load16 unchecked options
  sent_right e =
      (==_iff (swap16 (check % 256 + check / 256 * 2 ^ 8)) (swap16 own)).1
        (ap swap16 (omega (arith, e)))
    where
      own : ℕ
      own = checksum (header_bytes (20 + length bytes) id protocol 0 src_addr dest_addr) []

  sent_whole :
      (more_fragments (load_header sent) ≡ false) × (((load_header sent).frag_ofs == 0) ≡ true)
  unfolding more_fragments header_bytes load_header load16
  sent_whole = (rw (swap16_order 0 (omega arith)) refl, refl)

  sent_src : src_addr < 2 ^ 32 → swap32 (load_header sent).src_addr ≡ src_addr
  unfolding header_bytes load_header load16 load32
  sent_src h = swap32_order src_addr h

  sent_dest : dest_addr < 2 ^ 32 → swap32 (load_header sent).dest_addr ≡ dest_addr
  unfolding header_bytes load_header load16 load32
  sent_dest h = swap32_order dest_addr h

  sent_protocol : (load_header sent).protocol ≡ protocol
  unfolding header_bytes load_header
  sent_protocol = refl

-- A datagram of one of the three protocols, with some data that fit one packet, is sent as a packet
-- that the addressee takes: the length, the checksum and the address pass its checks, and what it
-- hands on has the same addresses, protocol and data.
pub send-on_receive_whole :
    (s receiver : Ipv4) (protocol src_addr dest_addr : ℕ) (bytes : List ℕ)
    → (protocol == proto_tcp || protocol == proto_udp || protocol == proto_icmp) ≡ true
    → 0 < length bytes
    → 20 + length bytes ≤ 1500
    → src_addr < 2 ^ 32
    → dest_addr < 2 ^ 32
    → is_recipient receiver dest_addr ≡ true
    → (packet : List ℕ) × ((send_single_datagram s protocol src_addr dest_addr bytes).0
        ≡ some packet)
      × (on_receive receiver packet
          ≡ some (
            some (record {
              src_addr = src_addr;
              dest_addr = dest_addr;
              protocol = protocol;
              payload = bytes;
            }),
            receiver,
          ))
unfolding send_single_datagram
send-on_receive_whole s receiver protocol src_addr dest_addr bytes known more fits hs hd ours =
    let id = s.next_datagram_id in
    let check = checksum (header_bytes (20 + length bytes) id protocol 0 src_addr dest_addr) [] in
    let packet = sent id protocol check src_addr dest_addr bytes fits in
    let same_len : (20 + length bytes) % 2 ^ 16 ≡ 20 + length bytes = omega arith in
    (
      packet,
      rw (same_len, le→ltb_false 1500 (20 + length bytes) fits) refl,
      on_receive-whole receiver packet
            (omega (arith, sent_length id protocol check src_addr dest_addr bytes fits))
            (sent_passes id protocol check src_addr dest_addr bytes fits)
            (sent_right id protocol check src_addr dest_addr bytes fits refl)
            (rw (sent_dest id protocol check src_addr dest_addr bytes fits hd) ours)
            (sent_whole id protocol check src_addr dest_addr bytes fits).0
            (sent_whole id protocol check src_addr dest_addr bytes fits).1
          ∙ rw
              (
                sent_payload id protocol check src_addr dest_addr bytes fits,
                sent_protocol id protocol check src_addr dest_addr bytes fits,
                known,
                sent_src id protocol check src_addr dest_addr bytes fits hs,
                sent_dest id protocol check src_addr dest_addr bytes fits hd,
              )
              refl,
    )
