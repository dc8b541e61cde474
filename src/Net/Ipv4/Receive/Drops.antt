-- ===== src/Net/Ipv4/Receive/Drops.antt =====
-- The packets that are dropped, and the ones that are a whole datagram.
use peos.Prelude.{
  ℕ, ◌<◌, ◌≡◌, refl, true, false, ◌||◌, none, some, List, length, lt→ltb, ◌⊎◌, inl, inr, ◌==◌,
  Bool-cases, if◌then◌else◌,
}
use peos.Net.Bytes.{swap32}
use peos.Net.Ipv4.Datagram.{Ipv4, load_header, is_recipient, proto_tcp, proto_udp, proto_icmp}
use peos.Net.Ipv4.Receive.{
  Datagram, passes_checks, right_checksum, on_receive, accept, payload, more_fragments,
  forward_datagram,
}

-- A packet longer than a header that fails a check of its header, whose checksum is wrong, or that is for
-- another host, is dropped and the state stays as it was.
pub on_receive-drops :
    (s : Ipv4) (bytes : List ℕ)
    → 20 < length bytes
    → (passes_checks (load_header bytes) bytes ≡ false)
      ⊎ ((right_checksum (load_header bytes) bytes ≡ false)
          ⊎ (is_recipient s (swap32 (load_header bytes).dest_addr) ≡ false))
    → on_receive s bytes ≡ some (none, s)
unfolding on_receive
on_receive-drops s bytes long (inl e) = rw (lt→ltb 20 (length bytes) long, e) refl
on_receive-drops s bytes long (inr (inl e)) =
    elim (Bool-cases (passes_checks (load_header bytes) bytes)) [
      | inl c ↦ rw (lt→ltb 20 (length bytes) long, c, e) refl
      | inr c ↦ rw (lt→ltb 20 (length bytes) long, c) refl
    ]
on_receive-drops s bytes long (inr (inr e)) =
    elim (Bool-cases (passes_checks (load_header bytes) bytes)) [
      | inl c ↦ elim (Bool-cases (right_checksum (load_header bytes) bytes)) [
        | inl k ↦ rw (lt→ltb 20 (length bytes) long, c, k, e) refl
        | inr k ↦ rw (lt→ltb 20 (length bytes) long, c, k) refl
      ]
      | inr c ↦ rw (lt→ltb 20 (length bytes) long, c) refl
    ]

-- A packet that passes every check, for this host, with no flag and no offset of a fragment, is handed
-- on as it is, if its protocol is one of the three; the state stays as it was.
pub on_receive-whole :
    (s : Ipv4) (bytes : List ℕ)
    → 20 < length bytes
    → passes_checks (load_header bytes) bytes ≡ true
    → right_checksum (load_header bytes) bytes ≡ true
    → is_recipient s (swap32 (load_header bytes).dest_addr) ≡ true
    → more_fragments (load_header bytes) ≡ false
    → ((load_header bytes).frag_ofs == 0) ≡ true
    → (let hdr = load_header bytes in
        let part : Datagram = record {
          src_addr = swap32 hdr.src_addr;
          dest_addr = swap32 hdr.dest_addr;
          protocol = hdr.protocol;
          payload = payload hdr bytes;
        } in
        on_receive s bytes
        ≡ some (
          (if hdr.protocol == proto_tcp || hdr.protocol == proto_udp || hdr.protocol == proto_icmp
              then some part
              else none),
          s,
        ))
unfolding on_receive accept forward_datagram
on_receive-whole s bytes long c k r m z = rw (lt→ltb 20 (length bytes) long, c, k, r, m, z) refl
