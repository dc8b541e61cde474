-- ===== src/Net/Ethernet/Roundtrip.antt =====
-- A frame that is sent is received as it was.
use peos.Prelude.{
  ℕ, ◌+◌, ◌-◌, ◌%◌, ◌^◌, ◌≤◌, ◌<◌, ◌≡◌, refl, false, some, List, [], ◌∷◌, ◌++◌, ltb, ==_iff,
  ne→==_false, ◌⊎◌, inl, inr, arith, length, take, ap, ◌∙◌, le→leb, le→ltb_false, take-length,
}
use peos.Net.Bytes.{load16, bytes16}
use peos.Net.Bytes.Words.{swap16_order}
use peos.Net.Ethernet.{send, on_receive, et_arp, et_ipv4}

-- An address of six bytes.
abbrev pub mac : ℕ → ℕ → ℕ → ℕ → ℕ → ℕ → List ℕ
mac a b c d e f = a ∷ b ∷ c ∷ d ∷ e ∷ f ∷ []

take_all :
    (n : ℕ) (xs : List ℕ)
    → length xs < 2 ^ 16
    → n ≡ 14 + length xs
    → take ((n - 14) % 2 ^ 16) xs ≡ xs
take_all n xs h e =
    ap (λ t. take t xs) {x = (n - 14) % 2 ^ 16} {y = length xs} (omega arith) ∙ take-length xs

-- A frame of a type that is handled, with addresses of six bytes and data that fit, is built, and a
-- receiver of it hands on the same addresses, type and data.
pub send-on_receive :
    (a b c d e f a' b' c' d' e' f' : ℕ) (type : ℕ) (bytes : List ℕ)
    → (type ≡ et_arp) ⊎ (type ≡ et_ipv4)
    → 14 + length bytes ≤ 5128
    → (sent : List ℕ) × (send (mac a b c d e f) type (mac a' b' c' d' e' f') bytes ≡ some sent)
      × (on_receive sent
          ≡ some (record {
            mac_dest = mac a' b' c' d' e' f';
            mac_src = mac a b c d e f;
            ether_type = type;
            pdu = bytes;
          }))
unfolding send on_receive load16
send-on_receive a b c d e f a' b' c' d' e' f' type bytes handled fits =
    let sent = mac a' b' c' d' e' f' ++ (mac a b c d e f ++ (bytes16 type ++ bytes)) in
    let n = length sent in
    let long : ltb n 14 ≡ false = le→ltb_false n 14 (omega arith) in
    let whole = take_all n bytes (omega arith) (omega arith) in
    (
      sent,
      rw (le→leb (14 + length bytes) 5128 fits) refl,
      (elim handled [
        | inl t ↦
            rw (long, swap16_order type (omega (arith, t)), (==_iff type et_arp).1 t, whole) refl
        | inr t ↦
            rw
              (
                long,
                swap16_order type (omega (arith, t)),
                ne→==_false type et_arp (omega (arith, t)),
                (==_iff type et_ipv4).1 t,
                whole,
              )
              refl
      ]),
    )
