-- ===== src/Net/Arp/Mapping.antt =====
-- The latest address learned is the one found.
use peos.Prelude.{
  ℕ, zero, suc, ◌-◌, ◌%◌, ◌≤◌, ◌<◌, ◌≡◌, ◌≢◌, refl, ap, subst, sym, ◌∙◌, true, false, Option, none,
  some, List, [], ◌∷◌, ◌++◌, arith, ◌==◌, if◌then◌else◌, Bool-cases, inl, inr, ==_iff, ne→==_false,
}
use peos.Support.Queue.{Queue}
use peos.Support.Queue
use peos.Support.Queue.Window.{window}
use peos.Support.Queue.Fifo.{IsValid, contents, push_back-contents, pop_front-contents, size-le}
use peos.Net.Arp.{CacheEntry, entries_len, insert, fetch, fetch_from}

-- The latest entry for the address in a list, or the value so far.
abbrev latest : List CacheEntry → ℕ → Option (List ℕ) → Option (List ℕ)
latest [] ipaddr value = value
latest (e ∷ es) ipaddr value =
    latest es ipaddr (if e.ipaddr == ipaddr then some e.hwaddr else value)

latest_append :
    (es : List CacheEntry) (e : CacheEntry) (ipaddr : ℕ) (value : Option (List ℕ))
    → latest (es ++ (e ∷ [])) ipaddr value
      ≡ (if e.ipaddr == ipaddr then some e.hwaddr else latest es ipaddr value)
latest_append [] e ipaddr value = refl
latest_append (x ∷ es) e ipaddr value =
    latest_append es e ipaddr (if x.ipaddr == ipaddr then some x.hwaddr else value)

fetch_from-window :
    (n : ℕ) (q : Queue CacheEntry) (i ipaddr : ℕ) (value : Option (List ℕ))
    → fetch_from n q i ipaddr value ≡ latest (window entries_len q.items i n) ipaddr value
unfolding fetch_from Queue.index
fetch_from-window zero q i ipaddr value = refl
fetch_from-window (suc n) q i ipaddr value = fetch_from-window n q (suc i) ipaddr (
    if (q.items (i % entries_len)).ipaddr == ipaddr
    then some (q.items (i % entries_len)).hwaddr
    else value)

fetch-contents :
    (q : Queue CacheEntry) (ipaddr : ℕ)
    → fetch q ipaddr ≡ latest (contents entries_len q) ipaddr none
unfolding fetch Queue.begin Queue.end
fetch-contents q ipaddr = fetch_from-window (q.write_idx - q.read_idx) q q.read_idx ipaddr none

-- One more entry at the end.
added :
    (q : Queue CacheEntry) (e : CacheEntry)
    → IsValid entries_len q
    → Queue.size q < entries_len
    → IsValid entries_len (Queue.push_back entries_len q e).1
      × ((ipaddr : ℕ)
          → fetch (Queue.push_back entries_len q e).1 ipaddr
            ≡ (if e.ipaddr == ipaddr then some e.hwaddr else fetch q ipaddr))
added q e v room =
    let pushed = push_back-contents entries_len q e v room in
    (
      pushed.2,
      λ ipaddr.
          rw
            (
              fetch-contents (Queue.push_back entries_len q e).1 ipaddr,
              fetch-contents q ipaddr,
              pushed.1,
            )
            (latest_append (contents entries_len q) e ipaddr none),
    )

insert-full :
    (q : Queue CacheEntry) (ipaddr : ℕ) (hwaddr : List ℕ)
    → (Queue.size q == entries_len) ≡ true
    → insert q ipaddr hwaddr
      ≡ (Queue.push_back entries_len
          (Queue.pop_front entries_len q).1
          (record { ipaddr = ipaddr; hwaddr = hwaddr })).1
unfolding insert Queue.full
insert-full q ipaddr hwaddr e =
    ap
      (λ b.
        (Queue.push_back entries_len (if b then (Queue.pop_front entries_len q).1 else q)
          (record { ipaddr = ipaddr; hwaddr = hwaddr })).1)
      {x = Queue.full entries_len q} {y = true} e

insert-room :
    (q : Queue CacheEntry) (ipaddr : ℕ) (hwaddr : List ℕ)
    → (Queue.size q == entries_len) ≡ false
    → insert q ipaddr hwaddr
      ≡ (Queue.push_back entries_len q (record { ipaddr = ipaddr; hwaddr = hwaddr })).1
unfolding insert Queue.full
insert-room q ipaddr hwaddr e =
    ap
      (λ b.
        (Queue.push_back entries_len (if b then (Queue.pop_front entries_len q).1 else q)
          (record { ipaddr = ipaddr; hwaddr = hwaddr })).1)
      {x = Queue.full entries_len q} {y = false} e

-- What is known of the table after an insertion.
abbrev Learned : Queue CacheEntry → ℕ → List ℕ → Queue CacheEntry → Type 0
Learned q ipaddr hwaddr q' =
    IsValid entries_len q'
    × (fetch q' ipaddr ≡ some hwaddr)
    × ((other : ℕ) → Queue.size q < entries_len → other ≢ ipaddr → fetch q' other ≡ fetch q other)

-- Into a valid table an address is inserted, full or not: it is found then, the table stays valid, and
-- while the table was not full every other address is found as before.
pub insert-fetch :
    (q : Queue CacheEntry) (ipaddr : ℕ) (hwaddr : List ℕ)
    → IsValid entries_len q
    → IsValid entries_len (insert q ipaddr hwaddr)
      × (fetch (insert q ipaddr hwaddr) ipaddr ≡ some hwaddr)
      × ((other : ℕ)
          → Queue.size q < entries_len
          → other ≢ ipaddr
          → fetch (insert q ipaddr hwaddr) other ≡ fetch q other)
insert-fetch q ipaddr hwaddr v = elim (Bool-cases (Queue.size q == entries_len)) [
  | inl full ↦
      let popped =
        pop_front-contents entries_len q v
          (omega (arith, (==_iff (Queue.size q) entries_len).0 full)) in
      let done =
        added (Queue.pop_front entries_len q).1 (record { ipaddr = ipaddr; hwaddr = hwaddr })
          popped.1 (omega (arith, popped.2, (==_iff (Queue.size q) entries_len).0 full)) in
      subst (Learned q ipaddr hwaddr) (sym (insert-full q ipaddr hwaddr full)) (
        done.0,
        done.1 ipaddr ∙ rw ((==_iff ipaddr ipaddr).1 refl) refl,
        λ other room n. absurd (omega (arith, room, (==_iff (Queue.size q) entries_len).0 full)),
      )
  | inr part ↦
      let done =
        added q (record { ipaddr = ipaddr; hwaddr = hwaddr }) v
          (below (Queue.size q) (size-le entries_len q v) part) in
      subst (Learned q ipaddr hwaddr) (sym (insert-room q ipaddr hwaddr part)) (
        done.0,
        done.1 ipaddr ∙ rw ((==_iff ipaddr ipaddr).1 refl) refl,
        λ other room n. done.1 other ∙ rw (ne→==_false ipaddr other (λ k. n (sym k))) refl,
      )
]
  where
    below : (n : ℕ) → n ≤ entries_len → (n == entries_len) ≡ false → n < entries_len
    below n h k = ground arith
