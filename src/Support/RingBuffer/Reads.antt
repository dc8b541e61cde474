-- ===== src/Support/RingBuffer/Reads.antt =====
-- Reads take bytes from the front of the contents; `peek` takes a copy of a part.
use peos.Prelude.{
  ℕ, zero, suc, ◌+◌, ◌-◌, ◌%◌, ◌≤◌, ◌≡◌, refl, ap, sym, ◌∙◌, some, List, ◌∷◌, arith, min, length,
  take, drop, take-min, drop-min,
}
use peos.Prelude.Int.{pos, ◌+ℤ◌, ◌-ℤ◌, +ℤ-pos}
use peos.Support.Queue.{Queue, pop_front, slot}
use peos.Support.Queue
use peos.Support.Queue.Window.{window, window-drop, window-take}
use peos.Support.Queue.Fifo.{IsValid, contents, length-contents, pop_front-contents}
use peos.Support.RingBuffer.{
  read_loop, read_front, peek_loop, peek_length, peek, consume_loop, consume, size,
}

module _ (max_len : ℕ) where
  read_loop-contents :
      (n : ℕ) (b : Queue ℕ)
      → IsValid max_len b
      → n ≤ Queue.size b
      → ((read_loop max_len n b).0 ≡ take n (contents max_len b))
        × (contents max_len (read_loop max_len n b).1 ≡ drop n (contents max_len b))
        × IsValid max_len (read_loop max_len n b).1
  unfolding read_loop
  read_loop-contents zero b v h = (refl, refl, v)
  read_loop-contents (suc n) b v h =
      let popped = pop_front-contents max_len b v (omega arith) in
      let rest = read_loop-contents n (pop_front max_len b).1 popped.1 (omega (arith, popped.2)) in
      rw popped.0 (ap (◌∷◌ (pop_front max_len b).0) rest.0, rest.1, rest.2)

  -- `read_front` hands over the bytes at the front, as many as asked for and there are, and leaves
  -- the others.
  pub read_front-contents :
      (b : Queue ℕ) (n : ℕ)
      → IsValid max_len b
      → ((read_front max_len b n).0 ≡ take n (contents max_len b))
        × (contents max_len (read_front max_len b n).1 ≡ drop n (contents max_len b))
        × IsValid max_len (read_front max_len b n).1
  unfolding read_front size
  read_front-contents b n v =
      let done = read_loop-contents (min n (Queue.size b)) b v (omega arith) in
      (
        done.0 ∙ ap (λ t. take (min n t) xs) (sym count) ∙ take-min n xs,
        done.1 ∙ ap (λ t. drop (min n t) xs) (sym count) ∙ drop-min n xs,
        done.2,
      )
    where
      xs : List ℕ
      xs = contents max_len b

      count : length xs ≡ Queue.size b
      count = length-contents max_len b

  consume_loop-contents :
      (n : ℕ) (b : Queue ℕ)
      → IsValid max_len b
      → n ≤ Queue.size b
      → (contents max_len (consume_loop max_len n b) ≡ drop n (contents max_len b))
        × IsValid max_len (consume_loop max_len n b)
  unfolding consume_loop
  consume_loop-contents zero b v h = (refl, v)
  consume_loop-contents (suc n) b v h =
      let popped = pop_front-contents max_len b v (omega arith) in
      rw popped.0
        (consume_loop-contents n (pop_front max_len b).1 popped.1 (omega (arith, popped.2)))

  -- `consume` drops as many bytes as it reports.
  pub consume-contents :
      (b : Queue ℕ) (n : ℕ)
      → IsValid max_len b
      → (contents max_len (consume max_len b n).1
          ≡ drop (consume max_len b n).0 (contents max_len b))
        × ((consume max_len b n).0 ≡ min n (length (contents max_len b)))
        × IsValid max_len (consume max_len b n).1
  unfolding consume size
  consume-contents b n v =
      let done = consume_loop-contents (min n (Queue.size b)) b v (omega arith) in
      (done.0, omega (arith, length-contents max_len b), done.1)

  peek_loop-window :
      (n start : ℕ) (b : Queue ℕ)
      → peek_loop max_len n (pos start) b ≡ some (window max_len b.items start n)
  unfolding peek_loop slot
  peek_loop-window zero start b = refl
  peek_loop-window (suc n) start b = rw (+ℤ-pos start 1) (
      rw (peek_loop-window n (start + 1) b)
        (ap (λ t. some (b.items (start % max_len) ∷ window max_len b.items t n)) (omega arith)))

  peek_length_lem :
      (b : Queue ℕ) (start n : ℕ)
      → peek_length max_len b (pos start) n ≡ min n (Queue.size b - start)
  unfolding peek_length size ◌+ℤ◌ ◌-ℤ◌
  peek_length_lem b start n = ground arith

  -- `peek` copies the bytes from `start` on, `length` at most, and changes nothing.
  pub peek-contents :
      (b : Queue ℕ) (start n : ℕ)
      → IsValid max_len b
      → peek max_len b (pos start) n ≡ some (take n (drop start (contents max_len b)))
  unfolding peek Queue.begin Queue.size
  peek-contents b start n v =
      rw (peek_length_lem b start n, +ℤ-pos b.read_idx start)
        (peek_loop-window (min n (Queue.size b - start)) (b.read_idx + start) b
          ∙ ap some (
              sym (
                ap (take n) (window-drop max_len b.items b.read_idx (Queue.size b) start)
                ∙ window-take max_len b.items (b.read_idx + start) (Queue.size b - start) n)))
