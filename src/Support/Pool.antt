-- ===== src/Support/Pool.antt =====
-- libraries/support/pool.h: `p2::pool`, a slot allocator with a doubly linked free list in the nodes.
-- `_IndexT` is `uint16_t`, its default, which all pools of the repository use. A node's value is
-- `none` until one is constructed. `none` for an operation is a failed `assert`.
pub mod FreeList
pub mod Inv
pub mod Prepend
pub mod Unlink
pub mod Emplace
pub mod Erase
pub mod Store
pub mod Indices
mod Tests
use peos.Prelude.{
  ℕ, zero, suc, ◌+◌, ◌-◌, ◌%◌, ◌^◌, Bool, true, false, not, ◌&&◌, Option, none, some, List, [], ◌∷◌,
  ltb, leb, ◌==◌, if◌then◌else◌,
}
use peos.Prelude.Array.{update}
use peos.Prelude.Fault.{◌>>=◌, ◌>>◌, assert}

-- `END_SENTINEL`: the highest index.
abbrev pub end_sentinel : ℕ
end_sentinel = 0xFFFF

pub record Node {ℓ} (A : Type ℓ) : Type ℓ where
  pub next_free : ℕ
  pub prev_free : ℕ
  pub value : Option A

-- `node{}`, with its value constructed afterwards if there is one.
abbrev pub fresh {ℓ} : {A : Type ℓ} → Option A → Node A
fresh v = record { next_free = end_sentinel; prev_free = end_sentinel; value = v }

pub record Pool {ℓ} (A : Type ℓ) : Type ℓ where
  pub nodes : ℕ → Node A
  pub watermark : ℕ
  pub free_list_head : ℕ
  pub free_list_tail : ℕ
  pub count : ℕ

-- A pool that has just been constructed.
abbrev pub empty_pool {ℓ} : {A : Type ℓ} → Pool A
empty_pool = record {
  nodes = λ _. fresh none;
  watermark = 0;
  free_list_head = end_sentinel;
  free_list_tail = end_sentinel;
  count = 0;
}

module _ {ℓ} {A : Type ℓ} where
  unfoldable pub clear : Pool A → Pool A
  clear p = record p {
    watermark = 0;
    free_list_head = end_sentinel;
    free_list_tail = end_sentinel;
    count = 0;
  }

  unfoldable pub size : Pool A → ℕ
  size p = p.count

  unfoldable pub valid : Pool A → ℕ → Bool
  valid p idx =
      if leb p.watermark idx
      then false
      else (if not ((p.nodes idx).next_free == end_sentinel)
          then false
          else (if idx == p.free_list_head
              then false
              else (if idx == p.free_list_tail then false else true)))

  -- `at`, and `operator []` where its assertion holds.
  unfoldable pub at : Pool A → ℕ → Option A
  at p idx = if not (valid p idx) then none else (p.nodes idx).value

  -- An assignment through `operator []`.
  unfoldable pub store_at : Pool A → ℕ → A → Option (Pool A)
  store_at p idx a = do
    assert (valid p idx)
    some (record p { nodes = update p.nodes idx (record (p.nodes idx) { value = some a }) })

  -- `iterator::jump_to_valid`. The index is a `uint16_t`, so it meets the watermark within `2 ^ 16`
  -- rounds.
  jump_to_valid : ℕ → Pool A → ℕ → ℕ
  jump_to_valid zero p i = i
  jump_to_valid (suc fuel) p i =
      let further = jump_to_valid fuel p ((i + 1) % 2 ^ 16) in
      if not (i == p.watermark) && not (valid p i) then further else i

  -- `begin()` and `++`, as indices; `end()` is the watermark.
  pub first : Pool A → ℕ
  first p = jump_to_valid (2 ^ 16) p 0

  pub next : Pool A → ℕ → ℕ
  next p i = jump_to_valid (2 ^ 16) p ((i + 1) % 2 ^ 16)

  -- What a loop from `begin()` to `end()` visits while the pool stays as it is, in order: the valid
  -- indices among the `n` from `i` on.
  pub indices_from : ℕ → Pool A → ℕ → List ℕ
  indices_from zero p i = []
  indices_from (suc n) p i =
      let rest = indices_from n p (suc i) in if valid p i then i ∷ rest else rest

  pub indices : Pool A → List ℕ
  indices p = indices_from p.watermark p 0

  pub prepend_to_free_list : Pool A → ℕ → Pool A
  prepend_to_free_list p idx =
      let nodes =
        if not (p.free_list_head == end_sentinel)
        then update p.nodes p.free_list_head (record (p.nodes p.free_list_head) { prev_free = idx })
        else p.nodes in
      record p {
        nodes = update nodes idx (record (nodes idx) { next_free = p.free_list_head });
        free_list_head = idx;
        free_list_tail = if p.free_list_tail == end_sentinel then idx else p.free_list_tail;
      }

  -- `erase` after its check: the last element lowers the watermark, any other goes to the free list.
  pub release : Pool A → ℕ → Pool A
  release p idx =
      let p' = prepend_to_free_list p idx in
      if idx + 1 == p.watermark
      then record p { watermark = p.watermark - 1; count = p.count - 1 }
      else record p' { count = p'.count - 1 }

  pub erase : Pool A → ℕ → Option (Pool A)
  erase p idx = do assert (valid p idx); some (release p idx)

  -- `n` rounds of the loop of `increase_size`.
  pub increase_loop : ℕ → Pool A → Pool A
  increase_loop zero p = p
  increase_loop (suc n) p =
      let p' =
        prepend_to_free_list (record p { nodes = update p.nodes p.watermark (fresh none) })
          p.watermark in
      increase_loop n (record p' { watermark = p'.watermark + 1 })

  -- The element at `idx` taken out of the free list.
  pub unlink : Pool A → ℕ → Pool A
  unlink p idx =
      let next = (p.nodes idx).next_free in
      let prev = (p.nodes idx).prev_free in
      let nodes =
        if not (prev == end_sentinel)
        then update p.nodes prev (record (p.nodes prev) { next_free = next })
        else p.nodes in
      let nodes' =
        if not (next == end_sentinel)
        then update nodes next (record (nodes next) { prev_free = prev })
        else nodes in
      record p {
        nodes = nodes';
        free_list_head = if p.free_list_head == idx then next else p.free_list_head;
        free_list_tail = if p.free_list_tail == idx then prev else p.free_list_tail;
      }

  -- The final part of `emplace`, once the element is out of the free list.
  pub construct : Pool A → ℕ → A → Pool A
  construct p idx a = record p { nodes = update p.nodes idx (fresh (some a)); count = p.count + 1 }

  -- `emplace` after its checks: over a value, at the watermark, or in the free list.
  pub place : Pool A → ℕ → A → Pool A
  place p idx a =
      if valid p idx
      then record p { nodes = update p.nodes idx (record (p.nodes idx) { value = some a }) }
      else (if idx == p.watermark
          then construct (record p { watermark = p.watermark + 1 }) idx a
          else construct (unlink p idx) idx a)

  module _ (capacity : ℕ) where
    pub full : Pool A → Bool
    full p = leb capacity p.count

    -- The loop runs until the watermark is `idx`.
    increase_size : Pool A → ℕ → Option (Pool A)
    increase_size p idx = do assert (ltb idx capacity); some (increase_loop (idx - p.watermark) p)

    pub emplace : Pool A → ℕ → A → Option (Pool A)
    emplace p₀ idx a = do p ← increase_size p₀ idx; assert (ltb idx capacity); some (place p idx a)

    pub emplace_anywhere : Pool A → A → Option (ℕ × Pool A)
    emplace_anywhere p a = do
      let idx = if not (p.free_list_head == end_sentinel) then p.free_list_head else p.watermark
      p' ← emplace p idx a
      some (idx, p')
