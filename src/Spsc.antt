-- ===== src/Spsc.antt =====
-- The single-producer single-consumer ring: src/concurrency/spsc_ring.hpp. The capacity is the first
-- argument, a buffer is a function of its index. The state has the two shared cursors and the two
-- copies each side keeps; a copy may be old, so an operation sees the other side's cursor when it
-- loads it. The processor event that wakes a waiting side is not modelled, nor the load on ARM that decides
-- on it and makes such a copy newer.
pub mod Cells
pub mod Queue
pub mod Consumer
pub mod Producer
mod Tests
use astral_runtime.Base.{
  ℕ, zero, suc, ◌+◌, ◌-◌, min, bit_and, Bool, true, false, not, ◌&&◌, Option, some, none, leb, ltb,
  ◌==◌, if◌then◌else◌, add64, sub64,
}

pub record SpscRing (A : Type 0) : Type 0 where
  pub head : ℕ
  pub tail : ℕ
  pub producer_head_cache : ℕ
  pub producer_tail_cache : ℕ
  pub consumer_head_cache : ℕ
  pub consumer_tail_cache : ℕ
  pub buffer : ℕ → A

-- `kIndexMask` on a cursor.
unfoldable pub cell : ℕ → ℕ → ℕ
cell capacity i = bit_and i (capacity - 1)

unfoldable pub new : {A : Type 0} → (ℕ → A) → SpscRing A
new storage = record {
  head = 0;
  tail = 0;
  producer_head_cache = 0;
  producer_tail_cache = 0;
  consumer_head_cache = 0;
  consumer_tail_cache = 0;
  buffer = storage;
}

-- `n` elements of `src` from `from` on, written to `dst` from `at` on.
unfoldable pub memcpy : {A : Type 0} → (ℕ → A) → ℕ → (ℕ → A) → ℕ → ℕ → ℕ → A
memcpy dst at src from n j = if leb at j && ltb j (at + n) then src (from + (j - at)) else dst j

-- A store of the item and of the new head.
unfoldable pub publish : {A : Type 0} → ℕ → SpscRing A → A → SpscRing A
publish capacity r item = record r {
  head = add64 r.producer_head_cache 1;
  producer_head_cache = add64 r.producer_head_cache 1;
  buffer = memcpy r.buffer (cell capacity r.producer_head_cache) (λ _. item) 0 1;
}

unfoldable pub push : {A : Type 0} → ℕ → SpscRing A → A → Bool × SpscRing A
push capacity r item =
    let next_head = add64 r.producer_head_cache 1 in
    let r' = record r { producer_tail_cache = r.tail } in
    if ltb capacity (sub64 next_head r.producer_tail_cache)
    then if ltb capacity (sub64 next_head r.tail)
      then (false, r')
      else (true, publish capacity r' item)
    else (true, publish capacity r item)

unfoldable pub take_one : {A : Type 0} → ℕ → SpscRing A → Option A × SpscRing A
take_one capacity r = (
  some (r.buffer (cell capacity r.consumer_tail_cache)),
  record r {
    consumer_tail_cache = add64 r.consumer_tail_cache 1;
    tail = add64 r.consumer_tail_cache 1;
  },
)

unfoldable pub pop : {A : Type 0} → ℕ → SpscRing A → Option A × SpscRing A
pop capacity r =
    let r' = record r { consumer_head_cache = r.head } in
    if leb r.consumer_head_cache r.consumer_tail_cache
    then if leb r.head r.consumer_tail_cache then (none, r') else take_one capacity r'
    else take_one capacity r

-- The two copies of a batch that may pass the end of the buffer.
unfoldable pub copy_in : {A : Type 0} → ℕ → (ℕ → A) → ℕ → (ℕ → A) → ℕ → ℕ → A
copy_in capacity buffer head items n =
    let begin = cell capacity head in
    let first = if ltb n (capacity - begin) then n else capacity - begin in
    let one = memcpy buffer begin items 0 first in
    if ltb first n then memcpy one 0 items first (n - first) else one

unfoldable pub copy_out : {A : Type 0} → ℕ → (ℕ → A) → ℕ → (ℕ → A) → ℕ → ℕ → A
copy_out capacity buffer tail out n =
    let begin = cell capacity tail in
    let first = if ltb n (capacity - begin) then n else capacity - begin in
    let one = memcpy out 0 buffer begin first in
    if ltb first n then memcpy one first buffer 0 (n - first) else one

-- The end of `push_batch`, once it is known how many fit.
unfoldable pub store_batch : {A : Type 0} → ℕ → SpscRing A → (ℕ → A) → ℕ → ℕ → ℕ × SpscRing A
store_batch capacity r items count available =
    let n = if ltb count available then count else available in
    (
      n,
      record r {
        buffer = copy_in capacity r.buffer r.producer_head_cache items n;
        producer_head_cache = add64 r.producer_head_cache n;
        head = add64 r.producer_head_cache n;
      },
    )

unfoldable pub push_batch : {A : Type 0} → ℕ → SpscRing A → (ℕ → A) → ℕ → ℕ × SpscRing A
push_batch capacity r items count =
    let available = sub64 capacity (sub64 r.producer_head_cache r.producer_tail_cache) in
    let r' = record r { producer_tail_cache = r.tail } in
    let fresh = sub64 capacity (sub64 r.producer_head_cache r.tail) in
    if count == 0
    then (0, r)
    else if ltb available count
    then if fresh == 0 then (0, r') else store_batch capacity r' items count fresh
    else store_batch capacity r items count available

unfoldable pub release : {A : Type 0} → SpscRing A → ℕ → SpscRing A
release r n = record r {
  consumer_tail_cache = add64 r.consumer_tail_cache n;
  tail = add64 r.consumer_tail_cache n;
}

-- How many a consumer takes of `count`, and the ring with the head it may have loaded.
unfoldable pub reserve : {A : Type 0} → SpscRing A → ℕ → ℕ × SpscRing A
reserve r count =
    let available = sub64 r.consumer_head_cache r.consumer_tail_cache in
    let fresh = sub64 r.head r.consumer_tail_cache in
    if ltb available count
    then (if ltb count fresh then count else fresh, record r { consumer_head_cache = r.head })
    else (count, r)

-- How many were read, the memory behind `out`, and the ring.
unfoldable pub pop_batch : {A : Type 0} → ℕ → SpscRing A → (ℕ → A) → ℕ → ℕ × (ℕ → A) × SpscRing A
pop_batch capacity r out count =
    if count == 0
    then (0, out, r)
    else let reserved = reserve r count in
      if reserved.0 == 0 then (0, out, reserved.1) else (
        reserved.0,
        copy_out capacity r.buffer r.consumer_tail_cache out reserved.0,
        release reserved.1 reserved.0,
      )

-- A call of `fn` for each of `n` items from a place on; `fn` takes a state of its own.
unfoldable pub each : {A : Type 0} {S : Type 0} → (S → A → S) → S → (ℕ → A) → ℕ → ℕ → S
each fn s buffer at zero = s
each fn s buffer at (suc n) = each fn (fn s (buffer at)) buffer (at + 1) n

unfoldable pub consume_batch :
    {A : Type 0} {S : Type 0} → ℕ → SpscRing A → ℕ → (S → A → S) → S → ℕ × S × SpscRing A
consume_batch capacity r count fn s =
    if count == 0
    then (0, s, r)
    else let reserved = reserve r count in
      let n = reserved.0 in
      let begin = cell capacity r.consumer_tail_cache in
      let first = if ltb n (capacity - begin) then n else capacity - begin in
      if n == 0 then (0, s, reserved.1) else (
        n,
        each fn (each fn s r.buffer begin first) r.buffer 0 (n - first),
        release reserved.1 n,
      )

-- The difference of the cursors as a signed number, 0 if it is negative.
unfoldable pub size : {A : Type 0} → SpscRing A → ℕ
size r = if ltb (sub64 r.head r.tail) 0x8000_0000_0000_0000 then sub64 r.head r.tail else 0

pub empty : {A : Type 0} → SpscRing A → Bool
empty r = size r == 0

pub reset : {A : Type 0} → SpscRing A → SpscRing A
unfolding new
reset r = new r.buffer
