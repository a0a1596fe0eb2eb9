-- ===== src/Materialize.antt =====
-- The buffer and the space of messages: `AlignedHeapBuffer` of
-- src/userspace/libs/materialize/src/buffer.rs, and `ReservationToken` and `Serializer` of serialize.rs
-- there. The allocator is a parameter: its answers to the requests to come, each a test on the number
-- of bytes asked for. The bytes of the buffer are a function, read below the capacity only.
mod Tests
pub mod Buffers
pub mod Spaces
pub mod Tokens
use vanadinite.Prelude.Powers.{next_power_of_two}
use vanadinite.Prelude.{
  ℕ, zero, suc, ◌+◌, ◌-◌, ◌%◌, ◌^◌, Bool, true, false, ◌&&◌, List, [], ◌∷◌, ◌==◌, if◌then◌else◌,
  ltb, leb,
}

pub record AlignedHeapBuffer : Type 0 where
  pub allocator : List (ℕ → Bool)
  pub bytes : ℕ → ℕ
  pub len : ℕ
  pub cap : ℕ

-- A result of the source; `panicked` is a slice out of range.
pub data Outcome (A : Type 0) : Type 0 where
  ok : A → Outcome A
  allocation_error : Outcome A
  not_enough_space : Outcome A
  panicked : Outcome A

infixl 5 ◌>>=◌
abbrev pub ◌>>=◌ : {A B : Type 0} → Outcome A → (A → Outcome B) → Outcome B
ok a >>= k = k a
allocation_error >>= k = allocation_error
not_enough_space >>= k = not_enough_space
panicked >>= k = panicked

abbrev pub max_capacity : ℕ
max_capacity = 2 ^ 63 - 1

abbrev pub new_buffer : List (ℕ → Bool) → AlignedHeapBuffer
new_buffer allocator = record { allocator = allocator; bytes = λ _. 0; len = 0; cap = 0 }

-- `Global.allocate_zeroed`: the allocator after a request that it grants.
unfoldable pub allocate_zeroed : ℕ → List (ℕ → Bool) → Outcome (List (ℕ → Bool))
allocate_zeroed n [] = allocation_error
allocate_zeroed n (grants ∷ rest) = if grants n then ok rest else allocation_error

unfoldable pub init : ℕ → AlignedHeapBuffer → Outcome AlignedHeapBuffer
init starting_capacity self = if ltb max_capacity starting_capacity then allocation_error else (do
  rest ← allocate_zeroed starting_capacity self.allocator
  ok (record { allocator = rest; bytes = λ _. 0; len = self.len; cap = starting_capacity }))

-- `new_len.next_power_of_two().min(Self::MAX_CAPACITY)`
abbrev pub grown_capacity : ℕ → ℕ
grown_capacity new_len =
    let p = next_power_of_two new_len in if ltb max_capacity p then max_capacity else p

unfoldable pub realloc : ℕ → AlignedHeapBuffer → Outcome AlignedHeapBuffer
realloc new_len self =
    if leb new_len self.cap
    then ok self
    else if self.cap == 0
    then init (next_power_of_two new_len) self
    else (do
      rest ← allocate_zeroed (grown_capacity new_len) self.allocator
      ok (record {
        allocator = rest;
        bytes = λ i. if ltb i self.len then self.bytes i else 0;
        len = self.len;
        cap = grown_capacity new_len;
      }))

-- The write of `resize` to the bytes from `len` on, and the new length.
unfoldable pub fill_to : ℕ → ℕ → AlignedHeapBuffer → Outcome AlignedHeapBuffer
fill_to new_len value self =
    if leb new_len self.cap
    then ok (record self {
      bytes = λ i. if leb self.len i && ltb i new_len then value else self.bytes i;
      len = new_len;
    })
    else panicked

unfoldable pub resize : ℕ → ℕ → AlignedHeapBuffer → Outcome AlignedHeapBuffer
resize new_len value self =
    if leb new_len self.len
    then ok (record self { len = new_len })
    else (do self' ← realloc new_len self; fill_to new_len value self')

-- `core::alloc::Layout`
pub record Layout : Type 0 where
  pub size : ℕ
  pub align : ℕ

pub record ReservationToken : Type 0 where
  pub position : ℕ
  pub length : ℕ

-- `ReservationToken::align`; the difference of words wraps.
unfoldable pub align : Layout → ReservationToken → Outcome ReservationToken
align layout self =
    let padding = layout.align - self.position % layout.align in
    let left = (self.length + 2 ^ 64 - padding) % 2 ^ 64 in
    if self.position % layout.align == 0
    then ok self
    else if ltb left layout.size
    then not_enough_space
    else ok (record { position = self.position + padding; length = left })

-- `ReservationToken::split`
unfoldable pub split : Layout → ReservationToken → Outcome (ReservationToken × ReservationToken)
split layout self = do
  aligned ← align layout self
  ok (
    record { position = aligned.position; length = layout.size },
    record {
      position = aligned.position + layout.size;
      length = (aligned.length + 2 ^ 64 - layout.size) % 2 ^ 64;
    },
  )

-- `Serializer::align_to`
unfoldable pub align_to : ℕ → AlignedHeapBuffer → Outcome AlignedHeapBuffer
align_to alignment buffer =
    if buffer.len % alignment == 0
    then ok buffer
    else resize (buffer.len + (alignment - buffer.len % alignment)) 0 buffer

-- `Serializer::reserve_space`
unfoldable pub reserve_space :
    Layout → AlignedHeapBuffer → Outcome (AlignedHeapBuffer × ReservationToken)
reserve_space layout buffer = do
  aligned ← align_to layout.align buffer
  grown ← resize (aligned.len + layout.size) 0 aligned
  ok (grown, record { position = aligned.len; length = layout.size })
