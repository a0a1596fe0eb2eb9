-- ===== src/Collections/Lru.antt =====
-- `LruCache`: src/shared/collections/src/lru.rs. The hash map of the cache is used through its
-- operations. A cursor over the values or keys is the address of an entry.
pub mod Fresh
pub mod Recent
mod Tests
use vanadinite.Prelude.{
  ℕ, zero, suc, ◌+◌, ◌-◌, Bool, true, false, Option, none, some, List, [], ◌∷◌, ◌==◌, if◌then◌else◌,
}
use vanadinite.Collections.Store.{
  Ptr, Store, Run, done, fault, out_of_fuel, M, pure, ◌>>=◌, ◌>>◌, load, modify, allocate,
  deallocate,
}
use vanadinite.Collections.Doubly.{Node, set_next, set_prev}

-- What an entry keeps besides its two links.
pub record Keyed (V : Type 0) : Type 0 where
  pub key_hash : ℕ
  pub value : V

abbrev pub LruEntry : Type 0 → Type 0
LruEntry V = Node (Keyed V)

-- The operations of `HashMap` that the cache calls. `none` is `AllocError` for `reserve`
-- (`raw_entry_mut`) and `insert`, and a missing entry for the others.
pub record MapOps (K Map : Type 0) : Type 0 where
  pub len : Map → ℕ
  pub hash : K → ℕ
  pub lookup : Map → K → Option Ptr
  pub reserve : Map → Option Map
  pub add : Map → K → Ptr → Option Map
  pub delete : Map → K → Option (Map × Ptr)
  pub delete_entry : Map → ℕ → Ptr → Option Map
  pub key_of : Map → ℕ → Ptr → Option K

pub record LruCache (Map : Type 0) : Type 0 where
  pub map : Map
  pub head : Option Ptr
  pub tail : Option Ptr
  pub cache_capacity : ℕ

-- `new` and `with_hasher`, around an empty map.
abbrev pub new : {Map : Type 0} → Map → ℕ → LruCache Map
new map capacity = record { map = map; head = none; tail = none; cache_capacity = capacity }

pub data Stored (V : Type 0) : Type 0 where
  stored : Option V → Stored V
  no_memory : Stored V
  panicked : Stored V

abbrev pub same_ptr : Option Ptr → Option Ptr → Bool
same_ptr none none = true
same_ptr none (some q) = false
same_ptr (some p) none = false
same_ptr (some p) (some q) = p == q

module _ {V : Type 0} where
  -- `LruEntry::detach`
  unfoldable pub detach : Ptr → M (LruEntry V) (Unit {0})
  unfolding load modify
  detach p = do
    n ← load p
    elim n.prev [
      | some prev ↦ elim n.next [
        | some next ↦ do set_next prev (some next); set_prev next (some prev)
        | none ↦ set_next prev none
      ]
      | none ↦ elim n.next [ some next ↦ set_prev next none | none ↦ pure tt ]
    ]

  unfoldable pub make_head : {Map : Type 0} → LruCache Map → Ptr → M (LruEntry V) (LruCache Map)
  unfolding detach modify
  make_head self entry = if same_ptr self.head (some entry) then pure self else (do
    detach entry
    elim self.head [
      | some head ↦ do
        set_prev head (some entry)
        set_next entry (some head)
        pure (record self {
          head = some entry;
          tail = if same_ptr self.head self.tail then self.head else self.tail;
        })
      | none ↦ pure (record self { head = some entry; tail = some entry })
    ])

  -- One step of `values_descending`: the value, and the entry that follows.
  unfoldable pub descend : Option Ptr → M (LruEntry V) (Option Ptr × Option V)
  unfolding load
  descend none = pure (none, none)
  descend (some p) = do n ← load p; pure (n.next, some n.value.value)

  -- One step of `values_ascending`
  unfoldable pub ascend : Option Ptr → M (LruEntry V) (Option Ptr × Option V)
  unfolding load
  ascend none = pure (none, none)
  ascend (some p) = do n ← load p; pure (n.prev, some n.value.value)

  -- The loop of `drop`, for a list of at most `fuel` entries.
  unfoldable pub drop_loop : ℕ → Option Ptr → M (LruEntry V) (Unit {0})
  unfolding load deallocate
  drop_loop fuel none = pure tt
  drop_loop zero (some p) = λ _. out_of_fuel
  drop_loop (suc fuel) (some p) = do n ← load p; deallocate p; drop_loop fuel n.next

-- The two ends after the entry is gone from the map.
unfoldable pub without_end :
    {Map : Type 0} → LruCache Map → Ptr → Option Ptr → Option Ptr → LruCache Map
without_end self entry prev next =
    if same_ptr self.head (some entry)
    then record self {
      head = next;
      tail = if same_ptr self.head self.tail then none else self.tail;
    }
    else if same_ptr self.tail (some entry)
    then record self { tail = prev }
    else self

module _ {K Map : Type 0} (maps : MapOps K Map) where
  abbrev pub len : LruCache Map → ℕ
  len self = maps.len self.map

  unfoldable pub is_empty : LruCache Map → Bool
  is_empty self = maps.len self.map == 0

module _ {K V Map : Type 0} (maps : MapOps K Map) where
  -- `get`, and `get_mut` before the caller writes
  unfoldable pub get : LruCache Map → K → M (LruEntry V) (LruCache Map × Option V)
  unfolding make_head load
  get self key = elim (maps.lookup self.map key) [
    | none ↦ pure (self, none)
    | some entry ↦ do self' ← make_head self entry; n ← load entry; pure (self', some n.value.value)
  ]

  abbrev set_value : Ptr → V → M (LruEntry V) (Unit {0})
  set_value p v = modify p (λ n. record n { value = record n.value { value = v } })

  -- The eviction of `insert`: the value that it takes out, if the call goes on.
  unfoldable pub evict : LruCache Map → M (LruEntry V) (LruCache Map × Stored V)
  unfolding load detach deallocate
  evict self = elim self.tail [
    | none ↦ pure (self, panicked)
    | some tail ↦ do
      n ← load tail
      detach tail
      elim (maps.reserve self.map) [
        | none ↦ pure (record self { tail = n.prev }, no_memory)
        | some map ↦ elim (maps.delete_entry map n.value.key_hash tail) [
          | none ↦ pure (record self { map = map; tail = n.prev }, panicked)
          | some map' ↦ do
            e ← load tail
            deallocate tail
            pure (record self { map = map'; tail = n.prev }, stored (some e.value.value))
        ]
      ]
  ]

  -- The rest of `insert`, after the eviction.
  unfoldable pub add_entry :
      LruCache Map → K → V → Option V → M (LruEntry V) (LruCache Map × Stored V)
  unfolding allocate make_head
  add_entry self key v removed = do
    made ← allocate (record {
      value = record { key_hash = maps.hash key; value = v };
      prev = none;
      next = none;
    })
    elim made [
      | none ↦ pure (self, no_memory)
      | some entry ↦ do
        self' ← make_head self entry
        elim (maps.add self'.map key entry) [
          | none ↦ pure (self', no_memory)
          | some map ↦ pure (record self' { map = map }, stored removed)
        ]
    ]

  unfoldable pub insert : LruCache Map → K → V → M (LruEntry V) (LruCache Map × Stored V)
  unfolding make_head load modify evict add_entry
  insert self key v = elim (maps.lookup self.map key) [
    | some entry ↦ do
      self' ← make_head self entry
      n ← load entry
      set_value entry v
      pure (self', stored (some n.value.value))
    | none ↦
        if maps.len self.map == self.cache_capacity
        then (do r ← evict self; after_evict r)
        else add_entry self key v none
  ]
    where
      after_evict : LruCache Map × Stored V → M (LruEntry V) (LruCache Map × Stored V)
      after_evict (self', stored removed) = add_entry self' key v removed
      after_evict (self', no_memory) = pure (self', no_memory)
      after_evict (self', panicked) = pure (self', panicked)

  unfoldable pub remove : LruCache Map → K → M (LruEntry V) (LruCache Map × Option V)
  unfolding load detach deallocate without_end
  remove self key = elim (maps.delete self.map key) [
    | none ↦ pure (self, none)
    | some (map, entry) ↦ do
      n ← load entry
      detach entry
      e ← load entry
      deallocate entry
      pure (without_end (record self { map = map }) entry n.prev n.next, some e.value.value)
  ]

  -- One step of `keys_descending`; no key for an entry of the list is a panic.
  unfoldable pub descend_keys :
      LruCache Map → Option Ptr → M (LruEntry V) (Option Ptr × Option (Option K))
  unfolding load
  descend_keys self none = pure (none, some none)
  descend_keys self (some p) = do
    n ← load p
    elim (maps.key_of self.map n.value.key_hash p) [
      | none ↦ pure (n.next, none)
      | some key ↦ pure (n.next, some (some key))
    ]

  -- One step of `keys_ascending`
  unfoldable pub ascend_keys :
      LruCache Map → Option Ptr → M (LruEntry V) (Option Ptr × Option (Option K))
  unfolding load
  ascend_keys self none = pure (none, some none)
  ascend_keys self (some p) = do
    n ← load p
    elim (maps.key_of self.map n.value.key_hash p) [
      | none ↦ pure (n.prev, none)
      | some key ↦ pure (n.prev, some (some key))
    ]
