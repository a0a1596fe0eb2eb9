-- ===== src/Collections/HashMap/Tests.antt =====
-- Runs of the hash map (src/shared/collections/src/hash_map/mod.rs), with numbers as keys.
use mathlib.Core.Path.{subst}
use vanadinite.Prelude.{
  ℕ, zero, suc, ◌%◌, ◌≡◌, ◌≢◌, inr, if◌then◌else◌, refl, Bool, true, Option, none, some, List, [],
  ◌∷◌, ◌==◌, arith, ltb,
}
use vanadinite.Collections.HashMap.Slots.{
  Key, Slot, vacant, occupied, occupied_at, endless, slot_for_hash, read, probe,
}
use vanadinite.Collections.HashMap.Contents.{contents, Reachable}
use vanadinite.Collections.HashMap.Searches.{slot_for_hash-ends}
use vanadinite.Collections.HashMap.Growth.{IsTable, Grows, resize-Grows}
use vanadinite.Collections.HashMap.Lookups.{get-contents}
use vanadinite.Collections.HashMap.Inserts.{Inserted, insert-Inserted, insert-room, get-insert}
use vanadinite.Collections.HashMap.Room.{Kept}
use vanadinite.Collections.HashMap.Removal.{Removed, remove-Removed, remove-loses}
use vanadinite.Collections.HashMap.Crowded.{get-endless}
use vanadinite.Collections.HashMap.Entry.OrInsert.{Ensured, entry_or_insert, entry_or_insert_lem}
use vanadinite.Collections.HashMap.RawEntry
use vanadinite.Collections.HashMap.RawEntry.{
  from_hash_and_value, from_hash_and_value_mut, raw_occupied, raw_vacant, raw_entry_mut, or_insert,
}
use vanadinite.Collections.HashMap.RawEntry.ByHash.{from_hash_and_value_lem}
use vanadinite.Collections.HashMap.{
  HashMap, Outcome, ok, alloc_error, never_ends, ◌>>◌, capacity, insert, get, remove, new, init,
  resize, reserve, write, allocate_zeroed, rehash, slot_for_key,
}

eq_refl : (k : ℕ) → (k == k) ≡ true
eq_refl k = ground arith

eq_sym : (j k : ℕ) → (j == k) ≡ (k == j)
eq_sym j k = ground arith

eq_trans : (j k l : ℕ) → (j == k) ≡ true → (j == l) ≡ (k == l)
eq_trans j k l e = ground arith

hash-eq : (j k : ℕ) → (j == k) ≡ true → j ≡ k
hash-eq j k e = ground arith

abbrev numbers : Key ℕ
numbers = record {
  eq = ◌==◌;
  hash = λ k. k;
  eq_refl = eq_refl;
  eq_sym = eq_sym;
  eq_trans = eq_trans;
  hash-eq = hash-eq;
}

-- An allocator that grants two buckets of at most 20 slots.
abbrev two_buckets : List (ℕ → Bool)
two_buckets = (λ n. ltb n 21) ∷ (λ n. ltb n 21) ∷ []

-- Four inserts, the last of which lets the bucket grow, and a lookup.
run : HashMap ℕ ℕ × Outcome (Option ℕ)
run =
    (do
      insert numbers 1 10
      insert numbers 5 50
      insert numbers 9 90
      insert numbers 1 11
      insert numbers 13 130)
      (new two_buckets)

run_grows : (capacity run.0 ≡ 8) × (get numbers run.0 5 ≡ ok (some 50)) × (run.0.len ≡ 4)
unfolding run insert init resize allocate_zeroed rehash write get slot_for_key
run_grows = (refl, refl, refl)

run_updates :
    (run.1 ≡ ok none) × (get numbers run.0 1 ≡ ok (some 11)) × (get numbers run.0 2 ≡ ok none)
unfolding run insert init resize allocate_zeroed rehash write get slot_for_key
run_updates = (refl, refl, refl)

refused_run : (insert {V = ℕ} numbers 1 10 (new [])).1 ≡ alloc_error
unfolding insert init allocate_zeroed
refused_run = refl

-- Two keys with the same first slot of four.
abbrev colliding : HashMap ℕ ℕ
colliding = record {
  allocator = [];
  bucket = vacant ∷ occupied 1 10 ∷ occupied 5 50 ∷ vacant ∷ [];
  len = 2;
}

-- A bucket of one slot with an entry, as `raw_entry_mut` and `or_insert` leave it.
abbrev single : HashMap ℕ ℕ
single = record { allocator = []; bucket = occupied 3 30 ∷ []; len = 1 }

single_run :
    (do raw_entry_mut numbers; or_insert (raw_vacant 0) 3 30) (new two_buckets)
    ≡ (record single { allocator = (λ n. ltb n 21) ∷ [] }, ok 0)
unfolding raw_entry_mut reserve resize init allocate_zeroed or_insert
single_run = refl

key_of : (k l v w : ℕ) → occupied k v ≡ occupied l w → k ≡ l
key_of k l v w e = ground arith

reached_from :
    (slots : List (Slot ℕ ℕ)) (i k l v w : ℕ)
    → slot_for_key numbers slots k ≡ occupied_at i
    → occupied k v ≡ occupied l w
    → slot_for_key numbers slots l ≡ occupied_at i
reached_from slots i k l v w at e =
    subst (λ n. slot_for_key numbers slots n ≡ occupied_at i) (key_of k l v w e) at

colliding-Reachable : Reachable numbers colliding.bucket
unfolding slot_for_key
colliding-Reachable zero k v e = absurd (ground arith)
colliding-Reachable (suc zero) k v e = reached_from colliding.bucket 1 1 k 10 v refl e
colliding-Reachable (suc (suc zero)) k v e = reached_from colliding.bucket 2 5 k 50 v refl e
colliding-Reachable (suc (suc (suc zero))) k v e = absurd (ground arith)
colliding-Reachable (suc (suc (suc (suc i)))) k v e = absurd (ground arith)

colliding-IsTable : IsTable numbers colliding
colliding-IsTable = record { reachable = colliding-Reachable; counted = refl }

slot_for_hash-ends_example :
    slot_for_hash {K = ℕ} {V = ℕ} (occupied 1 10 ∷ occupied 2 20 ∷ vacant ∷ []) 4 (λ k _. k == 4)
    ≢ endless
slot_for_hash-ends_example =
    slot_for_hash-ends (occupied 1 10 ∷ occupied 2 20 ∷ vacant ∷ []) 4 (λ k _. k == 4) 2
      (omega arith) (omega arith) refl

get-contents_example : get numbers colliding 5 ≡ ok (contents numbers colliding.bucket 5)
get-contents_example =
    get-contents numbers colliding colliding-IsTable 5 (omega arith) (omega arith)

insert-Inserted_example : Inserted numbers (Kept 0) colliding 9 90 (insert numbers 9 90 colliding)
insert-Inserted_example = insert-Inserted numbers colliding 9 90 colliding-IsTable (omega arith)

insert-room_example : (insert numbers 9 90 colliding).1 ≡ ok (contents numbers colliding.bucket 9)
insert-room_example =
    insert-room numbers colliding 9 90 colliding-IsTable (omega arith) (omega arith) (omega arith)

resize-Grows_example : Grows numbers colliding 9 (resize numbers 9 colliding)
resize-Grows_example =
    resize-Grows numbers colliding 9 colliding-IsTable (omega arith) (omega arith)

remove-Removed_example : Removed numbers colliding 1 (remove numbers 1 colliding)
remove-Removed_example =
    remove-Removed numbers colliding 1 colliding-IsTable (omega arith) (omega arith)

first_slot : slot_for_key numbers colliding.bucket 1 ≡ occupied_at (5 % 4)
unfolding slot_for_key
first_slot = refl

five_stored : contents numbers colliding.bucket 5 ≡ some 50
unfolding contents
five_stored = refl

remove-loses_example :
    (get numbers (remove numbers 1 colliding).0 5 ≡ ok none)
    × (contents numbers (remove numbers 1 colliding).0.bucket 5 ≡ some 50)
remove-loses_example =
    remove-loses numbers colliding 1 5 50 colliding-IsTable (omega arith) first_slot refl
      five_stored

four_missing : contents numbers single.bucket 4 ≡ none
unfolding contents
four_missing = refl

get-endless_example :
    (get numbers single 4 ≡ never_ends)
    × ((rounds : ℕ)
        → probe rounds single.bucket (numbers.hash 4) (λ k _. numbers.eq k 4) (numbers.hash 4 % 1) 1
          ≡ endless)
get-endless_example = get-endless numbers single 4 (omega arith) refl four_missing

entry_or_insert_lem_example :
    Ensured numbers colliding 9 90 (entry_or_insert numbers 9 90 colliding)
entry_or_insert_lem_example =
    entry_or_insert_lem numbers colliding 9 90 colliding-IsTable (omega arith)

only_fifty : (p l w : ℕ) → read colliding.bucket p ≡ occupied l w → (w == 50) ≡ true → p ≡ 2
only_fifty zero l w e m = absurd (ground arith)
only_fifty (suc zero) l w e m = absurd (ground arith)
only_fifty (suc (suc zero)) l w e m = refl
only_fifty (suc (suc (suc zero))) l w e m = absurd (ground arith)
only_fifty (suc (suc (suc (suc p)))) l w e m = absurd (ground arith)

from_hash_and_value_lem_example :
    (from_hash_and_value colliding (numbers.hash 5) (λ _ w. w == 50) ≡ ok (some (5, 50)))
    × (from_hash_and_value_mut colliding (numbers.hash 5) (λ _ w. w == 50) ≡ ok (raw_occupied 2))
    × (RawEntry.remove (raw_occupied 2) colliding
        ≡ ((remove numbers 5 colliding).0, ok (some (5, 50))))
from_hash_and_value_lem_example =
    from_hash_and_value_lem numbers colliding colliding-IsTable 2 5 50 (λ _ w. w == 50) refl refl
      only_fifty

abbrev filled : HashMap ℕ ℕ
filled = record {
  allocator = [];
  bucket = occupied 9 90 ∷ occupied 1 10 ∷ occupied 5 50 ∷ vacant ∷ [];
  len = 3;
}

filling : insert numbers 9 90 colliding ≡ (filled, ok none)
unfolding insert write slot_for_key
filling = refl

get-insert_example :
    get numbers filled 2 ≡ ok (if 9 == 2 then some 90 else contents numbers colliding.bucket 2)
get-insert_example =
    get-insert numbers colliding 9 90 2 filled none colliding-IsTable (inr (omega arith))
      (omega arith) filling
