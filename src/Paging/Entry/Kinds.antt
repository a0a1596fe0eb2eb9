-- ===== src/Paging/Entry/Kinds.antt =====
-- What a walk of the page table sees of an entry: `PageTableEntry::kind`.
use Prim.Native.Nat.{bit_and, bit_or}
use vanadinite.Prelude.{
  ℕ, ◌*◌, ◌/◌, ◌%◌, ◌^◌, ◌<◌, ◌≤◌, ◌≡◌, ◌⊎◌, inl, inr, Bool-cases, refl, ◌∙◌, true, ◌||◌, none,
  some, ◌==◌, if◌then◌else◌, arith,
}
use vanadinite.Prelude.Bits.{bit_and_step, bit_and-zero, bit_or_step}
use vanadinite.Paging.Flags
use vanadinite.Paging.Flags.{has}
use vanadinite.Paging.Physical.{PhysicalAddress}
use vanadinite.Paging.Entry.{
  PageTableEntry, not_valid, leaf, branch, new, flags, set_flags, set_rsw, entry_ppn, set_ppn, kind,
}
use vanadinite.Paging.Entry.Fields.{
  flags-set_flags, entry_ppn-set_ppn, number-set_ppn, map_entry_lem, low_or,
}

has-valid : (f : ℕ) → has f Flags.valid ≡ (f % 2 == 1)
unfolding has
has-valid f = rw and_one refl
  where
    and_one : bit_and f 1 ≡ f % 2
    and_one = omega (arith, bit_and_step f 1, bit_and-zero (f / 2))

has-read : (f : ℕ) → has f Flags.read ≡ (f / 2 % 2 == 1)
unfolding has
has-read f = rw and_two (ground arith)
  where
    and_two : bit_and f 2 ≡ f / 2 % 2 * 2
    and_two = omega (arith, bit_and_step f 2, bit_and_step (f / 2) 1, bit_and-zero (f / 2 / 2))

has-execute : (f : ℕ) → has f Flags.execute ≡ (f / 8 % 2 == 1)
unfolding has
has-execute f = rw and_eight (ground arith)
  where
    and_eight : bit_and f 8 ≡ f / 8 % 2 * 8
    and_eight = omega (
      arith,
      bit_and_step f 8,
      bit_and_step (f / 2) 4,
      bit_and_step (f / 2 / 2) 2,
      bit_and_step (f / 2 / 2 / 2) 1,
      bit_and-zero (f / 2 / 2 / 2 / 2),
    )

kind_bits :
    (e : ℕ)
    → kind e ≡ (
        if e % 2 == 1
        then (if (e / 2 % 2 == 1) || (e / 8 % 2 == 1)
            then leaf
            else branch (e / 2 ^ 10 * 2 ^ 12 % 2 ^ 64))
        else not_valid)
unfolding kind
kind_bits e =
    rw (has-valid (e % 2 ^ 8), has-read (e % 2 ^ 8), has-execute (e % 2 ^ 8)) (ground arith)

-- What a walk learns of an entry agrees with `ppn`: an entry of kind `NotValid` has no page number, a
-- leaf has one, and a branch has the one that it carries. The `unwrap` in `kind` does not panic.
pub kind-entry_ppn :
    (e : PageTableEntry)
    → ((kind e ≡ not_valid) × (entry_ppn e ≡ none))
      ⊎ ((p : PhysicalAddress) × (entry_ppn e ≡ some p) × ((kind e ≡ leaf) ⊎ (kind e ≡ branch p)))
unfolding entry_ppn
kind-entry_ppn e = elim (Bool-cases (e % 2 == 1)) [
  | inr invalid ↦ inl (kind_bits e ∙ rw invalid refl, ground arith)
  | inl valid ↦ inr (
    e / 2 ^ 10 * 2 ^ 12 % 2 ^ 64,
    ground arith,
    elim (Bool-cases ((e / 2 % 2 == 1) || (e / 8 % 2 == 1))) [
      | inl page ↦ inl (kind_bits e ∙ rw (valid, page) refl)
      | inr table ↦ inr (kind_bits e ∙ rw (valid, table) refl)
    ],
  )
]

-- The entry that `map` writes for a new subtable is read back by the walk as a branch to the page of
-- that table.
pub kind-subtable :
    (a : ℕ)
    → a < 2 ^ 64
    → kind (set_ppn (set_flags new Flags.valid) a) ≡ branch (a / 2 ^ 12 * 2 ^ 12)
kind-subtable a h =
    let e = set_ppn (set_flags new Flags.valid) a in
    let (_, fl, _) = entry_ppn-set_ppn (set_flags new Flags.valid) a h in
    let (fl', _, _) = flags-set_flags new Flags.valid (omega arith) in
    walk e (fl ∙ fl') (number-set_ppn (set_flags new Flags.valid) a h)
  where
    walk : (e : ℕ) → flags e ≡ 1 → e / 2 ^ 10 ≡ a / 2 ^ 12 → kind e ≡ branch (a / 2 ^ 12 * 2 ^ 12)
    walk e fl number = unfold flags in ground (arith, kind_bits e)

-- The entry that `map` writes for a page whose flags hold `VALID` and one of `READ` and `EXECUTE` is
-- read back as a leaf with the address of the page, whichever `Rsw` is given.
pub kind-map_entry :
    (f a r : ℕ)
    → f < 2 ^ 8
    → a < 2 ^ 64
    → has f Flags.valid ≡ true
    → (has f Flags.read || has f Flags.execute) ≡ true
    → let e = set_rsw (set_ppn (set_flags new f) a) r in
      (kind e ≡ leaf) × (entry_ppn e ≡ some (a / 2 ^ 12 * 2 ^ 12))
kind-map_entry f a r hf ha v l =
    let e = set_rsw (set_ppn (set_flags new f) a) r in
    let (_, joined, number) = map_entry_lem f a r hf ha in
    let o = bit_or f (r % 2 ^ 2) in
    let high : o / 4 ≡ f / 4 = (low_or f (r % 2 ^ 2) (omega arith)).0 in
    let one : f % 2 ≤ o % 2 = omega (arith, bit_or_step f (r % 2 ^ 2)) in
    let two : f / 2 % 2 ≤ o / 2 % 2 =
      omega (arith, bit_or_step f (r % 2 ^ 2), bit_or_step (f / 2) (r % 2 ^ 2 / 2)) in
    walk e o joined number high one two
  where
    walk :
        (e o : ℕ)
        → flags e ≡ o
        → e / 2 ^ 10 ≡ a / 2 ^ 12
        → o / 4 ≡ f / 4
        → f % 2 ≤ o % 2
        → f / 2 % 2 ≤ o / 2 % 2
        → (kind e ≡ leaf) × (entry_ppn e ≡ some (a / 2 ^ 12 * 2 ^ 12))
    walk e o fl number high one two =
        unfold flags entry_ppn in
        (
          ground (arith, kind_bits e, has-valid f, has-read f, has-execute f),
          ground (arith, has-valid f),
        )
