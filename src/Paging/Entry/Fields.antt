-- ===== src/Paging/Entry/Fields.antt =====
-- Reading and writing the fields of a page table entry.
use Prim.Native.Nat.{bit_or}
use vanadinite.Prelude.{
  ℕ, ◌+◌, ◌-◌, ◌*◌, ◌/◌, ◌%◌, ◌^◌, ◌<◌, ◌≡◌, ap, ◌∙◌, none, some, if◌then◌else◌, arith,
}
use vanadinite.Prelude.Bits.{bit_or-zero, bit_or_step, bit_or_disjoint, bit_or_comm}
use vanadinite.Paging.Entry.{
  new, is_valid, flags, set_flags, rsw, set_rsw, entry_ppn, set_ppn, rsw_none,
}

-- Joining bits below a multiple of a power of two.
set_flags_sum : (e f : ℕ) → f < 2 ^ 8 → set_flags e f ≡ e - e % 2 ^ 8 + f
unfolding set_flags
set_flags_sum e f h =
    let multiple : e - e % 2 ^ 8 ≡ e / 2 ^ 8 * 2 ^ 8 = omega arith in
    rw (multiple, bit_or_comm) (bit_or_disjoint 8 f (e / 2 ^ 8) h ∙ omega arith)

-- `set_flags` writes the flags and leaves the `Rsw` bits and the page number.
pub flags-set_flags :
    (e f : ℕ)
    → f < 2 ^ 8
    → (flags (set_flags e f) ≡ f)
      × (rsw (set_flags e f) ≡ rsw e)
      × (set_flags e f / 2 ^ 10 ≡ e / 2 ^ 10)
unfolding flags rsw
flags-set_flags e f h = rw (set_flags_sum e f h) (omega arith, omega arith, omega arith)

set_ppn_sum : (e a : ℕ) → a < 2 ^ 64 → set_ppn e a ≡ e % 2 ^ 10 + a / 2 ^ 12 * 2 ^ 10
unfolding set_ppn
set_ppn_sum e a h =
    let word : a / 2 ^ 12 % 2 ^ 56 * 2 ^ 10 % 2 ^ 64 ≡ a / 2 ^ 12 * 2 ^ 10 = omega arith in
    rw word (bit_or_disjoint 10 (e % 2 ^ 10) (a / 2 ^ 12) (omega arith))

pub number-set_ppn : (e a : ℕ) → a < 2 ^ 64 → set_ppn e a / 2 ^ 10 ≡ a / 2 ^ 12
number-set_ppn e a h = rw (set_ppn_sum e a h) (omega arith)

-- `set_ppn` writes the number of the page that holds the address: a valid entry then reads back the
-- address of that page. The flags and the `Rsw` bits stay.
pub entry_ppn-set_ppn :
    (e a : ℕ)
    → a < 2 ^ 64
    → (entry_ppn (set_ppn e a) ≡ (if is_valid e then some (a / 2 ^ 12 * 2 ^ 12) else none))
      × (flags (set_ppn e a) ≡ flags e)
      × (rsw (set_ppn e a) ≡ rsw e)
unfolding entry_ppn flags rsw
entry_ppn-set_ppn e a h = rw (set_ppn_sum e a h) (ground arith, omega arith, omega arith)

-- Joining a value of two bits touches only the two lowest bits.
pub low_or : (x r : ℕ) → r < 4 → (bit_or x r / 4 ≡ x / 4) × (bit_or x r % 4 ≡ bit_or (x % 4) r)
low_or x r h =
    let gone : r / 2 / 2 ≡ 0 = omega arith in
    let rest : bit_or (x / 2 / 2) (r / 2 / 2) ≡ x / 2 / 2 = rw gone (bit_or-zero (x / 2 / 2)) in
    let rest' : bit_or (x % 4 / 2 / 2) (r / 2 / 2) ≡ x % 4 / 2 / 2 =
      rw gone (bit_or-zero (x % 4 / 2 / 2)) in
    (
      omega (arith, rest, bit_or_step x r, bit_or_step (x / 2) (r / 2)),
      omega (
        arith,
        rest,
        rest',
        bit_or_step x r,
        bit_or_step (x / 2) (r / 2),
        bit_or_step (x % 4) r,
        bit_or_step (x % 4 / 2) (r / 2),
      ),
    )

-- `set_rsw` clears the two `Rsw` bits and joins its value into the two lowest bits instead: whatever
-- it is given, the entry's `Rsw` is `Rsw::NONE` afterwards, its flags have gained the value's bits,
-- and its page number is as before.
pub set_rsw_lem :
    (e r : ℕ)
    → (rsw (set_rsw e r) ≡ rsw_none)
      × (flags (set_rsw e r) ≡ bit_or (flags e) (r % 2 ^ 2))
      × (set_rsw e r / 2 ^ 10 ≡ e / 2 ^ 10)
unfolding rsw set_rsw flags
set_rsw_lem e r =
    let t : ℕ = e - e / 2 ^ 8 % 2 ^ 2 * 2 ^ 8 in
    let (high, low) = low_or t (r % 2 ^ 2) (omega arith) in
    let (high', low') = low_or (e % 2 ^ 8) (r % 2 ^ 2) (omega arith) in
    let same : t % 4 ≡ e % 2 ^ 8 % 4 = omega arith in
    let same' : bit_or (t % 4) (r % 2 ^ 2) ≡ bit_or (e % 2 ^ 8 % 4) (r % 2 ^ 2) =
      ap (λ k. bit_or k (r % 2 ^ 2)) same in
    (omega (arith, high), omega (arith, high, low, high', low', same'), omega (arith, high))

-- The entry that `PageTable::map` writes into an empty one has no `Rsw`, whichever it was given, the
-- page's number, and the flags joined with the value of the `Rsw`.
pub map_entry_lem :
    (f a r : ℕ)
    → f < 2 ^ 8
    → a < 2 ^ 64
    → let e = set_rsw (set_ppn (set_flags new f) a) r in
      (rsw e ≡ rsw_none) × (flags e ≡ bit_or f (r % 2 ^ 2)) × (e / 2 ^ 10 ≡ a / 2 ^ 12)
map_entry_lem f a r hf ha =
    let (fl, _, number) = flags-set_flags new f hf in
    let (_, fl', _) = entry_ppn-set_ppn (set_flags new f) a ha in
    let e = set_ppn (set_flags new f) a in
    let (no_rsw, joined, number') = set_rsw_lem e r in
    (
      no_rsw,
      joined ∙ ap (λ k. bit_or k (r % 2 ^ 2)) (fl' ∙ fl),
      number' ∙ number-set_ppn (set_flags new f) a ha,
    )
