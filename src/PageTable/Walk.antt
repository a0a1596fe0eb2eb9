-- ===== src/PageTable/Walk.antt =====
-- What a write to the entry that a walk found does to that walk
-- (src/kernel/vanadinite/src/mem/paging/table.rs).
use vanadinite.Prelude.{
  ℕ, ◌≡◌, ◌⊎◌, inl, inr, refl, sym, ◌∙◌, ◌&&◌, List, [], ◌∷◌, ◌==◌, arith, Bool-cases, Option-cases,
}
use vanadinite.Paging.Size.{PageSize, next}
use vanadinite.Paging.Physical.{PhysicalAddress}
use vanadinite.Paging.Entry.{PageTableEntry, EntryKind, not_valid, leaf, branch, kind}
use vanadinite.PageTable.{Memory, write, found, missing, unreachable, locate}

abbrev pub entry_at : Memory → PhysicalAddress → ℕ → PageTableEntry
entry_at m t v = m.tables t v

pub kind_cases :
    (k : EntryKind) → (k ≡ not_valid) ⊎ ((k ≡ leaf) ⊎ ((p : PhysicalAddress) × (k ≡ branch p)))
kind_cases not_valid = inl refl
kind_cases leaf = inr (inl refl)
kind_cases (branch p) = inr (inr (p, refl))

pub write-here : (m : Memory) (t v e : ℕ) → entry_at (write m t v e) t v ≡ e
unfolding write
write-here m t v e = ground arith

-- A write of another entry leaves the kind of one whose kind differs from the overwritten one's.
write-kind :
    (m : Memory) (t v e t' v' p : ℕ)
    → kind (entry_at m t v) ≡ leaf
    → kind (entry_at m t' v') ≡ branch p
    → kind (entry_at (write m t v e) t' v') ≡ branch p
unfolding write
write-kind m t v e t' v' p h b = elim (Bool-cases ((t' == t) && (v' == v))) [
  | inr other ↦ rw other b
  | inl here ↦
      let table : t' ≡ t = ground arith in
      let index : v' ≡ v = ground arith in
      let both : kind (m.tables t v) ≡ branch p = rw (sym table, sym index) b in
      absurd (ground arith)
]

pub locate_lem :
    (m : Memory) (vs : List ℕ) (table : PhysicalAddress) (current : PageSize) (t v : ℕ)
    (size : PageSize)
    → locate m vs table current ≡ found t v size
    → (kind (entry_at m t v) ≡ leaf)
      × ((e : PageTableEntry)
          → kind e ≡ leaf
          → locate (write m t v e) vs table current ≡ found t v size)
      × ((e : PageTableEntry)
          → kind e ≡ not_valid
          → locate (write m t v e) vs table current ≡ missing)
unfolding locate
locate_lem m [] table current t v size h = absurd (ground arith)
locate_lem m (vpn ∷ rest) table current t v size h = elim (kind_cases (kind (m.tables table vpn))) [
  | inl invalid ↦
      let ends : missing ≡ found t v size = sym (rw (locate, invalid) refl) ∙ h in
      absurd (ground arith)
  | inr (inl here) ↦
      let ends : found table vpn current ≡ found t v size = sym (rw (locate, here) refl) ∙ h in
      let same_table : table ≡ t = ground arith in
      let same_vpn : vpn ≡ v = ground arith in
      let same_size : current ≡ size = ground arith in
      let written : (e : PageTableEntry) → entry_at (write m t v e) table vpn ≡ e =
        λ e. rw (same_table, same_vpn) (write-here m t v e) in
      (
        rw (sym same_table, sym same_vpn) here,
        λ e k. rw (locate, written e, k) ends,
        λ e k. rw (locate, written e, k) refl,
      )
  | inr (inr (p, below)) ↦ elim (Option-cases (next current)) [
    | inl lowest ↦
        let ends : unreachable ≡ found t v size = sym (rw (locate, below, lowest) refl) ∙ h in
        absurd (ground arith)
    | inr (smaller, step) ↦
        let further : locate m rest p smaller ≡ found t v size =
          sym (rw (locate, below, step) refl) ∙ h in
        let (at, stays, gone) = locate_lem m rest p smaller t v size further in
        (
          at,
          λ e k. rw (locate, write-kind m t v e table vpn p at below, step) (stays e k),
          λ e k. rw (locate, write-kind m t v e table vpn p at below, step) (gone e k),
        )
  ]
]
