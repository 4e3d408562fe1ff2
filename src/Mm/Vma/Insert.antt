-- ===== src/Mm/Vma/Insert.antt =====
-- mm/vma.c: `vma_insert` and the order of the list.
use scepter.Mm.Vma.{Vma, vma_overlaps, vma_insert, overlaps_one}
use scepter.Base.{
  ℕ, Bool, ◌||◌, inr, ltb, false, refl, ◌∷◌, inl, [], ◌≡◌, Bool-cases, arith, true, List, ◌≤◌,
}

-- No region of the list starts before `low`.
abbrev pub NoneBelow : ℕ → List Vma → Type 0
NoneBelow low [] = Unit {0}
NoneBelow low (v ∷ vs) = (low ≤ v.vm_start) × NoneBelow low vs

-- The list is in the order of the starts.
abbrev pub InOrder : List Vma → Type 0
InOrder [] = Unit {0}
InOrder (v ∷ vs) = NoneBelow v.vm_start vs × InOrder vs

NoneBelow-le : (a b : ℕ) (vs : List Vma) → a ≤ b → NoneBelow b vs → NoneBelow a vs
NoneBelow-le a b [] le h = tt
NoneBelow-le a b (v ∷ vs) le (lo, h) = (omega (arith, le, lo), NoneBelow-le a b vs le h)

NoneBelow-insert :
    (low : ℕ) (v : Vma) (vs : List Vma)
    → low ≤ v.vm_start
    → NoneBelow low vs
    → NoneBelow low (vma_insert v vs)
unfolding vma_insert
NoneBelow-insert low v [] le h = (le, tt)
NoneBelow-insert low v (u ∷ us) le (lo, h) = elim (Bool-cases (ltb v.vm_start u.vm_start)) [
  | inl first ↦ rw first (le, (lo, h))
  | inr later ↦ rw later (lo, NoneBelow-insert low v us le h)
]

InOrder-insert : (v : Vma) (vs : List Vma) → InOrder vs → InOrder (vma_insert v vs)
unfolding vma_insert
InOrder-insert v [] h = (tt, tt)
InOrder-insert v (u ∷ us) (low, h) = elim (Bool-cases (ltb v.vm_start u.vm_start)) [
  | inl first ↦
      let lt : v.vm_start ≤ u.vm_start = ground (arith, first) in
      rw first ((lt, NoneBelow-le v.vm_start u.vm_start us lt low), (low, h))
  | inr later ↦
      rw later (NoneBelow-insert u.vm_start v us (ground (arith, later)) low, InOrder-insert v us h)
]

overlaps-insert :
    (a b : ℕ) (v : Vma) (vs : List Vma)
    → vma_overlaps a b (vma_insert v vs) ≡ (overlaps_one a b v || vma_overlaps a b vs)
unfolding vma_overlaps vma_insert
overlaps-insert a b v [] = refl
overlaps-insert a b v (u ∷ us) = elim (Bool-cases (ltb v.vm_start u.vm_start)) [
  | inl first ↦ rw first refl
  | inr later ↦
      rw (later, overlaps-insert a b v us)
        (swap (overlaps_one a b u) (overlaps_one a b v) (vma_overlaps a b us))
]
  where
    swap : (x y z : Bool) → (x || (y || z)) ≡ (y || (x || z))
    swap true true z = refl
    swap true false z = refl
    swap false true z = refl
    swap false false z = refl

-- Inserting a region leaves the list in the order of the starts, and a range overlaps some
-- region of the new list just if it overlaps the new region or one of the old list.
pub vma_insert-InOrder :
    (v : Vma) (vs : List Vma) (a b : ℕ)
    → InOrder vs
    → InOrder (vma_insert v vs)
      × (vma_overlaps a b (vma_insert v vs) ≡ (overlaps_one a b v || vma_overlaps a b vs))
vma_insert-InOrder v vs a b h = (InOrder-insert v vs h, overlaps-insert a b v vs)
