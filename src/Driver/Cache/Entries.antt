-- ===== src/Driver/Cache/Entries.antt =====
-- Looking up entries of the block cache after removals.
use scepter.Base.Int.{eq_of_eqb}
use scepter.Driver.Cache.{find_entry, Key, remove_entry, same_key, Entry, last_entry, but_last}
use scepter.Base.{
  some, none, sym, Bool-cases, ◌∙◌, List, inr, if◌then◌else◌, true, refl, ◌≡◌, arith, inl, [], ap,
  ◌∷◌, false,
}

pub same_key_refl : (k : Key) → same_key k k ≡ true
same_key_refl k = ground arith

pub eq_of_same_key : (a b : Key) → same_key a b ≡ true → a ≡ b
eq_of_same_key a b h =
    let p : a.prim_id ≡ b.prim_id = eq_of_eqb a.prim_id b.prim_id (ground arith) in
    let s : a.scnd_id ≡ b.scnd_id = eq_of_eqb a.scnd_id b.scnd_id (ground arith) in
    let o : a.offset ≡ b.offset = ground arith in
    λ i. record { prim_id = p i; scnd_id = s i; offset = o i }

-- No key stands in two entries.
abbrev pub Distinct : List Entry → Type 0
Distinct [] = Unit {0}
Distinct (e ∷ es) = (find_entry e.key es ≡ none) × Distinct es

some_injective : (a b : Entry) → some a ≡ some b → a ≡ b
some_injective a b p = cc

some_not_none : (a : Entry) → some a ≡ none → ⊥
some_not_none a p = cc

same_key_sym : (a b : Key) → same_key a b ≡ false → same_key b a ≡ false
same_key_sym a b h = ground arith

pub find_entry-key : (k : Key) (es : List Entry) (e : Entry) → find_entry k es ≡ some e → e.key ≡ k
unfolding find_entry
find_entry-key k [] e h = absurd (cc)
find_entry-key k (f ∷ es) e h = elim (Bool-cases (same_key f.key k)) [
  | inl hit ↦
      let same : f ≡ e = some_injective f e (rw hit at h) in
      rw (sym same) (eq_of_same_key f.key k hit)
  | inr miss ↦ find_entry-key k es e (rw miss at h)
]

apart_of : (a b k : Key) → same_key a b ≡ false → same_key a k ≡ true → same_key b k ≡ false
apart_of a b k miss hit = ground arith

-- A key that no entry has is not that of the last one.
last_entry-apart :
    (k : Key) (es : List Entry) (v : Entry)
    → find_entry k es ≡ none
    → last_entry es ≡ some v
    → same_key k v.key ≡ false
unfolding find_entry last_entry
last_entry-apart k [] v free h = absurd (cc)
last_entry-apart k (e ∷ []) v free h = elim (Bool-cases (same_key e.key k)) [
  | inl hit ↦ absurd (some_not_none e (rw hit at free))
  | inr miss ↦ let same : e ≡ v = some_injective e v h in rw (sym same) (same_key_sym e.key k miss)
]
last_entry-apart k (e ∷ f ∷ es) v free h = elim (Bool-cases (same_key e.key k)) [
  | inl hit ↦ absurd (some_not_none e (rw hit at free))
  | inr miss ↦ last_entry-apart k (f ∷ es) v (rw miss at free) h
]

pub find_entry-remove :
    (j k : Key) (es : List Entry)
    → Distinct es
    → find_entry k (remove_entry j es) ≡ (if same_key j k then none else find_entry k es)
unfolding find_entry remove_entry
find_entry-remove j k [] d = ground arith
find_entry-remove j k (e ∷ es) (fresh, d) = elim (Bool-cases (same_key e.key j)) [
  | inl hit ↦ rw hit (gone (eq_of_same_key e.key j hit))
  | inr miss ↦ rw (miss, find_entry-remove j k es d) (swap miss)
]
  where
    gone :
        e.key ≡ j
        → find_entry k es
          ≡ (if same_key j k then none else if same_key e.key k then some e else find_entry k es)
    gone same = elim (Bool-cases (same_key j k)) [
      | inl eq ↦ rw eq (ap (λ x. find_entry x es) (sym (same ∙ eq_of_same_key j k eq)) ∙ fresh)
      | inr ne ↦ rw (ne, ap (λ x. same_key x k) same ∙ ne) refl
    ]

    swap :
        same_key e.key j ≡ false
        → (if same_key e.key k then some e else if same_key j k then none else find_entry k es)
          ≡ (if same_key j k then none else if same_key e.key k then some e else find_entry k es)
    swap miss = elim (Bool-cases (same_key e.key k)) [
      | inr other_key ↦ rw other_key refl
      | inl here ↦ rw (here, apart_of e.key j k miss here) refl
    ]

pub find_entry-but_last :
    (k : Key) (es : List Entry) (v : Entry)
    → Distinct es
    → last_entry es ≡ some v
    → find_entry k (but_last es) ≡ (if same_key v.key k then none else find_entry k es)
unfolding find_entry but_last last_entry
find_entry-but_last k [] v d h = absurd (cc)
find_entry-but_last k (e ∷ []) v d h = ground arith
find_entry-but_last k (e ∷ f ∷ es) v (fresh, d) h = rw (find_entry-but_last k (f ∷ es) v d h) swap
  where
    swap :
        (if same_key e.key k
          then some e
          else if same_key v.key k
          then none
          else find_entry k (f ∷ es))
        ≡ (if same_key v.key k
            then none
            else if same_key e.key k
            then some e
            else find_entry k (f ∷ es))
    swap = elim (Bool-cases (same_key e.key k)) [
      | inr other_key ↦ rw other_key refl
      | inl here ↦ rw (here, apart_of e.key v.key k last_apart here) refl
    ]
      where
        last_apart : same_key e.key v.key ≡ false
        last_apart = last_entry-apart e.key (f ∷ es) v fresh h
