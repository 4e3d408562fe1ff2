-- ===== src/Driver/Cache/Invariant.antt =====
-- The invariant of the block cache.
use scepter.Driver.Cache.Entries.{
  Distinct, find_entry-but_last, find_entry-remove, find_entry-key, same_key_refl,
}
use scepter.Driver.Cache.{
  Cache, writeback_entry, flush_loop, find_entry, remove_entry, but_last, Key, last_entry, Entry,
  same_key, cache_max_entries, evict_lru, dec,
}
use scepter.Base.{
  ℕ, Bool, ◌≡◌, arith, suc, ◌∷◌, if◌then◌else◌, false, ap, ◌≤◌, inl, true, ◌+◌, ◌∙◌, some, [],
  option_map, Option, List, none, inr, Bool-cases, length, refl, ◌&&◌, ◌-◌, sym, Option-cases,
}

pub record IsValid (c : Cache) : Type 0 where
  pub distinct : Distinct c.lru
  pub counted : c.num_entries ≡ length c.lru
  pub bounded : length c.lru ≤ cache_max_entries

still : (b : Bool) (o : Option Entry) → o ≡ none → (if b then none else o) ≡ none
still true o e = refl
still false o e = e

pub Distinct-remove : (j : Key) (es : List Entry) → Distinct es → Distinct (remove_entry j es)
unfolding remove_entry
Distinct-remove j [] d = tt
Distinct-remove j (e ∷ es) (fresh, d) = elim (Bool-cases (same_key e.key j)) [
  | inl hit ↦ rw hit d
  | inr miss ↦ rw miss (
    find_entry-remove j e.key es d ∙ still (same_key j e.key) (find_entry e.key es) fresh,
    Distinct-remove j es d,
  )
]

Distinct-but_last :
    (es : List Entry) (v : Entry) → last_entry es ≡ some v → Distinct es → Distinct (but_last es)
unfolding but_last last_entry
Distinct-but_last [] v h d = tt
Distinct-but_last (e ∷ []) v h d = tt
Distinct-but_last (e ∷ f ∷ es) v h (fresh, d) = (
  find_entry-but_last e.key (f ∷ es) v d h
      ∙ still (same_key v.key e.key) (find_entry e.key (f ∷ es)) fresh,
  Distinct-but_last (f ∷ es) v h d,
)

pub length-remove_entry :
    (j : Key) (es : List Entry) (e : Entry)
    → find_entry j es ≡ some e
    → suc (length (remove_entry j es)) ≡ length es
unfolding remove_entry find_entry
length-remove_entry j [] e h = absurd (cc)
length-remove_entry j (f ∷ es) e h = elim (Bool-cases (same_key f.key j)) [
  | inl hit ↦ rw hit refl
  | inr miss ↦ rw miss (ap suc (length-remove_entry j es e (rw miss at h)))
]

length-but_last :
    (es : List Entry) (v : Entry) → last_entry es ≡ some v → suc (length (but_last es)) ≡ length es
unfolding but_last last_entry
length-but_last [] v h = absurd (cc)
length-but_last (e ∷ []) v h = refl
length-but_last (e ∷ f ∷ es) v h = ap suc (length-but_last (f ∷ es) v h)

-- What writing back leaves of an entry.
abbrev pub cleaned : (accepts : Key → Bool) → Entry → Entry
cleaned accepts e = if e.dirty && accepts e.key then record e { dirty = false } else e

cleaned-key : (accepts : Key → Bool) (e : Entry) → (cleaned accepts e).key ≡ e.key
cleaned-key accepts e = ground arith

writeback-cleaned :
    (accepts : Key → Bool) (e : Entry) (disk : List (Key × List ℕ))
    → (writeback_entry accepts e disk).1 ≡ cleaned accepts e
unfolding writeback_entry
writeback-cleaned accepts e disk = ground arith

pub find_entry-flush_loop :
    (accepts : Key → Bool) (k : Key) (es : List Entry) (disk : List (Key × List ℕ)) (w : ℕ)
    → find_entry k (flush_loop accepts es disk w).0 ≡ option_map (cleaned accepts) (find_entry k es)
unfolding find_entry flush_loop
find_entry-flush_loop accepts k [] disk w = refl
find_entry-flush_loop accepts k (e ∷ es) disk w =
    rw (writeback-cleaned accepts e disk, cleaned-key accepts e)
      (elim (Bool-cases (same_key e.key k)) [
        | inl hit ↦ rw hit refl
        | inr miss ↦ rw miss (
            find_entry-flush_loop accepts k es (writeback_entry accepts e disk).2
              (if e.dirty && (writeback_entry accepts e disk).0 then w + 1 else w))
      ])

pub length-flush_loop :
    (accepts : Key → Bool) (es : List Entry) (disk : List (Key × List ℕ)) (w : ℕ)
    → length (flush_loop accepts es disk w).0 ≡ length es
unfolding flush_loop
length-flush_loop accepts [] disk w = refl
length-flush_loop accepts (e ∷ es) disk w = ap suc (
    length-flush_loop accepts es (writeback_entry accepts e disk).2
      (if e.dirty && (writeback_entry accepts e disk).0 then w + 1 else w))

pub Distinct-flush_loop :
    (accepts : Key → Bool) (es : List Entry) (disk : List (Key × List ℕ)) (w : ℕ)
    → Distinct es
    → Distinct (flush_loop accepts es disk w).0
unfolding flush_loop
Distinct-flush_loop accepts [] disk w d = tt
Distinct-flush_loop accepts (e ∷ es) disk w (fresh, d) =
    let disk' = (writeback_entry accepts e disk).2 in
    let w' = if e.dirty && (writeback_entry accepts e disk).0 then w + 1 else w in
    (
      ap (λ x. find_entry x.key (flush_loop accepts es disk' w').0)
            (writeback-cleaned accepts e disk)
          ∙ ap (λ k. find_entry k (flush_loop accepts es disk' w').0) (cleaned-key accepts e)
          ∙ find_entry-flush_loop accepts e.key es disk' w'
          ∙ ap (option_map (cleaned accepts)) fresh,
      Distinct-flush_loop accepts es disk' w' d,
    )

-- An entry that goes to the front.
pub to_front-IsValid :
    (c : Cache) (k : Key) (e e' : Entry)
    → IsValid c
    → find_entry k c.lru ≡ some e
    → e'.key ≡ e.key
    → IsValid (record c { lru = e' ∷ remove_entry k c.lru })
to_front-IsValid c k e e' v found same = record {
  distinct = (
    ap (λ x. find_entry x (remove_entry k c.lru)) (same ∙ find_entry-key k c.lru e found)
        ∙ find_entry-remove k k c.lru v.distinct
        ∙ rw (same_key_refl k) refl,
    Distinct-remove k c.lru v.distinct,
  );
  counted = v.counted ∙ sym (length-remove_entry k c.lru e found);
  bounded = omega (arith, v.bounded, length-remove_entry k c.lru e found);
}

no_entries : (es : List Entry) → last_entry es ≡ none → length es ≡ 0
unfolding last_entry
no_entries [] h = refl
no_entries (e ∷ []) h = absurd (cc)
no_entries (e ∷ f ∷ es) h = absurd (omega (arith, no_entries (f ∷ es) h))

pub evict_lru-IsValid :
    (accepts : Key → Bool) (c : Cache)
    → IsValid c
    → IsValid (evict_lru accepts c).1 × ((evict_lru accepts c).1.num_entries ≤ c.num_entries - 1)
unfolding evict_lru
evict_lru-IsValid accepts c v = elim (Option-cases (last_entry c.lru)) [
  | inl empty ↦ rw (evict_lru, empty) (v, omega (arith, v.counted, no_entries c.lru empty))
  | inr (victim, last) ↦
      let shorter = length-but_last c.lru victim last in
      let small : dec c.num_entries ≡ c.num_entries - 1 =
        omega (arith, v.counted, v.bounded, shorter) in
      rw (evict_lru, last)
        (
          record {
            distinct = Distinct-but_last c.lru victim last v.distinct;
            counted = omega (arith, small, v.counted, shorter);
            bounded = omega (arith, v.bounded, shorter);
          },
          omega (arith, small),
        )
]

-- A key that is not there is not there after an eviction.
pub evict_lru-absent :
    (accepts : Key → Bool) (k : Key) (c : Cache)
    → IsValid c
    → find_entry k c.lru ≡ none
    → find_entry k (evict_lru accepts c).1.lru ≡ none
unfolding evict_lru
evict_lru-absent accepts k c v absent = elim (Option-cases (last_entry c.lru)) [
  | inl empty ↦ rw (evict_lru, empty) absent
  | inr (victim, last) ↦
      rw (evict_lru, last)
        (find_entry-but_last k c.lru victim v.distinct last
          ∙ still (same_key victim.key k) (find_entry k c.lru) absent)
]
