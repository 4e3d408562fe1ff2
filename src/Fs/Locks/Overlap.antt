-- ===== src/Fs/Locks/Overlap.antt =====
-- fs/locks.c: the bytes that record locks cover, and the test of their ranges.
use scepter.Fs.Locks.{LockRec, f_unlck, f_wrlck}
use scepter.Fs.Locks.Records.{ranges_overlap, rec_clash, range_end}
use scepter.Base.{
  ℕ, Bool, Bool-cases, true≢false, ◌∙◌, inr, not, ◌||◌, false, ◌≡◌, refl, arith, ◌==◌, sym, inl,
  ◌&&◌, true, ◌^◌, ◌<◌, ltb, ◌+◌, leb, ◌≤◌, both_true, ◌%◌,
}

-- The lock covers the byte at `b`; a length of 0 reaches to the end of the file.
abbrev pub covers : ℕ → LockRec → Bool
covers b r = leb r.start b && (r.len == 0 || ltb b (r.start + r.len))

-- The lock lies below the last 32-bit offset, so that its end does not wrap.
abbrev pub fits : LockRec → Bool
fits r = ltb r.start 0xFFFFFFFF && ltb (r.start + r.len) (2 ^ 32)

-- Two locks of different owners that may share no byte.
abbrev pub rivals : LockRec → LockRec → Bool
rivals r q =
    not (r.kind == f_unlck)
    && not (q.kind == f_unlck)
    && not (r.owner == q.owner)
    && (r.kind == f_wrlck || q.kind == f_wrlck)

-- Such locks, where their ends do not wrap, have no byte in common.
abbrev pub Clear : LockRec → LockRec → Type 0
Clear r q = (b : ℕ) → (rivals r q && fits r && fits q && (covers b r && covers b q)) ≡ false

pub Clear-sym : (r q : LockRec) → Clear r q → Clear q r
Clear-sym r q h b = let other = h b in ground arith

-- A lock that covers a byte ends, for the code, behind every start up to that byte.
end_above :
    (start b : ℕ) (q : LockRec)
    → fits q ≡ true
    → covers b q ≡ true
    → start ≤ b
    → start < 0xFFFFFFFF
    → leb (range_end q.start q.len) start ≡ false
end_above start b q f c le small = elim (Bool-cases (q.len == 0)) [
  | inl endless ↦ rw endless (ground arith)
  | inr bounded ↦
      let end : b < q.start + q.len = ground arith in
      let below : q.start + q.len < 2 ^ 32 = ground arith in
      let same : (q.start + q.len) % 2 ^ 32 ≡ q.start + q.len = omega arith in
      rw (bounded, same) (ground arith)
]

-- Locks that share a byte and do not wrap overlap for the code.
overlap-covers :
    (b : ℕ) (r q : LockRec)
    → fits r ≡ true
    → fits q ≡ true
    → covers b r ≡ true
    → covers b q ≡ true
    → ranges_overlap r.start r.len q.start q.len ≡ true
unfolding ranges_overlap
overlap-covers b r q fr fq cr cq =
    let q_end = end_above r.start b q fq cq (ground arith) (ground arith) in
    let r_end = end_above q.start b r fr cr (ground arith) (ground arith) in rw (q_end, r_end) refl

pub Clear-rec_clash : (r q : LockRec) → rec_clash r.kind r.start r.len r.owner q ≡ false → Clear r q
Clear-rec_clash r q h b =
    elim (Bool-cases (rivals r q && fits r && fits q && (covers b r && covers b q))) [
      | inr clear ↦ clear
      | inl shared ↦
          let (against, (fr, (fq, both))) = parts (rivals r q) (fits r) (fits q) _ shared in
          let (cr, cq) = both_true (covers b r) (covers b q) both in
          absurd (no_clash against (overlap-covers b r q fr fq cr cq))
    ]
  where
    parts :
        (a b c d : Bool)
        → (a && b && c && d) ≡ true
        → (a ≡ true) × ((b ≡ true) × ((c ≡ true) × (d ≡ true)))
    parts a b c d e = ground arith

    no_clash : rivals r q ≡ true → ranges_overlap r.start r.len q.start q.len ≡ true → ⊥
    no_clash against over = true≢false (sym (clash against over) ∙ h)
      where
        clash :
            rivals r q ≡ true
            → ranges_overlap r.start r.len q.start q.len ≡ true
            → rec_clash r.kind r.start r.len r.owner q ≡ true
        clash against over = rw over (ground arith)
