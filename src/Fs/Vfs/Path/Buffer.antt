-- ===== src/Fs/Vfs/Path/Buffer.antt =====
-- The buffers of resolve_path of fs/vfs.c: where it fails, and what it fits into.
use scepter.Fs.Vfs.Path.Fits.{resolve_raw-Fits}
use scepter.Fs.Vfs.Path.Chroot.{limited-some, joined}
use scepter.Fs.Vfs.Path.Names.{Ends, at_slash}
use scepter.Fs.Vfs.Path.{
  raw_path, resolve_path, slash, absolute_path, relative_path, limited, max_path_len, no_separator,
}
use mathlib.Core.Path.{subst}
use scepter.Base.{
  ℕ, inr, ◌<◌, some_inj, ◌==◌, leb, ◌∷◌, ltb, inl, Option-cases, ◌++◌, arith, List, suc, ◌⊎◌,
  length, ◌≡◌, Bool-cases, some, [], none, refl, none≢some, length-append, ◌+◌, Bool, false, true,
  sym, Option, ◌∙◌, if◌then◌else◌, ap,
}

-- What the raw path is: it starts with a slash and is shorter than the buffer.
abbrev Raw : List ℕ → Type 0
Raw tmp = Ends tmp × ((0 < length tmp) × (length tmp < max_path_len))

limited-Raw : (xs tmp : List ℕ) → Ends xs → 0 < length xs → limited xs ≡ some tmp → Raw tmp
limited-Raw xs tmp he h e = elim (Bool-cases (leb max_path_len (length xs))) [
  | inl t ↦ absurd (none≢some tmp (rw t at e))
  | inr t ↦
      let room : length xs < max_path_len = ground arith in
      subst Raw (limited-some xs tmp e) (he, (h, room))
]

relative_path-Raw :
    (cwd input tmp : List ℕ) → relative_path (slash ∷ cwd) input ≡ some tmp → Raw tmp
relative_path-Raw cwd input tmp e =
    elim (Bool-cases (leb max_path_len (length (slash ∷ cwd) + 1 + length input + 1))) [
      | inl t ↦ absurd (none≢some tmp (rw t at e))
      | inr t ↦
          let room : suc (length cwd) + 1 + length input + 1 < max_path_len = ground arith in
          elim (joined _ (no_separator (slash ∷ cwd)) ((slash ∷ cwd) ++ input)
            ((slash ∷ cwd) ++ (slash ∷ input)) tmp e) [
              | inl (_, same) ↦
                  subst Raw same (at_slash, (omega arith, omega (arith, length-append cwd input)))
              | inr (_, same) ↦
                  subst Raw same
                    (at_slash, (omega arith, omega (arith, length-append cwd (slash ∷ input))))
            ]
    ]

absolute_path-Raw :
    (root input tmp : List ℕ) → absolute_path (slash ∷ root) input ≡ some tmp → Raw tmp
absolute_path-Raw root [] tmp e = elim (Bool-cases (ltb 1 (length (slash ∷ root)))) [
  | inl t ↦ limited-Raw (slash ∷ root) tmp at_slash (omega arith) (rw t at e)
  | inr t ↦ subst Raw (some_inj (rw t at e)) (at_slash, (omega arith, omega arith))
]
absolute_path-Raw root (x ∷ xs) tmp e = elim (Bool-cases (ltb 1 (length (slash ∷ root)))) [
  | inl t ↦ limited-Raw ((slash ∷ root) ++ (slash ∷ x ∷ xs)) tmp at_slash (omega arith) (rw t at e)
  | inr t ↦ limited-Raw (slash ∷ x ∷ xs) tmp at_slash (omega arith) (rw t at e)
]

raw_path-Raw :
    (root cwd input tmp : List ℕ) → raw_path (slash ∷ root) (slash ∷ cwd) input ≡ some tmp → Raw tmp
unfolding raw_path
raw_path-Raw root cwd [] tmp e = relative_path-Raw cwd [] tmp e
raw_path-Raw root cwd (x ∷ input) tmp e = elim (Bool-cases (x == slash)) [
  | inl t ↦ absolute_path-Raw root input tmp (rw (raw_path, t) at e)
  | inr t ↦ relative_path-Raw cwd (x ∷ input) tmp (rw (raw_path, t) at e)
]

-- How many bytes of an absolute path stand behind the root: none for `/` alone.
abbrev pub behind_root : List ℕ → ℕ
behind_root [] = 0
behind_root (x ∷ rest) = suc (suc (length rest))

-- Whether a path is refused. An absolute one is for the root, where it is not `/`, and the input
-- behind it; a relative one for the directory, the input and two bytes more, also where no
-- separator is needed.
abbrev pub too_long : (root cwd input : List ℕ) → Bool
too_long root cwd [] = leb 256 (length cwd + 2)
too_long root cwd (x ∷ input) =
    if x == slash
    then leb 256 ((if ltb 1 (length root) then length root else 0) + behind_root input)
    else leb 256 (length cwd + suc (length input) + 2)

abbrev is_none {ℓ} : {A : Type ℓ} → Option A → Bool
is_none none = true
is_none (some _) = false

refused_if :
    (long bare : Bool) (u v : List ℕ)
    → is_none (if long then none else if bare then some u else some v) ≡ long
refused_if true bare u v = refl
refused_if false true u v = refl
refused_if false false u v = refl

relative_path-too_long :
    (cwd input : List ℕ)
    → is_none (relative_path cwd input) ≡ leb 256 (length cwd + length input + 2)
relative_path-too_long cwd input =
    let same : length cwd + 1 + length input + 1 ≡ length cwd + length input + 2 = omega arith in
    refused_if _ (no_separator cwd) (cwd ++ input) (cwd ++ (slash ∷ input)) ∙ ap (leb 256) same

limited-too_long : (xs : List ℕ) → is_none (limited xs) ≡ leb 256 (length xs)
limited-too_long xs = refused_if (leb 256 (length xs)) true xs xs

absolute_path-too_long :
    (root input : List ℕ)
    → is_none (absolute_path root input)
      ≡ leb 256 ((if ltb 1 (length root) then length root else 0) + behind_root input)
absolute_path-too_long root [] = elim (Bool-cases (ltb 1 (length root))) [
  | inl t ↦
      let same : length root ≡ length root + 0 = omega arith in
      rw t (limited-too_long root ∙ ap (leb 256) same)
  | inr t ↦ rw t refl
]
absolute_path-too_long root (x ∷ xs) = elim (Bool-cases (ltb 1 (length root))) [
  | inl t ↦ rw t (
      limited-too_long (root ++ (slash ∷ x ∷ xs))
      ∙ ap (leb 256) (length-append root (slash ∷ x ∷ xs)))
  | inr t ↦
      let same : suc (suc (length xs)) ≡ 0 + suc (suc (length xs)) = omega arith in
      rw t (limited-too_long (slash ∷ x ∷ xs) ∙ ap (leb 256) same)
]

raw_path-too_long :
    (root cwd input : List ℕ) → is_none (raw_path root cwd input) ≡ too_long root cwd input
unfolding raw_path
raw_path-too_long root cwd [] =
    let same : length cwd + 0 + 2 ≡ length cwd + 2 = omega arith in
    relative_path-too_long cwd [] ∙ ap (leb 256) same
raw_path-too_long root cwd (x ∷ input) = elim (Bool-cases (x == slash)) [
  | inl t ↦ rw t (absolute_path-too_long root input)
  | inr t ↦ rw t (relative_path-too_long cwd (x ∷ input))
]

pub resolve_path-Fits :
    (root cwd input : List ℕ)
    → ((too_long (slash ∷ root) (slash ∷ cwd) input ≡ true)
        × (resolve_path (slash ∷ root) (slash ∷ cwd) input max_path_len ≡ some none))
      ⊎ ((too_long (slash ∷ root) (slash ∷ cwd) input ≡ false)
          × ((out : List ℕ) × ((resolve_path (slash ∷ root) (slash ∷ cwd) input max_path_len
                  ≡ some (some out))
                × (length out < max_path_len))))
unfolding resolve_path
resolve_path-Fits root cwd input =
    let long = raw_path-too_long (slash ∷ root) (slash ∷ cwd) input in
    elim (Option-cases (raw_path (slash ∷ root) (slash ∷ cwd) input)) [
      | inl en ↦ inl (sym long ∙ ap is_none en, rw (resolve_path, en) refl)
      | inr (tmp, et) ↦
          let (he, (h0, hs)) = raw_path-Raw root cwd input tmp et in
          let (out, (eo, lo)) =
            resolve_raw-Fits (slash ∷ root) tmp max_path_len he h0 hs (omega arith) in
          inr (sym long ∙ ap is_none et, (out, (rw (resolve_path, et) eo, lo)))
    ]
