-- ===== src/Fs/Vfs/Path/Names.antt =====
-- The components of a path that resolve_path of fs/vfs.c copies as they are.
use scepter.Fs.Vfs.Path.{is_dot, slash, push_all, skip_slashes, component, is_dotdot, dot}
use scepter.Base.{
  ℕ, ◌<◌, [], ◌∷◌, ◌&&◌, ◌!=◌, length, refl, arith, true, ◌+◌, Bool, false, List, ◌++◌, ◌≡◌, ◌==◌,
  ap₂, ◌≢◌, sym, ap, ◌∙◌, inl, append_assoc, Bool-cases, inr,
}

abbrev pub no_slash : List ℕ → Bool
no_slash [] = true
no_slash (x ∷ xs) = (x != slash) && no_slash xs

-- The name of a file: no slash in it, and neither `.` nor `..`.
pub record IsName (c : List ℕ) : Type 0 where
  pub nonempty : 0 < length c
  pub slashless : no_slash c ≡ true
  pub not_dot : c ≢ dot ∷ []
  pub not_dotdot : c ≢ dot ∷ dot ∷ []

pub data AllNames : List (List ℕ) → Type 0 where
  no_names : AllNames []
  more_names : {c : List ℕ} {cs : List (List ℕ)} → IsName c → AllNames cs → AllNames (c ∷ cs)

-- The path of names from `/` on.
abbrev pub path : List (List ℕ) → List ℕ
path [] = []
path (c ∷ cs) = slash ∷ (c ++ path cs)

-- The tests of the code for `.` and `..`.
pub is_dot_lem : (c : List ℕ) → c ≢ dot ∷ [] → is_dot c ≡ false
is_dot_lem [] h = refl
is_dot_lem (x ∷ []) h = elim (Bool-cases (x == dot)) [
  | inl t ↦ let same : x ≡ dot = ground arith in absurd (h (ap (λ y. y ∷ []) same))
  | inr t ↦ t
]
is_dot_lem (x ∷ y ∷ c) h = refl

pub is_dotdot_lem : (c : List ℕ) → c ≢ dot ∷ dot ∷ [] → is_dotdot c ≡ false
is_dotdot_lem [] h = refl
is_dotdot_lem (x ∷ []) h = refl
is_dotdot_lem (x ∷ y ∷ []) h = elim (Bool-cases ((x == dot) && (y == dot))) [
  | inl t ↦
      let same_x : x ≡ dot = ground arith in
      let same_y : y ≡ dot = ground arith in absurd (h (ap₂ (λ u v. u ∷ v ∷ []) same_x same_y))
  | inr t ↦ t
]
is_dotdot_lem (x ∷ y ∷ z ∷ c) h = refl

pub path-append : (cs ds : List (List ℕ)) → path (cs ++ ds) ≡ path cs ++ path ds
path-append [] ds = refl
path-append (c ∷ cs) ds =
    ap (λ xs. slash ∷ (c ++ xs)) (path-append cs ds)
    ∙ ap (◌∷◌ slash) (sym (append_assoc c (path cs) (path ds)))

pub AllNames-snoc :
    (cs : List (List ℕ)) (c : List ℕ) → AllNames cs → IsName c → AllNames (cs ++ (c ∷ []))
AllNames-snoc _ c no_names n = more_names n no_names
AllNames-snoc (_ ∷ cs) c (more_names m ms) n = more_names m (AllNames-snoc cs c ms n)

pub component-slashless : (p : List ℕ) → no_slash (component p).0 ≡ true
component-slashless [] = refl
component-slashless (x ∷ p) = elim (Bool-cases (x == slash)) [
  | inl t ↦ rw t refl
  | inr t ↦ let ih = component-slashless p in rw (t, ih) (ground arith)
]

skip_slashes-head :
    (p : List ℕ) (x : ℕ) (q : List ℕ) → skip_slashes p ≡ x ∷ q → (x == slash) ≡ false
skip_slashes-head [] x q e = absurd (cc)
skip_slashes-head (y ∷ p) x q e = elim (Bool-cases (y == slash)) [
  | inl t ↦ skip_slashes-head p x q (rw t at e)
  | inr t ↦ let e' : y ∷ p ≡ x ∷ q = rw t at e in let same : y ≡ x = cc in rw (sym same) t
]

-- The first component after the slashes is not empty.
pub component-progress :
    (p : List ℕ) (x : ℕ) (q : List ℕ) → skip_slashes p ≡ x ∷ q → 0 < length (component (x ∷ q)).0
component-progress p x q e = rw (skip_slashes-head p x q e) (omega arith)

-- The end of a string, or a slash.
pub data Ends : List ℕ → Type 0 where
  at_end : Ends []
  at_slash : {xs : List ℕ} → Ends (slash ∷ xs)

pub no_slash-cons :
    (x : ℕ) (c : List ℕ) → no_slash (x ∷ c) ≡ true → ((x == slash) ≡ false) × (no_slash c ≡ true)
no_slash-cons x c h = ground arith

pub component-name :
    (c rest : List ℕ) → no_slash c ≡ true → Ends rest → component (c ++ rest) ≡ (c, rest)
component-name [] [] h e = refl
component-name [] (x ∷ rest) h (at_slash) = refl
component-name (x ∷ c) rest h e =
    let (hx, hc) = no_slash-cons x c h in let ih = component-name c rest hc e in rw (hx, ih)

pub skip_slashes-name : (c rest : List ℕ) → IsName c → skip_slashes (c ++ rest) ≡ c ++ rest
skip_slashes-name [] rest n = absurd (omega (arith, n.nonempty))
skip_slashes-name (x ∷ c) rest n = let (hx, hc) = no_slash-cons x c n.slashless in rw hx

pub push_all-append : (xs ys zs : List ℕ) → push_all xs (ys ++ zs) ≡ push_all xs ys ++ zs
push_all-append [] ys zs = refl
push_all-append (x ∷ xs) ys zs = push_all-append xs (x ∷ ys) zs

pub append-push_all : (xs ys w : List ℕ) → push_all (xs ++ ys) w ≡ push_all ys (push_all xs w)
append-push_all [] ys w = refl
append-push_all (x ∷ xs) ys w = append-push_all xs ys (x ∷ w)

pub length-push_all : (xs w : List ℕ) → length (push_all xs w) ≡ length xs + length w
length-push_all [] w = omega arith
length-push_all (x ∷ xs) w = omega (arith, length-push_all xs (x ∷ w))
