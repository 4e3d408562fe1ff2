-- ===== src/Fs/Vfs/Path.antt =====
-- resolve_path of fs/vfs.c: an absolute path, normalised within the chroot of the task.
pub mod Names
pub mod Climb
pub mod Jail
pub mod Root
pub mod Chroot
pub mod Fits
pub mod Buffer
use scepter.Base.{
  ℕ, leb, ltb, List, none, true, ◌∷◌, suc, Option, ◌+◌, some, zero, ◌!=◌, Bool, false, ◌&&◌, [],
  length, option_map, ◌-◌, ◌==◌, ◌++◌, if◌then◌else◌,
}

abbrev pub slash : ℕ
slash = 47

abbrev pub dot : ℕ
dot = 46

abbrev pub max_path_len : ℕ
max_path_len = 256

-- A string is the list of its bytes without the final NUL.
abbrev pub skip_slashes : List ℕ → List ℕ
skip_slashes [] = []
skip_slashes (x ∷ xs) = if x == slash then skip_slashes xs else x ∷ xs

-- The component that starts at `p`, and where it ends.
abbrev pub component : List ℕ → List ℕ × List ℕ
component [] = ([], [])
component (x ∷ xs) =
    let (comp, rest) = component xs in if x == slash then ([], x ∷ xs) else (x ∷ comp, rest)

abbrev pub is_dot : List ℕ → Bool
is_dot (x ∷ []) = x == dot
is_dot _ = false

abbrev pub is_dotdot : List ℕ → Bool
is_dotdot (x ∷ y ∷ []) = (x == dot) && (y == dot)
is_dotdot _ = false

-- `out[0 .. dst - out - 1]` is kept with its last byte first. The bytes copied to `dst`:
abbrev pub push_all : List ℕ → List ℕ → List ℕ
push_all [] w = w
push_all (x ∷ xs) w = push_all xs (x ∷ w)

-- `while (dst > out + boundary && *(dst - 1) != '/') dst--;`
unfoldable pub strip : (boundary : ℕ) → List ℕ → List ℕ
strip boundary [] = []
strip boundary (x ∷ w) =
    let rest = strip boundary w in
    if ltb boundary (suc (length w)) && (x != slash) then rest else x ∷ w

-- `..`: back over the last component, never below the boundary.
unfoldable pub go_up : (boundary : ℕ) → List ℕ → List ℕ
go_up boundary [] = []
go_up boundary (x ∷ w) = if ltb boundary (suc (length w)) then strip boundary w else x ∷ w

unfoldable pub add_separator : (size : ℕ) → List ℕ → Option (List ℕ)
add_separator size [] = some []
add_separator size (x ∷ w) =
    if ltb 1 (suc (length w)) && (x != slash)
    then (if leb (size - 1) (suc (length w)) then none else some (slash ∷ x ∷ w))
    else some (x ∷ w)

abbrev pub copy_component : (size : ℕ) → List ℕ → List ℕ → Option (List ℕ)
copy_component size comp w =
    if ltb (size - 1) (length w + length comp) then none else some (push_all comp w)

-- One component; `none` is the return of -1.
unfoldable pub put_component : (size boundary : ℕ) → List ℕ → List ℕ → Option (List ℕ)
put_component size boundary comp w =
    if is_dot comp
    then some w
    else if is_dotdot comp
    then some (go_up boundary w)
    else elim (add_separator size w) [ none ↦ none | some w' ↦ copy_component size comp w' ]

-- The loop over the components; the outer `none` means that the fuel ran out.
unfoldable pub normalise : (fuel size boundary : ℕ) → (p w : List ℕ) → Option (Option (List ℕ))
normalise zero size boundary p w = none
normalise (suc fuel) size boundary p w = elim (skip_slashes p) [
  | [] ↦ some (some w)
  | x ∷ q ↦
      let (comp, rest) = component (x ∷ q) in
      elim (put_component size boundary comp w) [
        | none ↦ some none
        | some w' ↦ normalise fuel size boundary rest w'
      ]
]

abbrev pub starts_with : (prefix xs : List ℕ) → Bool
starts_with [] xs = true
starts_with (y ∷ ys) [] = false
starts_with (y ∷ ys) (x ∷ xs) = (y == x) && starts_with ys xs

-- Whether the separator is left out after `cwd`.
abbrev pub no_separator : List ℕ → Bool
no_separator [] = true
no_separator (x ∷ []) = x == slash
no_separator (x ∷ y ∷ xs) = no_separator (y ∷ xs)

abbrev pub limited : List ℕ → Option (List ℕ)
limited tmp = if leb max_path_len (length tmp) then none else some tmp

-- `tmp`, the path from `/` before it is normalised; `none` is the return of -1.
abbrev pub relative_path : (cwd input : List ℕ) → Option (List ℕ)
relative_path cwd input =
    if leb max_path_len (length cwd + 1 + length input + 1)
    then none
    else if no_separator cwd
    then some (cwd ++ input)
    else some (cwd ++ (slash ∷ input))

abbrev pub absolute_path : (root input : List ℕ) → Option (List ℕ)
absolute_path root [] = if ltb 1 (length root) then limited root else some (slash ∷ [])
absolute_path root (x ∷ xs) =
    if ltb 1 (length root) then limited (root ++ (slash ∷ x ∷ xs)) else limited (slash ∷ x ∷ xs)

-- An absolute input is handed on without its first slash.
unfoldable pub raw_path : (root cwd input : List ℕ) → Option (List ℕ)
raw_path root cwd [] = relative_path cwd []
raw_path root cwd (x ∷ xs) =
    if x == slash then absolute_path root xs else relative_path cwd (x ∷ xs)

abbrev pub finish : (size : ℕ) → List ℕ → Option (List ℕ)
finish size [] = if ltb size 2 then none else some (slash ∷ [])
finish size (x ∷ w) = some (push_all (x ∷ w) [])

abbrev pub resolve_raw : (root : List ℕ) (size : ℕ) → List ℕ → Option (Option (List ℕ))
resolve_raw root size tmp =
    let boundary = if starts_with root tmp then length root else 1 in
    if leb size 1
    then some none
    else option_map (λ o. elim o [ none ↦ none | some w ↦ finish size w ])
        (normalise (suc (length tmp)) size boundary tmp (slash ∷ []))

-- An empty root stands for `/`.
abbrev pub task_root : List ℕ → List ℕ
task_root [] = slash ∷ []
task_root (x ∷ xs) = x ∷ xs

-- `resolve_path`, with the root and the directory of the current task.
unfoldable pub resolve_path : (root cwd input : List ℕ) (size : ℕ) → Option (Option (List ℕ))
resolve_path root cwd input size = elim (raw_path (task_root root) cwd input) [
  | none ↦ some none
  | some tmp ↦ resolve_raw (task_root root) size tmp
]
