-- ===== src/Fs/Vfs/Path/Fits.antt =====
-- The loop of resolve_path of fs/vfs.c: how much it writes for what it reads.
use mathlib.Core.Path.{subst}
use scepter.Fs.Vfs.Path.Names.{Ends, at_end, at_slash, length-push_all, component-progress}
use scepter.Fs.Vfs.Path.{
  strip, go_up, put_component, skip_slashes, component, slash, normalise, add_separator, is_dot,
  is_dotdot, push_all, finish, resolve_raw, starts_with,
}
use scepter.Base.{
  ℕ, false, ◌∷◌, [], ◌!=◌, List, arith, ltb, if◌then◌else◌, ◌≡◌, inl, Bool-cases, ◌&&◌, ◌==◌, ◌<◌,
  ◌+◌, some, ◌≤◌, length, inr, suc, List-cases, ◌-◌, Bool, true, zero, sym, refl, leb, ap, Option,
}

-- The length after a separator has been added.
abbrev cost : List ℕ → ℕ
cost [] = 0
cost (x ∷ w) =
    if ltb 1 (suc (length w)) && (x != slash) then suc (suc (length w)) else suc (length w)

cost_bounds : (w : List ℕ) → (length w ≤ cost w) × (cost w ≤ suc (length w))
cost_bounds [] = (omega arith, omega arith)
cost_bounds (x ∷ w) = (ground arith, ground arith)

length-strip : (b : ℕ) (w : List ℕ) → length (strip b w) ≤ length w
unfolding strip
length-strip b [] = omega arith
length-strip b (x ∷ w) = let ih = length-strip b w in ground arith

cost-if :
    (t : Bool) (u v : List ℕ) (n : ℕ) → cost u ≤ n → cost v ≤ n → cost (if t then u else v) ≤ n
cost-if true u v n hu hv = hu
cost-if false u v n hu hv = hv

cost-go_up : (b : ℕ) (w : List ℕ) → cost (go_up b w) ≤ cost w
unfolding go_up
cost-go_up b [] = omega arith
cost-go_up b (x ∷ w) =
    let (_, short) = cost_bounds (strip b w) in
    let (long, _) = cost_bounds (x ∷ w) in
    cost-if (ltb b (suc (length w))) (strip b w) (x ∷ w) (cost (x ∷ w))
      (omega (arith, length-strip b w, short, long)) (omega arith)

length-component : (p : List ℕ) → length (component p).0 + length (component p).1 ≡ length p
length-component [] = omega arith
length-component (x ∷ p) = elim (Bool-cases (x == slash)) [
  | inl t ↦ rw t (omega arith)
  | inr t ↦ rw t (omega (arith, length-component p))
]

component-Ends : (p : List ℕ) → Ends (component p).1
component-Ends [] = at_end
component-Ends (x ∷ p) = elim (Bool-cases (x == slash)) [
  | inl t ↦
      let same : x ≡ slash = ground arith in rw t (subst (λ y. Ends (y ∷ p)) (sym same) at_slash)
  | inr t ↦ rw t (component-Ends p)
]

length-skip_slashes : (p : List ℕ) → length (skip_slashes p) ≤ length p
length-skip_slashes [] = omega arith
length-skip_slashes (x ∷ p) = let ih = length-skip_slashes p in ground arith

add_separator-Fits :
    (size : ℕ) (w : List ℕ)
    → cost w < size
    → (v : List ℕ) × ((add_separator size w ≡ some v) × (length v ≡ cost w))
unfolding add_separator
add_separator-Fits size [] h = ([], (refl, omega arith))
add_separator-Fits size (x ∷ w) h = elim (Bool-cases (ltb 1 (suc (length w)) && (x != slash))) [
  | inl t ↦
      let h' : suc (suc (length w)) < size = rw t at h in
      let room : leb (size - 1) (suc (length w)) ≡ false = ground arith in
      (slash ∷ x ∷ w, (rw (t, room) refl, rw t refl))
  | inr t ↦ (x ∷ w, (rw t refl, rw t refl))
]

put_component-Fits :
    (size b n : ℕ) (comp w : List ℕ)
    → cost w + length comp ≤ n
    → n < size
    → (w' : List ℕ) × ((put_component size b comp w ≡ some w')
        × ((length w' ≤ cost w + length comp) × (cost w' ≤ suc (cost w + length comp))))
unfolding put_component
put_component-Fits size b n comp w h hn = elim (Bool-cases (is_dot comp)) [
  | inl d ↦ let (long, _) = cost_bounds w in (w, (rw d refl, (omega (arith, long), omega arith)))
  | inr d ↦ elim (Bool-cases (is_dotdot comp)) [
    | inl dd ↦
        let (long, _) = cost_bounds (go_up b w) in
        (
          go_up b w,
          (rw (d, dd) refl, (omega (arith, long, cost-go_up b w), omega (arith, cost-go_up b w))),
        )
    | inr dd ↦
        let (v, (ev, lv)) = add_separator-Fits size w (omega arith) in
        let fits : ltb (size - 1) (length v + length comp) ≡ false = ground arith in
        let (_, short) = cost_bounds (push_all comp v) in
        (
          push_all comp v,
          (
            rw (d, dd, ev, fits) refl,
            (omega (arith, length-push_all comp v), omega (arith, short, length-push_all comp v)),
          ),
        )
  ]
]

normalise-step :
    (fuel size b : ℕ) (p w : List ℕ) (x : ℕ) (q w' : List ℕ) (r : Option (Option (List ℕ)))
    → skip_slashes p ≡ x ∷ q
    → put_component size b (component (x ∷ q)).0 w ≡ some w'
    → normalise fuel size b (component (x ∷ q)).1 w' ≡ r
    → normalise (suc fuel) size b p w ≡ r
unfolding normalise
normalise-step fuel size b p w x q w' r eq ew er = rw (normalise, eq, ew) er

normalise-Fits :
    (fuel size b n : ℕ) (p w : List ℕ)
    → length p < fuel
    → Ends p
    → length w ≤ n
    → cost w + length p ≤ suc n
    → n < size
    → (out : List ℕ) × ((normalise fuel size b p w ≡ some (some out)) × (length out ≤ n))
unfolding normalise
normalise-Fits zero size b n p w hf he hw h hn = absurd (omega arith)
normalise-Fits (suc fuel) size b n [] w hf he hw h hn = (w, (refl, hw))
normalise-Fits (suc fuel) size b n (_ ∷ p) w hf (at_slash) hw h hn =
    elim (List-cases (skip_slashes p)) [
      | inl e0 ↦ (w, (rw (normalise, e0) refl, hw))
      | inr (x, (q, eq)) ↦
          let comp = (component (x ∷ q)).0 in
          let rest = (component (x ∷ q)).1 in
          let shorter : length comp + length rest ≤ length p =
            omega (arith, length-component (x ∷ q), length-skip_slashes p, ap length eq) in
          let (w', (ew, (lw, cw))) = put_component-Fits size b n comp w (omega arith) hn in
          let (out, (eo, lo)) =
            normalise-Fits fuel size b n rest w' (omega (arith, component-progress p x q eq))
              (component-Ends (x ∷ q)) (omega arith) (omega arith) hn in
          (out, (normalise-step fuel size b (slash ∷ p) w x q w' (some (some out)) eq ew eo, lo))
    ]

finish-Fits :
    (size : ℕ) (w : List ℕ)
    → 1 < size
    → (out : List ℕ) × ((finish size w ≡ some out) × (length out ≤ suc (length w - 1)))
finish-Fits size [] h =
    let room : ltb size 2 ≡ false = ground arith in (slash ∷ [], (rw room refl, omega arith))
finish-Fits size (x ∷ w) h =
    (push_all (x ∷ w) [], (refl, omega (arith, length-push_all (x ∷ w) [])))

pub resolve_raw-Fits :
    (root tmp : List ℕ) (size : ℕ)
    → Ends tmp
    → 0 < length tmp
    → length tmp < size
    → 1 < size
    → (out : List ℕ) × ((resolve_raw root size tmp ≡ some (some out)) × (length out < size))
resolve_raw-Fits root tmp size he h hs h1 =
    let small : leb size 1 ≡ false = ground arith in
    let (w, (ew, lw)) =
      normalise-Fits (suc (length tmp)) size (if starts_with root tmp then length root else 1)
        (length tmp) tmp (slash ∷ []) (omega arith) he (omega arith) (omega arith) hs in
    let (out, (eo, lo)) = finish-Fits size w h1 in (out, (rw (small, ew, eo) refl, omega arith))
