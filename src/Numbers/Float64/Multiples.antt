-- ===== src/Numbers/Float64/Multiples.antt =====
-- src/float64.hpp, `fraction_to_binary64`: the rounding of a quotient goes to the nearest multiple.
use genia_cpp.Base.{
  ℕ, suc, ◌+◌, ◌-◌, ◌*◌, ◌%◌, ◌^◌, ◌<◌, ◌≤◌, ◌≡◌, ◌⊎◌, sym, ap, subst, ◌∙◌, compare, arith, dec_lt,
  inl, inr,
}
use genia_cpp.Numbers.Float64.{rounded}
use genia_cpp.Numbers.Float64.Leading.{cancel_lt}
use genia_cpp.Numbers.Float64.Decimals.{cancel}
use native.Mathlib.Nat.{mul-le-mul_right, le_of_mul-le-mul_right}

-- How far two numbers are apart.
abbrev pub distance : ℕ → ℕ → ℕ
distance a b = (a - b) + (b - a)

-- A number is nearer to `a` than another one, or it is as near, and it is the same or its choice is
-- even.
abbrev pub IsNearer : ℕ → ℕ → ℕ → ℕ → Type 0
IsNearer a chosen other choice =
    (distance a chosen < distance a other)
    ⊎ ((distance a chosen ≤ distance a other) × ((other ≡ chosen) ⊎ (choice % 2 ≡ 0)))

lt-or-ge : (a b : ℕ) → (a < b) ⊎ (b ≤ a)
lt-or-ge a b = elim (dec_lt a b) [ yes h ↦ inl h | no h ↦ inr (omega (arith, h)) ]

-- The lower multiple, or the upper one, whichever is nearer, and the even one of two as near.
pub rounded_cases :
    (q r v : ℕ)
    → q < 2 ^ 53
    → ((rounded q (compare (r * 2 ^ 1) v) ≡ q)
        × ((r + r < v) ⊎ ((r + r ≤ v) × (rounded q (compare (r * 2 ^ 1) v) % 2 ≡ 0))))
      ⊎ ((rounded q (compare (r * 2 ^ 1) v) ≡ suc q)
          × ((v < r + r) ⊎ ((v ≤ r + r) × (rounded q (compare (r * 2 ^ 1) v) % 2 ≡ 0))))
rounded_cases q r v l = ground (arith, l)

rounded_between :
    (q r v k s : ℕ)
    → r < v
    → ((s ≡ q) × ((r + r < v) ⊎ ((r + r ≤ v) × (s % 2 ≡ 0))))
      ⊎ ((s ≡ suc q) × ((v < r + r) ⊎ ((v ≤ r + r) × (s % 2 ≡ 0))))
    → (distance (q * v + r) (s * v) < distance (q * v + r) (k * v))
      ⊎ ((distance (q * v + r) (s * v) ≤ distance (q * v + r) (k * v)) × ((k ≡ s) ⊎ (s % 2 ≡ 0)))
rounded_between q r v k s l (inl (e, inl h)) = elim (lt-or-ge k q) [
  | inl a ↦ inl (omega (arith, ap (λ (t : ℕ). t * v) e, h, mul-le-mul_right v a))
  | inr a ↦ elim (lt-or-ge q k) [
    | inl b ↦ inl (omega (arith, ap (λ (t : ℕ). t * v) e, h, mul-le-mul_right v b))
    | inr b ↦
        let same : k ≡ s = omega (arith, e, a, b) in
        inr (omega (arith, ap (λ (t : ℕ). t * v) same), inl same)
  ]
]
rounded_between q r v k s l (inl (e, inr (h, even))) = elim (lt-or-ge q k) [
  | inl a ↦ inr (omega (arith, ap (λ (t : ℕ). t * v) e, h, mul-le-mul_right v a), inr even)
  | inr a ↦ inr (omega (arith, ap (λ (t : ℕ). t * v) e, h, mul-le-mul_right v a), inr even)
]
rounded_between q r v k s l (inr (e, inl h)) = elim (lt-or-ge q k) [
  | inr a ↦ inl (omega (arith, ap (λ (t : ℕ). t * v) e, h, l, mul-le-mul_right v a))
  | inl a ↦ elim (lt-or-ge (suc q) k) [
    | inl b ↦ inl (omega (arith, ap (λ (t : ℕ). t * v) e, h, l, mul-le-mul_right v b))
    | inr b ↦
        let same : k ≡ s = omega (arith, e, a, b) in
        inr (omega (arith, ap (λ (t : ℕ). t * v) same), inl same)
  ]
]
rounded_between q r v k s l (inr (e, inr (h, even))) = elim (lt-or-ge q k) [
  | inl a ↦ inr (omega (arith, ap (λ (t : ℕ). t * v) e, h, l, mul-le-mul_right v a), inr even)
  | inr a ↦ inr (omega (arith, ap (λ (t : ℕ). t * v) e, h, l, mul-le-mul_right v a), inr even)
]

-- No multiple of the divisor is nearer.
pub rounded-nearest :
    (q r v k : ℕ)
    → q < 2 ^ 53
    → r < v
    → IsNearer
        (q * v + r)
        (rounded q (compare (r * 2 ^ 1) v) * v)
        (k * v)
        (rounded q (compare (r * 2 ^ 1) v))
rounded-nearest q r v k h l =
    let s = rounded q (compare (r * 2 ^ 1) v) in
    elim (rounded_between q r v k s l (rounded_cases q r v h)) [
      | inl a ↦ inl a
      | inr (a, inl same) ↦ inr (a, inl (ap (λ t. t * v) same))
      | inr (a, inr even) ↦ inr (a, inr even)
    ]

pub rounded-le :
    (q r v c : ℕ) → q < 2 ^ 53 → r < v → q * v + r ≤ c * v → rounded q (compare (r * 2 ^ 1) v) ≤ c
rounded-le q r v c h l k = elim (dec_lt q c) [
  | yes a ↦ elim (rounded_cases q r v h) [
    | inl (e, x) ↦ omega (arith, e, a)
    | inr (e, x) ↦ omega (arith, e, a)
  ]
  | no a ↦
      let above : c ≤ q = omega (arith, a) in
      elim (rounded_cases q r v h) [
        | inl (e, x) ↦ elim (dec_lt c q) [
          | yes b ↦ absurd (omega (arith, k, l, mul-le-mul_right v b))
          | no b ↦ omega (arith, e, b)
        ]
        | inr (e, x) ↦ absurd (omega (arith, k, l, x, mul-le-mul_right v above))
      ]
]

distance_up : (a d c : ℕ) → distance (a * c) ((a + d) * c) ≡ distance a (a + d) * c
distance_up a d c =
    let left : distance (a * c) ((a + d) * c) ≡ d * c = omega arith in
    let right : distance a (a + d) ≡ d = omega arith in left ∙ ap (λ (t : ℕ). t * c) (sym right)

distance_down : (b d c : ℕ) → distance ((b + d) * c) (b * c) ≡ distance (b + d) b * c
distance_down b d c =
    let left : distance ((b + d) * c) (b * c) ≡ d * c = omega arith in
    let right : distance (b + d) b ≡ d = omega arith in left ∙ ap (λ (t : ℕ). t * c) (sym right)

distance_times : (a b c : ℕ) → distance (a * c) (b * c) ≡ distance a b * c
distance_times a b c = elim (dec_lt a b) [
  | yes h ↦
      let up : a + (b - a) ≡ b = omega (arith, h) in
      subst (λ t. distance (a * c) (t * c) ≡ distance a t * c) up (distance_up a (b - a) c)
  | no h ↦
      let down : b + (a - b) ≡ a = omega (arith, h) in
      subst (λ t. distance (t * c) (b * c) ≡ distance t b * c) down (distance_down b (a - b) c)
]

module _ (a b d a' b' d' i j : ℕ) (p : 0 < i) (p' : 0 < j) (e : a * i ≡ a' * j) (f : b * i ≡ b' * j)
    (g : d * i ≡ d' * j) where
  left : distance a' b' * j ≡ distance a b * i
  left =
      sym (distance_times a' b' j)
      ∙ ap (λ t. distance t (b' * j)) (sym e)
      ∙ ap (distance (a * i)) (sym f)
      ∙ distance_times a b i

  right : distance a' d' * j ≡ distance a d * i
  right =
      sym (distance_times a' d' j)
      ∙ ap (λ t. distance t (d' * j)) (sym e)
      ∙ ap (distance (a * i)) (sym g)
      ∙ distance_times a d i

  lt_scaled : distance a' b' < distance a' d' → distance a b < distance a d
  lt_scaled h = cancel_lt _ _ i (omega (arith, left, right, mul-le-mul_right j h, p'))

  le_scaled : distance a' b' ≤ distance a' d' → distance a b ≤ distance a d
  le_scaled h = le_of_mul-le-mul_right (omega (arith, left, right, mul-le-mul_right j h)) p

  -- Distances keep their order on another scale.
  pub scaled-IsNearer : (choice : ℕ) → IsNearer a' b' d' choice → IsNearer a b d choice
  scaled-IsNearer choice (inl h) = inl (lt_scaled h)
  scaled-IsNearer choice (inr (h, inl same)) =
      inr (le_scaled h, inl (cancel d b i p (g ∙ ap (λ t. t * j) same ∙ sym f)))
  scaled-IsNearer choice (inr (h, inr even)) = inr (le_scaled h, inr even)

-- Nor is it below a multiple that is not above.
pub rounded_ge :
    (q r v c : ℕ) → q < 2 ^ 53 → r < v → c * v ≤ q * v + r → c ≤ rounded q (compare (r * 2 ^ 1) v)
rounded_ge q r v c h l k = elim (dec_lt q c) [
  | yes a ↦ absurd (omega (arith, k, l, mul-le-mul_right v a))
  | no a ↦ elim (rounded_cases q r v h) [
    | inl (e, x) ↦ omega (arith, e, a)
    | inr (e, x) ↦ omega (arith, e, a)
  ]
]
