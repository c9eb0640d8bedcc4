-- ===== src/Limits/Cover.antt =====
-- What a reservation of backend/app/cost/limits.py covers: no discount, and no premium, makes a call
-- dearer than what was reserved for it.
use reading_companion.Prelude.{
  ℕ, ◌+◌, ◌-◌, ◌*◌, ◌≤◌, ◌≡◌, refl, ap, subst, String, Bool, true, false, Option, none, some, List,
  [], ◌∷◌, leb, ◌&&◌, all, if◌then◌else◌, arith, leb→le, sym, ◌∙◌, and→both,
}
use reading_companion.Limits.{
  Reported, Price, as_count, split_of, completion_usage, cost_with, usd_at, worst_case, prices,
  names, find_price, usd_of, reserved_usd_of, input_scale, output_scale, speed, charge,
}

mul_mono : (a b c d : ℕ) → a ≤ b → c ≤ d → a * c ≤ b * d
mul_mono a b c d h k =
    let e : b ≡ a + (b - a) = omega arith in
    let f : d ≡ c + (d - c) = omega arith in
    subst (λ x. a * c ≤ x * d) (sym e)
      (subst (λ y. a * c ≤ (a + (b - a)) * y) (sym f) (omega arith))

-- The cache counts never exceed the input that they divide.
split-bound : (n : ℕ) (r w : Option ℕ) → (split_of n r w).0 + (split_of n r w).1 ≤ n
split-bound n none w = omega arith
split-bound n (some r) none = omega arith
split-bound n (some r) (some w) = ground arith

-- Neither the plain rate nor the discount is above the rate of a cache write.
abbrev fair_rates : ℕ → Option (ℕ × ℕ) → Bool
fair_rates plain none = true
fair_rates plain (some (read, write)) = leb plain write && leb read write

whole : (n i r w : ℕ) → (n - 0 - n) * i + 0 * r + n * w ≡ n * w
whole n i r w =
    ap (λ t. t * i + 0 * r + n * w) (let e : n - 0 - n ≡ 0 = omega arith in e) ∙ omega arith

speed_mono : (fast : Bool) (a b : ℕ) → a ≤ b → speed fast a ≤ speed fast b
speed_mono fast a b h = ground arith

scale_mono : (a b : ℕ) → a ≤ b → (input_scale a ≤ input_scale b) × (output_scale a ≤ output_scale b)
scale_mono a b h = ground arith

-- One mixture of three rates is at most the whole at the greatest of them.
mixture : (n r w i c k : ℕ) → r + w ≤ n → i ≤ k → c ≤ k → (n - r - w) * i + r * c + w * k ≤ n * k
mixture n r w i c k h hi hc =
    let m = n - r - w in
    let e : n ≡ m + r + w = omega arith in
    let x = mul_mono m m i k (omega arith) hi in
    let y = mul_mono r r c k (omega arith) hc in
    subst (λ t. m * i + r * c + w * k ≤ t * k) (sym e) (omega (arith, x, y))

same-branches : {A : Type 0} (b : Bool) (x : A) → (if b then x else x) ≡ x
same-branches true x = refl
same-branches false x = refl

worst-cost :
    (fast : Bool) (p : Price) (read write : ℕ) (u : Reported)
    → cost_with fast p (some (read, write)) (worst_case u)
      ≡ u.input * speed fast write * input_scale u.input * 2
        + u.output * speed fast p.output * output_scale u.input
unfolding cost_with completion_usage
worst-cost fast p read write u =
    ap (charge fast p read write u.input u.output)
      (same-branches (leb (0 + u.input) u.input) (0, u.input))
    ∙ ap (λ t. t * input_scale u.input * 2 + u.output * speed fast p.output * output_scale u.input)
        (whole u.input (speed fast p.input) (speed fast read) (speed fast write))

cost-covered :
    (fast : Bool) (p : Price) (rates : Option (ℕ × ℕ)) (u v : Reported)
    → fair_rates p.input rates ≡ true
    → v.input ≤ u.input
    → v.output ≤ u.output
    → cost_with fast p rates v ≤ cost_with fast p rates (worst_case u)
unfolding cost_with completion_usage
cost-covered fast p none u v ok hi ho = omega (
  arith,
  mul_mono v.input u.input (speed fast p.input) (speed fast p.input) hi (omega arith),
  mul_mono v.output u.output (speed fast p.output) (speed fast p.output) ho (omega arith),
)
cost-covered fast p (some (read, write)) u v ok hi ho =
    let s = split_of v.input (as_count v.cache_read) (as_count v.cache_write) in
    let (a, b) = and→both (leb p.input write) (leb read write) ok in
    let inner =
      mixture v.input s.0 s.1 (speed fast p.input) (speed fast read) (speed fast write)
        (split-bound v.input (as_count v.cache_read) (as_count v.cache_write))
        (speed_mono fast p.input write (leb→le p.input write a))
        (speed_mono fast read write (leb→le read write b)) in
    let (si, so) = scale_mono v.input u.input hi in
    let W = speed fast write in
    let O = speed fast p.output in
    let cost = (v.input - s.0 - s.1) * speed fast p.input + s.0 * speed fast read + s.1 * W in
    let more = mul_mono v.input u.input W W hi (omega arith) in
    let x =
      mul_mono cost (u.input * W) (input_scale v.input) (input_scale u.input)
        (omega (arith, inner, more)) si in
    let y =
      mul_mono (v.output * O) (u.output * O) (output_scale v.input) (output_scale u.input)
        (mul_mono v.output u.output O O ho (omega arith)) so in
    subst (λ t. charge fast p read write v.input v.output s ≤ t)
      (sym (worst-cost fast p read write u)) (omega (arith, x, y))

same_price : {p q : Price} → ◌≡◌ {A = Option Price} (some p) (some q) → p ≡ q
same_price h = cc

module _ (last_part_is contains : (name identity : String) → Bool) (is_fast : String → Bool) where
  find_price-fair :
      (identity : String) (xs : List (String × Price))
      → all (λ (x : String × Price). fair_rates x.1.input x.1.cache) xs ≡ true
      → (p : Price) → find_price last_part_is contains identity xs ≡ some p
      → fair_rates p.input p.cache ≡ true
  unfolding find_price
  find_price-fair identity [] h p f = cc
  find_price-fair identity (x ∷ xs) h p f =
      let (here, there) = and→both (fair_rates x.1.input x.1.cache) _ h in
      go (names last_part_is contains identity x) here (find_price-fair identity xs there p) f
    where
      go :
          (t : Bool)
          → fair_rates x.1.input x.1.cache ≡ true
          → (find_price last_part_is contains identity xs ≡ some p
              → fair_rates p.input p.cache ≡ true)
          → (if t then some x.1 else find_price last_part_is contains identity xs) ≡ some p
          → fair_rates p.input p.cache ≡ true
      go true here later e =
          subst (λ (q : Price). fair_rates q.input q.cache ≡ true) (same_price e) here
      go false here later e = later e

  -- A reservation covers every bill: for a call that uses at most the input and the output reserved, at
  -- the model's speed, the amount billed is at most the amount reserved, whatever cache counts the
  -- provider reports, well formed or not, and with the premium on a long input.
  pub reservation_covers :
      (model : String) (u v : Reported)
      → v.input ≤ u.input
      → v.output ≤ u.output
      → usd_of last_part_is contains is_fast model v
        ≤ reserved_usd_of last_part_is contains is_fast model u
  unfolding usd_of reserved_usd_of usd_at
  reservation_covers model u v hi ho = go (find_price last_part_is contains model prices) refl
    where
      go :
          (m : Option Price)
          → find_price last_part_is contains model prices ≡ m
          → usd_at (is_fast model) m v ≤ usd_at (is_fast model) m (worst_case u)
      go none f = omega arith
      go (some p) f =
          cost-covered (is_fast model) p p.cache u v (find_price-fair model prices refl p f) hi ho
