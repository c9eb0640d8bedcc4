-- ===== src/Prelude/Strings.antt =====
-- Equality of strings as a Boolean test.
use Prim.Native.String.{String}
use mathlib.Core.Path.{◌≡◌, refl, subst, sym, ap, ◌∙◌}
use mathlib.Core.Bool.{true, false}
use mathlib.Core.Logic.{inl, inr}
use reading_companion.Prelude.Bools.{Bool-cases}
use text.Mathlib.Text.{◌==◌ as str_eq}
use text.Mathlib.TextEquality.{eq_iff as str_eq_iff}

pub str_eq→eq : (a b : String) → str_eq a b ≡ true → a ≡ b
str_eq→eq a b h = (str_eq_iff a b).0 h

-- What equals one of two different strings differs from the other.
pub str_eq-apart : (a b c : String) → str_eq a b ≡ true → str_eq c b ≡ false → str_eq a c ≡ false
str_eq-apart a b c h ne = elim (Bool-cases (str_eq a c)) [
  | inl t ↦ (let e = ap (λ x. str_eq x b) (str_eq→eq a c t) in cc)
  | inr f ↦ f
]

pub str_eq_comm : (a b : String) → str_eq a b ≡ str_eq b a
str_eq_comm a b =
    let swap : a ≡ b → str_eq a b ≡ str_eq b a = λ e. subst (λ x. str_eq a x ≡ str_eq x a) e refl in
    elim (Bool-cases (str_eq a b)) [
      | inl t ↦ swap (str_eq→eq a b t)
      | inr f ↦ elim (Bool-cases (str_eq b a)) [
        | inl t ↦ swap (sym (str_eq→eq b a t))
        | inr f' ↦ f ∙ sym f'
      ]
    ]
