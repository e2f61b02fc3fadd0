-- ===== src/Prelude/Weigh.antt =====
-- Lists as multisets: two lists hold the same items, as often, when every way to weigh the items
-- gives the same sum. The weight 1 counts all of them, and an indicator counts one.
use Prim.Native.Nat.{ℕ, zero, suc, ◌+◌}
use mathlib.Core.Path.{◌≡◌, refl}
use mathlib.Core.List.{List, [], ◌∷◌, ◌++◌}
use native.Mathlib.Omega.{arith}
use af_xdp_reimpl.Prelude.Lists.{length, take, drop}
use af_xdp_reimpl.Prelude.Tests.{◌==◌, if◌then◌else◌}

module _ {ℓ} {A : Type ℓ} where
  abbrev pub weigh : (A → ℕ) → List A → ℕ
  weigh f [] = 0
  weigh f (x ∷ xs) = f x + weigh f xs

  pub weigh-append : (f : A → ℕ) (xs ys : List A) → weigh f (xs ++ ys) ≡ weigh f xs + weigh f ys
  weigh-append f [] ys = omega arith
  weigh-append f (x ∷ xs) ys = omega (arith, weigh-append f xs ys)

  pub weigh-take-drop :
      (f : A → ℕ) (n : ℕ) (xs : List A) → weigh f (take n xs) + weigh f (drop n xs) ≡ weigh f xs
  weigh-take-drop f zero xs = omega arith
  weigh-take-drop f (suc n) [] = omega arith
  weigh-take-drop f (suc n) (x ∷ xs) = omega (arith, weigh-take-drop f n xs)

  pub weigh_one : (xs : List A) → weigh (λ _. 1) xs ≡ length xs
  weigh_one [] = refl
  weigh_one (x ∷ xs) = omega (arith, weigh_one xs)

  pub weigh_ext : (f g : A → ℕ) (xs : List A) → ((x : A) → f x ≡ g x) → weigh f xs ≡ weigh g xs
  weigh_ext f g [] h = refl
  weigh_ext f g (x ∷ xs) h = omega (arith, h x, weigh_ext f g xs h)

-- How often `a` stands in a list.
abbrev pub count : ℕ → List ℕ → ℕ
count a = weigh (λ x. if x == a then 1 else 0)
