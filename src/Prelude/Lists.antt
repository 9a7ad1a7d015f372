-- ===== src/Prelude/Lists.antt =====
-- Arrays of the source as lists: `some`, `every`, `filter`, `find`, `includes`, `[...new Set(xs)]`.
use Prim.Native.Nat.{ℕ, zero, suc}
use Prim.Native.String.{String}
use mathlib.Core.Path.{◌≡◌, refl}
use mathlib.Core.Bool.{Bool, true, false, not, ◌&&◌, ◌||◌}
use mathlib.Core.Option.{Option, none, some}
use mathlib.Core.List.{List, [], ◌∷◌, ◌++◌}
use native.Mathlib.Omega.{arith}
use text.Mathlib.Text.{◌==◌}
use text.Mathlib.TextEquality.{eq_iff}
use vops.Prelude.Tests.{if◌then◌else◌}

module _ {ℓ} {A : Type ℓ} where
  abbrev pub length : List A → ℕ
  length [] = 0
  length (x ∷ xs) = suc (length xs)

  abbrev pub is_empty : List A → Bool
  is_empty [] = true
  is_empty (x ∷ xs) = false

  -- xs.some(p)
  unfoldable pub any : (A → Bool) → List A → Bool
  any p [] = false
  any p (x ∷ xs) = p x || any p xs

  -- xs.every(p)
  unfoldable pub every : (A → Bool) → List A → Bool
  every p [] = true
  every p (x ∷ xs) = p x && every p xs

  -- xs.filter(p)
  unfoldable pub keep : (A → Bool) → List A → List A
  keep p [] = []
  keep p (x ∷ xs) = let rest = keep p xs in if p x then x ∷ rest else rest

  -- xs.find(p)
  unfoldable pub find : (A → Bool) → List A → Option A
  find p [] = none
  find p (x ∷ xs) = let rest = find p xs in if p x then some x else rest

  pub any-append : (p : A → Bool) (xs ys : List A) → any p (xs ++ ys) ≡ (any p xs || any p ys)
  unfolding any
  any-append p [] ys = refl
  any-append p (x ∷ xs) ys = ground (arith, any-append p xs ys)

  pub find-holds : (p : A → Bool) (xs : List A) (x : A) → find p xs ≡ some x → p x ≡ true
  unfolding find
  find-holds p [] x h = ground arith
  find-holds p (y ∷ xs) x h = ground (arith, find-holds p xs x)

-- xs.includes(a)
unfoldable pub includes : List String → String → Bool
includes [] a = false
includes (x ∷ xs) a = x == a || includes xs a

-- [...new Set(xs)]: the first occurrence of each, in order
unfoldable pub unique_from : List String → List String → List String
unique_from seen [] = []
unique_from seen (x ∷ xs) =
    let old = unique_from seen xs in
    let fresh = x ∷ unique_from (x ∷ seen) xs in if includes seen x then old else fresh

unfoldable pub unique : List String → List String
unfolding unique_from
unique xs = unique_from [] xs

pub includes-append :
    (xs ys : List String) (a : String) → includes (xs ++ ys) a ≡ (includes xs a || includes ys a)
unfolding includes
includes-append [] ys a = refl
includes-append (x ∷ xs) ys a = ground (arith, includes-append xs ys a)

includes-unique_from :
    (seen xs : List String) (a : String)
    → includes (unique_from seen xs) a ≡ (includes xs a && not (includes seen a))
unfolding includes unique_from
includes-unique_from seen [] a = refl
includes-unique_from seen (x ∷ xs) a =
    ground (arith, includes-unique_from seen xs a, includes-unique_from (x ∷ seen) xs a, eq_iff x a)

-- A set has the members of the list that it is made of.
pub includes-unique : (xs : List String) (a : String) → includes (unique xs) a ≡ includes xs a
unfolding includes unique
includes-unique xs a = ground (arith, includes-unique_from [] xs a)

pub includes-keep :
    (p : String → Bool) (xs : List String) (a : String)
    → includes (keep p xs) a ≡ (includes xs a && p a)
unfolding includes keep
includes-keep p [] a = refl
includes-keep p (x ∷ xs) a = ground (arith, includes-keep p xs a, eq_iff x a)

abbrev pub get_or {ℓ} : {A : Type ℓ} → List A → ℕ → A → A
get_or [] i d = d
get_or (x ∷ xs) zero d = x
get_or (x ∷ xs) (suc i) d = get_or xs i d

abbrev pub take {ℓ} : {A : Type ℓ} → ℕ → List A → List A
take zero xs = []
take (suc n) [] = []
take (suc n) (x ∷ xs) = x ∷ take n xs
