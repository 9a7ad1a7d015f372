-- ===== src/Agent/Store/Tables.antt =====
-- A table with a primary key: `INSERT … ON CONFLICT(id) DO UPDATE`, and the lookup by key.
use vops.Prelude.{
  String, ◌≡◌, refl, Option, none, some, List, [], ◌∷◌, ◌==◌, eq_iff, arith, if◌then◌else◌,
}

abbrev pub Table {ℓ} : Type ℓ → Type ℓ
Table A = List (String × A)

module _ {ℓ} {A : Type ℓ} where
  unfoldable pub get : String → Table A → Option A
  get k [] = none
  get k ((j, v) ∷ t) = let rest = get k t in if j == k then some v else rest

  unfoldable pub upsert : String → A → Table A → Table A
  upsert k v [] = (k, v) ∷ []
  upsert k v ((j, u) ∷ t) = let rest = upsert k v t in if j == k then (j, v) ∷ t else (j, u) ∷ rest

  unfoldable pub records : Table A → List A
  records [] = []
  records ((j, v) ∷ t) = v ∷ records t

  pub get-upsert :
      (k j : String) (v : A) (t : Table A)
      → get j (upsert k v t) ≡ (if k == j then some v else get j t)
  unfolding get upsert
  get-upsert k j v [] = refl
  get-upsert k j v ((i, u) ∷ t) =
      ground (arith, eq_iff k j, eq_iff i k, eq_iff i j, get-upsert k j v t)
