-- ===== src/Agent/Json.antt =====
-- JSON values, as `unknown` and `Record<string, unknown>` hold them. Numbers are natural here: no
-- function of the model looks into one.
use vops.Prelude.{ℕ, String, Bool, List, [], ◌∷◌, Option, none, some, ◌==◌, if◌then◌else◌}

mutual
  pub data Json : Type 0 where
    null : Json
    bool : Bool → Json
    num : ℕ → Json
    str : String → Json
    arr : Items → Json
    obj : Fields → Json

  pub data Items : Type 0 where
    nil : Items
    cons : Json → Items → Items

  pub data Fields : Type 0 where
    end : Fields
    field : String → Json → Fields → Fields

-- input[key]
unfoldable pub get : Fields → String → Option Json
get end key = none
get (field k v fs) key = let rest = get fs key in if k == key then some v else rest

-- An array of strings.
abbrev pub texts : List String → Items
texts [] = nil
texts (x ∷ xs) = cons (str x) (texts xs)
