-- ===== src/Json.antt =====
-- The values that JSON texts decode to, which tool arguments and tool results are made of.
-- A Python dict is the list of its entries; `real` keeps the text of a number with a fraction.
use Prim.Native.String.{String}
use proofcoder.Base.{Bool, Option, none, some, List, [], ◌∷◌, if◌then◌else◌, ◌==◌}
use proofcoder.Base.Int.{ℤ}

mutual
  pub data Json : Type 0 where
    null : Json
    bool : Bool → Json
    int : ℤ → Json
    real : String → Json
    str : String → Json
    arr : Items → Json
    obj : Fields → Json

  pub data Items : Type 0 where
    nil : Items
    cons : Json → Items → Items

  pub data Fields : Type 0 where
    end : Fields
    field : String → Json → Fields → Fields

-- fields.get(name)
unfoldable pub get : String → Fields → Option Json
get k end = none
get k (field j v d) = if j == k then some v else get k d

unfoldable pub as_str : Option Json → Option String
as_str (some (str s)) = some s
as_str _ = none

unfoldable pub as_bool : Option Json → Option Bool
as_bool (some (bool b)) = some b
as_bool _ = none

-- an integer, or None for null and for a key that is missing; the outer `none` is any other value
unfoldable pub as_int_or_none : Option Json → Option (Option ℤ)
as_int_or_none none = some none
as_int_or_none (some null) = some none
as_int_or_none (some (int n)) = some (some n)
as_int_or_none (some j) = none

unfoldable pub as_arr : Option Json → Option Items
as_arr (some (arr xs)) = some xs
as_arr _ = none

-- the texts of an array of texts
unfoldable pub texts : Items → Option (List String)
texts nil = some []
texts (cons (str s) xs) = elim (texts xs) [ none ↦ none | some ss ↦ some (s ∷ ss) ]
texts (cons _ xs) = none

-- a Python list of texts as an array
unfoldable pub of_texts : List String → Items
of_texts [] = nil
of_texts (s ∷ ss) = cons (str s) (of_texts ss)
