-- ===== src/World/Json.antt =====
-- `serde_json::Value`, with the accessors that the source calls on it. An object is kept as its
-- entries in iteration order; floats are bit patterns.
use royak.Prelude.{
  ℕ, ◌≡◌, refl, Bool, true, false, Option, none, some, List, [], ◌∷◌, Text, text_eq, Map,
  if◌then◌else◌,
}

pub data Number : Type 0 where
  pos_int : ℕ → Number
  -- the magnitude of a negative integer
  neg_int : ℕ → Number
  -- the bits of an f64
  float : ℕ → Number

mutual
  pub data Json : Type 0 where
    null : Json
    bool : Bool → Json
    num : Number → Json
    str : Text → Json
    array : Items → Json
    object : Fields → Json

  pub data Items : Type 0 where
    nil : Items
    cons : Json → Items → Items

  pub data Fields : Type 0 where
    end : Fields
    field : Text → Json → Fields → Fields

unfoldable pub to_list : Items → List Json
to_list nil = []
to_list (cons x xs) = x ∷ to_list xs

unfoldable pub of_list : List Json → Items
of_list [] = nil
of_list (x ∷ xs) = cons x (of_list xs)

unfoldable pub to_map : Fields → Map Json
to_map end = []
to_map (field k v fs) = (k, v) ∷ to_map fs

-- `obj.get(k)`
unfoldable pub get_field : Text → Fields → Option Json
get_field k end = none
get_field k (field j v fs) = if text_eq j k then some v else get_field k fs

unfoldable pub get : Text → Json → Option Json
unfolding get_field
get k (object fs) = get_field k fs
get k _ = none

-- `v[k]`, which is `null` where the key or the object is missing
unfoldable pub index : Text → Json → Json
unfolding get
index k v = elim (get k v) [ none ↦ null | some w ↦ w ]

unfoldable pub as_str : Json → Option Text
as_str (str s) = some s
as_str _ = none

unfoldable pub as_u64 : Json → Option ℕ
as_u64 (num (pos_int n)) = some n
as_u64 _ = none

unfoldable pub as_bool : Json → Option Bool
as_bool (bool b) = some b
as_bool _ = none

unfoldable pub as_array : Json → Option (List Json)
unfolding to_list
as_array (array xs) = some (to_list xs)
as_array _ = none

unfoldable pub as_object : Json → Option (Map Json)
unfolding to_map
as_object (object fs) = some (to_map fs)
as_object _ = none

unfoldable pub is_null : Json → Bool
is_null null = true
is_null _ = false

unfoldable pub is_array : Json → Bool
is_array (array xs) = true
is_array _ = false

unfoldable pub is_object : Json → Bool
is_object (object fs) = true
is_object _ = false

pub to_list-of_list : (xs : List Json) → to_list (of_list xs) ≡ xs
unfolding to_list of_list
to_list-of_list [] = refl
to_list-of_list (x ∷ xs) = λ i. x ∷ to_list-of_list xs i
