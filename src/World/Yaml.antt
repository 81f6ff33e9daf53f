-- ===== src/World/Yaml.antt =====
-- `serde_yaml::Value`, with the accessors that the source calls on it. They see through a tag, so a
-- tagged value is the value under its tag.
use royak.Prelude.{
  if◌then◌else◌, unwrap_or, ◌>>=◌, Text, text_eq, ℕ, Bool, Option, none, some, List, [], ◌∷◌,
}
use royak.World.Json.{Number}

mutual
  pub data Yaml : Type 0 where
    null : Yaml
    bool : Bool → Yaml
    num : Number → Yaml
    str : Text → Yaml
    sequence : Values → Yaml
    mapping : Pairs → Yaml

  pub data Values : Type 0 where
    nil : Values
    cons : Yaml → Values → Values

  pub data Pairs : Type 0 where
    end : Pairs
    pair : Yaml → Yaml → Pairs → Pairs

unfoldable pub to_yamls : Values → List Yaml
to_yamls nil = []
to_yamls (cons x xs) = x ∷ to_yamls xs

unfoldable pub to_pairs : Pairs → List (Yaml × Yaml)
to_pairs end = []
to_pairs (pair k v ps) = (k, v) ∷ to_pairs ps

unfoldable pub as_text : Yaml → Option Text
as_text (str s) = some s
as_text _ = none

unfoldable pub as_number : Yaml → Option ℕ
as_number (num (Number.pos_int n)) = some n
as_number _ = none

unfoldable pub as_flag : Yaml → Option Bool
as_flag (bool b) = some b
as_flag _ = none

unfoldable pub as_sequence : Yaml → Option (List Yaml)
unfolding to_yamls
as_sequence (sequence xs) = some (to_yamls xs)
as_sequence _ = none

unfoldable pub as_mapping : Yaml → Option (List (Yaml × Yaml))
unfolding to_pairs
as_mapping (mapping ps) = some (to_pairs ps)
as_mapping _ = none

unfoldable pub get_pair : Text → List (Yaml × Yaml) → Option Yaml
unfolding as_text
get_pair k [] = none
get_pair k ((j, v) ∷ ps) =
    let rest = get_pair k ps in
    elim (as_text j) [ none ↦ rest | some s ↦ if text_eq s k then some v else rest ]

-- `v.get(k)`, `none` where `v` is no mapping
unfoldable pub get_key_of : Text → Yaml → Option Yaml
unfolding get_pair as_mapping
get_key_of k v = as_mapping v >>= get_pair k

-- `v.get(k1).and_then(|v| v.get(k2))` and so on
unfoldable pub get_at_path : List Text → Yaml → Option Yaml
unfolding get_key_of
get_at_path [] v = some v
get_at_path (k ∷ ks) v = get_key_of k v >>= get_at_path ks

-- The entries of a mapping whose keys and values are strings.
unfoldable pub text_entries : List (Yaml × Yaml) → List (Text × Text)
unfolding as_text
text_entries [] = []
text_entries ((k, v) ∷ ps) =
    let rest = text_entries ps in
    elim (as_text k) [
      | none ↦ rest
      | some key ↦ elim (as_text v) [ none ↦ rest | some val ↦ (key, val) ∷ rest ]
    ]

-- The strings of a sequence.
unfoldable pub texts_of : List Yaml → List Text
unfolding as_text
texts_of [] = []
texts_of (v ∷ vs) = let rest = texts_of vs in elim (as_text v) [ none ↦ rest | some s ↦ s ∷ rest ]

unfoldable pub text_at : List Text → Text → Yaml → Text
text_at path default v = unwrap_or (get_at_path path v >>= as_text) default
