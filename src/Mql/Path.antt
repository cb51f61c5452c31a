-- ===== src/Mql/Path.antt =====
-- internal/mql/mql.go: `valueByPath`. The result is the value if the path exists; the code's pair
-- `nil, false` is `none`.
use timongo.Prelude.{String, List, [], ◌∷◌, Option, none, some, flat_map}
use timongo.Prelude.Dict.{lookup}
use timongo.Prelude.Text.{split}
use timongo.Value.{Value, null, doc, arr, slice, Doc, entries, items, of_doc, of_list}

module _ {F : Type 0} where
  abbrev at_key : String → Doc F → List (Value F)
  at_key part d = elim (lookup part d) [ none ↦ [] | some v ↦ v ∷ [] ]

  -- The field of an array's item, if the item is a `bson.M`.
  item_field : String → Value F → List (Value F)
  item_field part (doc m) = at_key part (entries m)
  item_field part _ = []

  -- One part of the path from one value.
  step : String → Value F → List (Value F)
  unfolding item_field
  step part (doc m) = at_key part (entries m)
  step part (arr a) = flat_map (item_field part) (items a)
  step part (slice a) = flat_map (item_field part) (items a)
  step part _ = []

  -- The loop over the parts, which returns early when no value is left.
  walk : List String → List (Value F) → List (Value F)
  unfolding step
  walk [] vs = vs
  walk (part ∷ parts) vs =
      let next = flat_map (step part) vs in
      let rest = walk parts next in elim next [ [] ↦ [] | _ ∷ _ ↦ rest ]

  found_value : List (Value F) → Option (Value F)
  found_value [] = none
  found_value (v ∷ []) = some v
  found_value vs = some (of_list vs)

  unfoldable pub value_by_path : Doc F → String → Option (Value F)
  unfolding walk found_value
  value_by_path d path = elim (lookup path d) [
    | some v ↦ some v
    | none ↦ found_value (walk (split b'.' path) (of_doc d ∷ []))
  ]

  -- The first result of `valueByPath`, nil if the path does not exist.
  abbrev pub or_nil : Option (Value F) → Value F
  or_nil none = null
  or_nil (some v) = v
