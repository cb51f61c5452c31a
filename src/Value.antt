-- ===== src/Value.antt =====
-- The Go values that a `bson.M` holds (`any` in internal/mql, internal/backend and
-- internal/bsonutil), over a type `F` of floats.
--
-- A `bson.M` at the top of a command is a `Doc`, a `Dict` of values. A value that holds values in
-- turn is one of three data types of one block, so `Fields` and `Values` stand for the entries of
-- a nested map and the items of a nested array; `entries`, `fields`, `items` and `values` go
-- between the two. A nil map and an empty one are told apart by none of the code that is modelled
-- here, and are the same document.
pub mod Laws
use timongo.Prelude.{String, Bool, false, List, [], ◌∷◌, ℕ}
use timongo.Prelude.Int.{ℤ}
use timongo.Prelude.Dict.{Dict}

mutual
  pub data Value (F : Type 0) : Type 0 where
    null : Value F
    bool : Bool → Value F
    -- `int`, `int32` and `int64`, in range
    int int32 int64 : ℤ → Value F
    -- a `float32` is held as the `float64` that it converts to
    float32 float64 : F → Value F
    str : String → Value F
    -- the twelve bytes of a `bson.ObjectID`
    object_id : List ℕ → Value F
    -- a `bson.DateTime`, in milliseconds
    date_time : ℤ → Value F
    -- `[]byte`
    bytes : List ℕ → Value F
    -- `bson.M`, `map[string]any` and `bson.D`
    doc map_any ordered : Fields F → Value F
    -- `bson.A` and `[]any`
    arr slice : Values F → Value F
    -- `[]bson.M`
    docs : Docs F → Value F
    -- a value of any other Go type, by the type's name
    other : String → Value F

  pub data Fields (F : Type 0) : Type 0 where
    end : Fields F
    field : String → Value F → Fields F → Fields F

  pub data Values (F : Type 0) : Type 0 where
    nil : Values F
    cons : Value F → Values F → Values F

  pub data Docs (F : Type 0) : Type 0 where
    no_docs : Docs F
    and_doc : Fields F → Docs F → Docs F

-- A document: `bson.M`.
abbrev pub Doc : Type 0 → Type 0
Doc F = Dict (Value F)

module _ {F : Type 0} where
  abbrev pub entries : Fields F → Doc F
  entries end = []
  entries (field k v fs) = (k, v) ∷ entries fs

  abbrev pub fields : Doc F → Fields F
  fields [] = end
  fields ((k, v) ∷ d) = field k v (fields d)

  abbrev pub items : Values F → List (Value F)
  items nil = []
  items (cons x xs) = x ∷ items xs

  abbrev pub values : List (Value F) → Values F
  values [] = nil
  values (x ∷ xs) = cons x (values xs)

  abbrev pub doc_items : Docs F → List (Value F)
  doc_items no_docs = []
  doc_items (and_doc d ds) = doc d ∷ doc_items ds

  -- A document and a `bson.A` as values.
  abbrev pub of_doc : Doc F → Value F
  of_doc d = doc (fields d)

  abbrev pub of_list : List (Value F) → Value F
  of_list xs = arr (values xs)

  unfoldable pub as_map : Value F → Doc F
  as_map (doc m) = entries m
  as_map (map_any m) = entries m
  as_map _ = []

  unfoldable pub as_array : Value F → List (Value F)
  as_array (arr a) = items a
  as_array (slice a) = items a
  as_array (docs a) = doc_items a
  as_array _ = []

  -- `b, _ := v.(bool)`
  unfoldable pub truthy : Value F → Bool
  truthy (bool b) = b
  truthy _ = false
