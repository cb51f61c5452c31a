-- ===== src/Bsonutil/ExtJson.antt =====
-- internal/bsonutil/bsonutil.go: `MarshalExtJSON` and `UnmarshalExtJSON`. The driver's Extended JSON
-- is a parameter.
use timongo.Prelude.{String, ℕ, List, Result, ok, ◌>>=◌}
use timongo.Value.{Doc, as_map, of_doc}
use timongo.Bsonutil.Normalize.{normalize}

-- What the driver and the language do with texts.
pub record ExtJson (F : Type 0) : Type 0 where
  -- `bson.MarshalExtJSON(doc, true, false)` and `bson.UnmarshalExtJSON(raw, true, &doc)`
  pub marshal : Doc F → Result String
  pub unmarshal : String → Result (Doc F)
  -- `[]byte(s)`
  pub utf8 : String → List ℕ

module _ {F : Type 0} (json : ExtJson F) where
  unfoldable pub marshal_ext_json : Doc F → Result String
  marshal_ext_json d = json.marshal d

  unfoldable pub unmarshal_ext_json : String → Result (Doc F)
  unmarshal_ext_json raw = json.unmarshal raw >>= λ d. ok (as_map (normalize (of_doc d)))
