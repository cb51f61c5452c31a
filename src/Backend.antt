-- ===== src/Backend.antt =====
-- internal/backend/backend.go: the requests and results of a store.
pub mod Calls
use timongo.Prelude.Calls.{Call}
use timongo.Value.{Value}
use timongo.Prelude.{String, Bool, ℕ, List}
use timongo.Prelude.Int.{ℤ}
use timongo.Value.{Doc}

pub record FindRequest (F : Type 0) : Type 0 where
  pub filter : Doc F
  pub projection : Doc F
  pub sort : Doc F
  pub skip : ℤ
  pub limit : ℤ

pub record CollectionInfo (F : Type 0) : Type 0 where
  pub name : String
  pub options : Doc F

pub record UpdateModel (F : Type 0) : Type 0 where
  pub filter : Doc F
  pub update : Doc F
  pub multi : Bool
  pub upsert : Bool

-- The counters only grow from 0, so they are natural numbers.
pub record UpdateResult (F : Type 0) : Type 0 where
  pub matched : ℕ
  pub modified : ℕ
  pub upserted : List (Doc F)

pub record DeleteModel (F : Type 0) : Type 0 where
  pub filter : Doc F
  pub limit : ℤ

pub record IndexModel (F : Type 0) : Type 0 where
  pub name : String
  pub key : Doc F
  pub opts : Doc F

-- The interface `Store`, over the state `S` that an implementation keeps. A context is not
-- modelled; a result that is a record of one field is that field.
pub record BackendStore (F S : Type 0) : Type 0 where
  pub create_collection : String → String → Doc F → Call S (Unit {0})
  pub list_collections : String → Doc F → Call S (List (CollectionInfo F))
  pub drop_collection : String → String → Call S (Unit {0})
  pub insert_many : String → String → List (Doc F) → Call S ℕ
  pub find : String → String → FindRequest F → Call S (List (Doc F))
  pub count : String → String → Doc F → Call S ℕ
  pub distinct : String → String → String → Doc F → Call S (List (Value F))
  pub update_many : String → String → List (UpdateModel F) → Call S (UpdateResult F)
  pub delete_many : String → String → List (DeleteModel F) → Call S ℕ
  pub aggregate : String → String → List (Value F) → Call S (List (Doc F))
  pub create_indexes : String → String → List (IndexModel F) → Call S (List String)
  pub list_indexes : String → String → Call S (List (Doc F))
  pub drop_database : String → Call S (Unit {0})
