-- ===== src/Wire.antt =====
-- internal/wire/server.go: a message of the wire protocol is decoded, handled and answered.
--
-- The messages and their encoding are those of github.com/FerretDB/wire and of the driver, which are
-- parameters: the record `Protocol` has what the code calls of them. Sockets are not modelled.
pub mod Values
pub mod Sequence
use timongo.Prelude.{
  String, ℕ, zero, suc, Bool, List, [], ◌∷◌, ◌++◌, Option, none, some, if◌then◌else◌, is_empty,
  length, take, drop, ltb, Result, ok, err, panic, ◌>>=◌, Error, library_error, ◌+◌, ◌⊎◌, inl, inr,
}
use timongo.Prelude.Calls.{Call, and_then}
use timongo.Prelude.Int.{ℤ, pos, negsuc}
use timongo.Prelude.Text.{◌+++◌}
use timongo.Prelude.Dict.{lookup, insert, has}
use timongo.Value.{Value, ordered, doc, int32, float64, str, Doc, of_doc, of_list, fields}
use timongo.Go.{Go}
use timongo.Mongoerrors.{error_text}
use timongo.Backend.{BackendStore}
use timongo.Handler.{handle}
use timongo.Handler.Arguments.{wrap_int32}
use timongo.Wire.Values.{to_bsond, normalize_driver_doc}

-- What the code calls of the wire protocol's library and of the driver, over messages, queries,
-- documents and bodies of their own types. Bytes are numbers.
pub record Protocol (F Msg Query WireDoc Body : Type 0) : Type 0 where
  -- `msg.Sections()`: the command's bytes and those of the document sequence
  pub sections : Msg → Result (List ℕ × List ℕ)
  -- `bson.Unmarshal` into a `bson.M`
  pub unmarshal : List ℕ → Result (Doc F)
  -- `wirebson.FindRaw`: the size of the document in front
  pub find_raw : List ℕ → Result ℕ
  pub query_deep : Query → Result WireDoc
  pub to_driver : WireDoc → Result (Value F)
  -- `wirebson.FromDriver`: a document, or the type of something else
  pub from_driver : Value F → Result (WireDoc ⊎ String)
  pub new_op_msg : WireDoc → Result Body
  pub new_op_reply : WireDoc → Result Body
  -- the nil body that `responseOpMsg` and `responseOpReply` return beside an error
  pub nil_body : Body
  -- `body.Size()`
  pub size : Body → ℕ

pub data OpCode : Type 0 where
  op_msg op_reply : OpCode

pub record MsgHeader : Type 0 where
  pub message_length : ℤ
  pub request_id : ℤ
  pub response_to : ℤ
  pub op_code : OpCode

-- `requestID + 1` of an `int32`.
unfoldable pub next_id : ℤ → ℤ
unfolding wrap_int32
next_id (pos n) = wrap_int32 (n + 1)
next_id (negsuc zero) = pos 0
next_id (negsuc (suc n)) = negsuc n

module _ {F : Type 0} where
  -- `sequenceFieldName(cmd)`
  unfoldable pub sequence_field_name : Doc F → String
  sequence_field_name cmd =
      if has "insert" cmd
      then "documents"
      else if has "update" cmd
      then "updates"
      else if has "delete" cmd
      then "deletes"
      else "documents"

module _ {F Msg Query WireDoc Body : Type 0} ⦃go : Go F⦄
    (protocol : Protocol F Msg Query WireDoc Body) where
  unfoldable pub response_header : ℤ → OpCode → Body → MsgHeader
  unfolding next_id wrap_int32
  response_header request_id op_code body = record {
    message_length = wrap_int32 (protocol.size body + 16);
    request_id = next_id request_id;
    response_to = request_id;
    op_code = op_code;
  }

  -- `rawDocumentToBSONMap(raw)`
  unfoldable pub raw_document : List ℕ → Result (Doc F)
  raw_document raw = do m ← protocol.unmarshal raw; normalize_driver_doc (of_doc m)

  -- One round of the loop of `rawSequenceToBSONArray`: the document, and the bytes behind it.
  unfoldable pub next_document : List ℕ → Result (Doc F × List ℕ)
  unfolding raw_document
  next_document seq = do
    n ← protocol.find_raw seq
    if ltb (length seq) n then panic else do m ← raw_document (take n seq); ok (m, drop n seq)

  -- The loop, on fuel: `none` is a loop that has not ended.
  unfoldable pub raw_sequence : ℕ → List ℕ → List (Value F) → Option (Result (List (Value F)))
  raw_sequence fuel [] found = some (ok found)
  raw_sequence zero (b ∷ seq) found = none
  raw_sequence (suc fuel) (b ∷ seq) found = elim (next_document (b ∷ seq)) [
    | ok next ↦ raw_sequence fuel next.1 (found ++ of_doc next.0 ∷ [])
    | err e ↦ some (err e)
    | panic ↦ some panic
  ]

  abbrev pub with_sequence : Doc F → Result (List (Value F)) → Result (Doc F)
  with_sequence cmd found = found >>= λ ds. ok (insert (sequence_field_name cmd) (of_list ds) cmd)

  -- A sequence of no bytes is not read. As many rounds are enough as there are bytes.
  unfoldable pub add_sequence : Doc F → List ℕ → Option (Result (Doc F))
  unfolding raw_sequence sequence_field_name
  add_sequence cmd [] = some (ok cmd)
  add_sequence cmd (b ∷ seq) = elim (raw_sequence (length (b ∷ seq)) (b ∷ seq) []) [
    | some found ↦ some (with_sequence cmd found)
    | none ↦ none
  ]

  abbrev pub decode_sections : Result (List ℕ × List ℕ) → Option (Result (Doc F))
  decode_sections (ok (spec, seq)) = elim (raw_document spec) [
    | ok cmd ↦ add_sequence cmd seq
    | err e ↦ some (err e)
    | panic ↦ some panic
  ]
  decode_sections (err e) = some (err e)
  decode_sections panic = some panic

  -- `responseOpMsg(doc)` and `responseOpReply(doc)`
  abbrev wire_doc : WireDoc ⊎ String → Result WireDoc
  wire_doc (inl d) = ok d
  wire_doc (inr name) = err (library_error ("converted response has type " +++ name))

  unfoldable pub response_op_msg : Doc F → Result Body
  response_op_msg d = do
    converted ← protocol.from_driver (ordered (fields (to_bsond d)))
    w ← wire_doc converted
    protocol.new_op_msg w

  unfoldable pub response_op_reply : Doc F → Result Body
  response_op_reply d = do
    converted ← protocol.from_driver (ordered (fields (to_bsond d)))
    w ← wire_doc converted
    protocol.new_op_reply w

  -- The reply of `serveConn` to an error.
  unfoldable pub error_reply : Error → Doc F
  error_reply e =
      ("ok", float64 (go.of_int (pos 0)))
      ∷ ("errmsg", str (error_text e))
      ∷ ("code", int32 (pos 2))
      ∷ []

  -- The body that is sent. The error of encoding a reply to an error is dropped, and the body is nil.
  abbrev pub body_or_nil : Result Body → Result Body
  body_or_nil (ok body) = ok body
  body_or_nil (err e) = ok protocol.nil_body
  body_or_nil panic = panic

  abbrev pub or_error : (Doc F → Result Body) → Result Body → Result Body
  or_error response (ok body) = ok body
  or_error response (err e) = body_or_nil (response (error_reply e))
  or_error response panic = panic

  module _ {S : Type 0} (store : BackendStore F S) where
    -- A decoded command is handled and its reply encoded.
    abbrev pub run_decoded : (Doc F → Result Body) → Result (Doc F) → Call S Body
    run_decoded response decoded s =
        and_then (s, decoded)
          λ cmd s'. and_then (handle store cmd s') λ res s''. (s'', response res)

    -- `HandleOpMsg(msg)`
    unfoldable pub handle_op_msg : Msg → S → Option (S × Result Body)
    unfolding add_sequence raw_document response_op_msg
    handle_op_msg msg s = elim (decode_sections (protocol.sections msg)) [
      | some decoded ↦ some (run_decoded response_op_msg decoded s)
      | none ↦ none
    ]

    -- `HandleOpQuery(query)`, which decodes by `WireDocToBSONMap`
    unfoldable pub handle_op_query : Query → Call S Body
    unfolding response_op_reply
    handle_op_query query =
        run_decoded response_op_reply
          (protocol.query_deep query >>= λ w. protocol.to_driver w >>= normalize_driver_doc)

    -- The bodies that `serveConn` sends.
    unfoldable pub answer_op_msg : Msg → S → Option (S × Result Body)
    unfolding handle_op_msg error_reply
    answer_op_msg msg s = elim (handle_op_msg msg s) [
      | some (s', r) ↦ some (s', or_error response_op_msg r)
      | none ↦ none
    ]

    unfoldable pub answer_op_query : Query → Call S Body
    unfolding handle_op_query error_reply
    answer_op_query query s =
        let (s', r) = handle_op_query query s in (s', or_error response_op_reply r)
