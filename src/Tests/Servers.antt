-- ===== src/Tests/Servers.antt =====
-- The theorems of internal/wire/server.go, at concrete inputs.
use timongo.Prelude.{
  ℕ, List, [], ◌∷◌, some, ◌≡◌, refl, Result, ok, err, inl, arith, library_error, eqb, if◌then◌else◌,
}
use timongo.Prelude.Int.{ℤ}
use timongo.Prelude.Dict.{insert}
use timongo.Value.{Value, str, Doc, of_doc, of_list, ordered, field, end}
use timongo.Bsonutil.Normalize.{normalize}
use timongo.Memory.Served.{MemoryState, memory_store}
use timongo.Wire.{
  Protocol, handle_op_msg, response_op_msg, run_decoded, raw_document, sequence_field_name,
}
use timongo.Wire.Sequence.{handle_op_msg-ends, handle_op_msg-sequence, FindsDocuments}
use timongo.Wire.Values.{normalize_driver_value, normalize_driver_doc}
use timongo.Wire.Values.Laws.{is_decoded, normalize_driver-eq}
use timongo.Tests.{num, whole, item, shelf}
use timongo.Tests.Handlers.{ticks}

abbrev insert_cmd : Doc ℤ
insert_cmd = ("insert", str "c") ∷ ("$db", str "db") ∷ []

abbrev nothing : Doc ℤ
nothing = ("nothing", num 1) ∷ []

-- A protocol where each document is one byte.
abbrev decoded : List ℕ → Result (Doc ℤ)
decoded [] = err (library_error "EOF")
decoded (n ∷ _) = if eqb n 0 then ok insert_cmd else if eqb n 1 then ok nothing else ok (item "d" n)

abbrev found_size : List ℕ → Result ℕ
found_size [] = err (library_error "EOF")
found_size (_ ∷ _) = ok 1

abbrev bytewise : Protocol ℤ (List ℕ × List ℕ) (Unit {0}) (Value ℤ) (Value ℤ)
bytewise = record {
  nil_body = num 0;
  sections = λ m. ok m;
  unmarshal = decoded;
  find_raw = found_size;
  query_deep = λ _. err (library_error "EOF");
  to_driver = λ w. ok w;
  from_driver = λ v. ok (inl v);
  new_op_msg = λ w. ok w;
  new_op_reply = λ w. ok w;
  size = λ _. 0;
}

bytewise-finds : FindsDocuments bytewise
bytewise-finds [] n h = cc
bytewise-finds (b ∷ seq) n h = (ground arith, ground arith)

handle_op_msg-ends_example :
    (r : MemoryState ℤ × Result (Value ℤ)) × (handle_op_msg bytewise
        (memory_store ticks)
        (0 ∷ [], 7 ∷ 8 ∷ [])
        (shelf, 0)
      ≡ some r)
handle_op_msg-ends_example =
    handle_op_msg-ends bytewise bytewise-finds (memory_store ticks) (0 ∷ [], 7 ∷ 8 ∷ []) (shelf, 0)

handle_op_msg-sequence_example :
    handle_op_msg bytewise (memory_store ticks) (0 ∷ [], 7 ∷ 8 ∷ []) (shelf, 0)
    ≡ some (
        run_decoded bytewise
          (memory_store ticks)
          (response_op_msg bytewise)
          (ok (
            insert
              (sequence_field_name insert_cmd)
              (of_list (of_doc (item "d" 7) ∷ of_doc (item "d" 8) ∷ []))
              insert_cmd))
          (shelf, 0))
unfolding raw_document normalize_driver_doc
handle_op_msg-sequence_example =
    handle_op_msg-sequence bytewise (memory_store ticks) (0 ∷ [], 7 ∷ 8 ∷ []) (shelf, 0) (0 ∷ [])
      insert_cmd (7 ∷ [], item "d" 7) ((8 ∷ [], item "d" 8) ∷ []) refl refl
      (omega arith, λ rest. refl, refl, (omega arith, λ rest. refl, refl, tt))

abbrev raw_pair : Value ℤ
raw_pair = ordered (field "a" (num 1) (field "b" (ordered (field "c" (num 2) end)) end))

normalize_driver-eq_example : normalize_driver_value raw_pair ≡ ok (normalize raw_pair)
unfolding is_decoded
normalize_driver-eq_example = normalize_driver-eq raw_pair refl
