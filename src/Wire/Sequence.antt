-- ===== src/Wire/Sequence.antt =====
-- internal/wire/server.go: the loop over a document sequence ends, and reads what was written.
use timongo.Prelude.{
  arith, ℕ, zero, suc, ◌≤◌, ◌<◌, Bool, false, List, [], ◌∷◌, ◌++◌, some, length, take, drop, ltb,
  if◌then◌else◌, ◌≡◌, refl, ◌∙◌, ap, sym, Result, ok, err, panic, Result-cases, inl, inr, >>=-eq-ok,
  map, length-drop, length-append, ◌>>=◌,
}
use mathlib.Core.List.{append-nil, append_assoc}
use timongo.Prelude.Dict.{insert}
use timongo.Value.{Value, Doc, of_doc, of_list}
use timongo.Go.{Go}
use timongo.Backend.{BackendStore}
use timongo.Wire.{
  Protocol, raw_document, next_document, raw_sequence, add_sequence, decode_sections, handle_op_msg,
  response_op_msg, run_decoded, with_sequence, sequence_field_name,
}

-- A list in front of another.
take-front : (xs ys : List ℕ) → take (length xs) (xs ++ ys) ≡ xs
take-front [] [] = refl
take-front [] (y ∷ ys) = refl
take-front (x ∷ xs) ys = ap (◌∷◌ x) (take-front xs ys)

drop-front : (xs ys : List ℕ) → drop (length xs) (xs ++ ys) ≡ ys
drop-front [] [] = refl
drop-front [] (y ∷ ys) = refl
drop-front (x ∷ xs) ys = drop-front xs ys

not_shorter : (n m : ℕ) → n ≤ m → ltb m n ≡ false
not_shorter n m h = ground arith

module _ {F Msg Query WireDoc Body : Type 0} ⦃go : Go F⦄
    (protocol : Protocol F Msg Query WireDoc Body) where
  -- What `FindRaw` documents: the document that it finds is not empty and is all there.
  abbrev pub FindsDocuments : Type 0
  FindsDocuments =
      (seq : List ℕ) (n : ℕ) → protocol.find_raw seq ≡ ok n → (0 < n) × (n ≤ length seq)

  rest_if_short :
      (test : Bool) (m : Result (Doc F)) (rest : List ℕ) (next : Doc F × List ℕ)
      → (if test then panic else (m >>= λ d. ok (d, rest))) ≡ ok next
      → next.1 ≡ rest
  rest_if_short test m rest next h = ground arith

  next_document-rest :
      (seq : List ℕ) (next : Doc F × List ℕ)
      → next_document protocol seq ≡ ok next
      → (n : ℕ) × (protocol.find_raw seq ≡ ok n) × (next.1 ≡ drop n seq)
  unfolding next_document
  next_document-rest seq next h =
      let (n, found, h') = >>=-eq-ok (protocol.find_raw seq) _ h in
      (n, found, rest_if_short _ (raw_document protocol (take n seq)) (drop n seq) next h')

  raw_sequence-ends :
      FindsDocuments
      → (fuel : ℕ) (seq : List ℕ) (found : List (Value F)) → length seq ≤ fuel
      → (r : Result (List (Value F))) × (raw_sequence protocol fuel seq found ≡ some r)
  unfolding raw_sequence
  raw_sequence-ends finds fuel [] found h = (ok found, refl)
  raw_sequence-ends finds zero (b ∷ seq) found h = absurd (omega arith)
  raw_sequence-ends finds (suc fuel) (b ∷ seq) found h =
      elim (Result-cases (next_document protocol (b ∷ seq))) [
        | inl (next, e) ↦
            let (n, e', rest) = next_document-rest (b ∷ seq) next e in
            let (positive, short) = finds (b ∷ seq) n e' in
            rw (e, raw_sequence)
              (raw_sequence-ends finds fuel next.1 _
                (rw (rest, length-drop n (b ∷ seq)) (omega arith)))
        | inr (inl (x, e)) ↦ (err x, rw (e, raw_sequence) refl)
        | inr (inr e) ↦ (panic, rw (e, raw_sequence) refl)
      ]

  add_sequence-ends :
      FindsDocuments
      → (cmd : Doc F) (seq : List ℕ)
      → (r : Result (Doc F)) × (add_sequence protocol cmd seq ≡ some r)
  unfolding add_sequence
  add_sequence-ends finds cmd [] = (ok cmd, refl)
  add_sequence-ends finds cmd (b ∷ seq) =
      let (r, e) = raw_sequence-ends finds (length (b ∷ seq)) (b ∷ seq) [] (omega arith) in
      (with_sequence protocol cmd r, rw (e, add_sequence) refl)

  decode_sections-ends :
      FindsDocuments
      → (sections : Result (List ℕ × List ℕ))
      → (r : Result (Doc F)) × (decode_sections protocol sections ≡ some r)
  decode_sections-ends finds (ok (spec, seq)) = elim (Result-cases (raw_document protocol spec)) [
    | inl (cmd, e) ↦ rw (e, decode_sections) (add_sequence-ends finds cmd seq)
    | inr (inl (x, e)) ↦ (err x, rw (e, decode_sections) refl)
    | inr (inr e) ↦ (panic, rw (e, decode_sections) refl)
  ]
  decode_sections-ends finds (err e) = (err e, refl)
  decode_sections-ends finds panic = (panic, refl)

  -- Where `FindRaw` finds no empty document, `HandleOpMsg` returns on every message: the loop over
  -- the document sequence ends within as many rounds as the sequence has bytes.
  pub handle_op_msg-ends :
      FindsDocuments
      → {S : Type 0} (store : BackendStore F S) (msg : Msg) (s : S)
      → (r : S × Result Body) × (handle_op_msg protocol store msg s ≡ some r)
  unfolding handle_op_msg
  handle_op_msg-ends finds store msg s =
      let (r, e) = decode_sections-ends finds (protocol.sections msg) in
      (run_decoded protocol store (response_op_msg protocol) r s, rw (e, handle_op_msg) refl)

  -- Documents with the bytes that they are written as, one behind the other.
  abbrev pub Written : List (List ℕ × Doc F) → Type 0
  Written [] = Unit {0}
  Written ((raw, d) ∷ ps) =
      (0 < length raw)
      × ((rest : List ℕ) → protocol.find_raw (raw ++ rest) ≡ ok (length raw))
      × (raw_document protocol raw ≡ ok d)
      × Written ps

  abbrev pub bytes_of : List (List ℕ × Doc F) → List ℕ
  bytes_of [] = []
  bytes_of ((raw, d) ∷ ps) = raw ++ bytes_of ps

  abbrev pub docs_of : List (List ℕ × Doc F) → List (Value F)
  docs_of ps = map (λ p. of_doc p.1) ps

  next_document-Written :
      (raw rest : List ℕ) (d : Doc F)
      → protocol.find_raw (raw ++ rest) ≡ ok (length raw)
      → raw_document protocol raw ≡ ok d
      → next_document protocol (raw ++ rest) ≡ ok (d, rest)
  unfolding next_document
  next_document-Written raw rest d found e =
      rw
        (
          found,
          not_shorter (length raw) (length (raw ++ rest))
              (rw (length-append raw rest) (omega arith)),
          take-front raw rest,
          drop-front raw rest,
          e,
        )
        refl

  raw_sequence-Written :
      (fuel : ℕ) (ps : List (List ℕ × Doc F)) (found : List (Value F))
      → Written ps
      → length (bytes_of ps) ≤ fuel
      → raw_sequence protocol fuel (bytes_of ps) found ≡ some (ok (found ++ docs_of ps))
  unfolding raw_sequence
  raw_sequence-Written fuel [] found h short = ap (λ ds. some (ok ds)) (sym (append-nil found))
  raw_sequence-Written fuel (([], d) ∷ ps) found h short = absurd (omega (arith, h.0))
  raw_sequence-Written zero ((b ∷ raw, d) ∷ ps) found h short = absurd (omega arith)
  raw_sequence-Written (suc fuel) ((b ∷ raw, d) ∷ ps) found h short =
      rw (next_document-Written (b ∷ raw) (bytes_of ps) d (h.1 (bytes_of ps)) h.2, raw_sequence)
        (raw_sequence-Written fuel ps (found ++ of_doc d ∷ []) h.3
            (omega (arith, short, length-append raw (bytes_of ps)))
          ∙ ap (λ ds. some (ok ds)) (append_assoc found (of_doc d ∷ []) (docs_of ps)))

  -- A message with a command and documents behind it, each written so that `FindRaw` finds it, is
  -- handled as the command with an array of those documents, in their order, as the field that the
  -- command names its documents by.
  pub handle_op_msg-sequence :
      {S : Type 0} (store : BackendStore F S) (msg : Msg) (s : S) (spec : List ℕ) (cmd : Doc F)
      (p : List ℕ × Doc F) (ps : List (List ℕ × Doc F))
      → protocol.sections msg ≡ ok (spec, bytes_of (p ∷ ps))
      → raw_document protocol spec ≡ ok cmd
      → Written (p ∷ ps)
      → handle_op_msg protocol store msg s
        ≡ some (
            run_decoded protocol store
              (response_op_msg protocol)
              (ok (insert (sequence_field_name cmd) (of_list (docs_of (p ∷ ps))) cmd))
              s)
  unfolding handle_op_msg add_sequence
  handle_op_msg-sequence store msg s spec cmd ([], d) ps e e' w = absurd (omega (arith, w.0))
  handle_op_msg-sequence store msg s spec cmd (b ∷ raw, d) ps e e' w =
      rw
        (
          handle_op_msg,
          e,
          decode_sections,
          e',
          add_sequence,
          raw_sequence-Written (length (bytes_of ((b ∷ raw, d) ∷ ps))) ((b ∷ raw, d) ∷ ps) [] w
              (omega arith),
        )
        refl
