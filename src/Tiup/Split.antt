-- ===== src/Tiup/Split.antt =====
-- internal/tiup/topology.go: `SplitTopology` and `cloneNode`.
use text.Mathlib.Text.{◌==◌}
use timongo.Prelude.{
  String, ℕ, Bool, true, false, List, [], ◌∷◌, if◌then◌else◌, ◌||◌, not, filter, ◌≡◌, refl, ap,
  Result, ok, err, panic, ◌>>=◌, library_error,
}

pub data Kind : Type 0 where
  document sequence mapping scalar alias : Kind

mutual
  -- A `yaml.Node`: its kind, its value and its content. What else it has is in `style`.
  pub data Node (Style : Type 0) : Type 0 where
    node : Style → Kind → String → Nodes Style → Node Style

  pub data Nodes (Style : Type 0) : Type 0 where
    no_nodes : Nodes Style
    and_node : Node Style → Nodes Style → Nodes Style

-- `timongoSectionNames`
abbrev pub is_timongo : String → Bool
is_timongo name = name == "timongo_servers" || name == "timongo_lb_servers"

abbrev is_mapping : Kind → Bool
is_mapping kind = elim kind [ mapping ↦ true | _ ↦ false ]

module _ {Style : Type 0} where
  unfoldable mutual
    -- `cloneNode(n)`
    pub clone_node : Node Style → Node Style
    clone_node (node style kind value content) = node style kind value (clone_nodes content)

    pub clone_nodes : Nodes Style → Nodes Style
    clone_nodes no_nodes = no_nodes
    clone_nodes (and_node n ns) = and_node (clone_node n) (clone_nodes ns)

  abbrev pub value_of : Node Style → String
  value_of (node style kind value content) = value

  abbrev pub with_pair : Node Style → Node Style → Nodes Style → Nodes Style
  with_pair key value ns = and_node key (and_node value ns)

  -- One round of the loop, on what the later rounds append.
  abbrev pub place : Node Style → Node Style → Nodes Style × Nodes Style → Nodes Style × Nodes Style
  place key value (tidb, timongo) =
      let key' = clone_node key in
      let value' = clone_node value in
      if is_timongo (value_of key)
      then (tidb, with_pair key' value' timongo)
      else if value_of key == "global"
      then (with_pair key' value' tidb, with_pair key' value' timongo)
      else (with_pair key' value' tidb, timongo)

  -- The loop over the keys and their values: a key without a value is an index out of range.
  unfoldable pub split_pairs : Nodes Style → Result (Nodes Style × Nodes Style)
  unfolding clone_node
  split_pairs no_nodes = ok (no_nodes, no_nodes)
  split_pairs (and_node key no_nodes) = panic
  split_pairs (and_node key (and_node value ns)) = do
    rest ← split_pairs ns
    ok (place key value rest)

  -- The YAML library: a document's root node with its content, and how a mapping is written.
  module _ (unmarshal : List ℕ → Result (Nodes Style))
      (marshal_mapping : Nodes Style → Result (List ℕ)) (empty_mapping : List ℕ) where
    abbrev write_both : Nodes Style × Nodes Style → Result (List ℕ × List ℕ)
    write_both (tidb, timongo) = do
      tidb_raw ← marshal_mapping tidb
      timongo_raw ← marshal_mapping timongo
      ok (tidb_raw, timongo_raw)

    abbrev split_root : List ℕ → Nodes Style → Result (List ℕ × List ℕ)
    split_root raw no_nodes = ok (raw, empty_mapping)
    split_root raw (and_node (node style kind value content) _) =
        if is_mapping kind
        then split_pairs content >>= write_both
        else err (library_error "topology root must be a YAML mapping")

    -- `SplitTopology(raw)`
    unfoldable pub split_topology : List ℕ → Result (List ℕ × List ℕ)
    unfolding split_pairs
    split_topology raw = do root ← unmarshal raw; split_root raw root

  mutual
    unfolding clone_node

    clone_node-id : (n : Node Style) → clone_node n ≡ n
    clone_node-id (node style kind value content) =
        ap (node style kind value) (clone_nodes-id content)

    clone_nodes-id : (ns : Nodes Style) → clone_nodes ns ≡ ns
    clone_nodes-id no_nodes = refl
    clone_nodes-id (and_node n ns) = rw (clone_node-id n, clone_nodes-id ns) refl

  -- The content of a mapping with these keys and values.
  abbrev pub content_of : List (Node Style × Node Style) → Nodes Style
  content_of [] = no_nodes
  content_of ((key, value) ∷ ps) = with_pair key value (content_of ps)

  abbrev pub for_timongo : Node Style × Node Style → Bool
  for_timongo p = is_timongo (value_of p.0) || value_of p.0 == "global"

  abbrev pub for_tidb : Node Style × Node Style → Bool
  for_tidb p = not (is_timongo (value_of p.0))

  abbrev both_contents :
      List (Node Style × Node Style) × List (Node Style × Node Style) → Nodes Style × Nodes Style
  both_contents (tidb, timongo) = (content_of tidb, content_of timongo)

  -- One section, and those behind it.
  placed :
      (section global : Bool) (p : Node Style × Node Style)
      (tidb timongo : List (Node Style × Node Style))
      → (if section
          then both_contents (tidb, p ∷ timongo)
          else if global
          then both_contents (p ∷ tidb, p ∷ timongo)
          else both_contents (p ∷ tidb, timongo))
        ≡ both_contents (
          if not section then p ∷ tidb else tidb,
          if section || global then p ∷ timongo else timongo,
        )
  placed true global p tidb timongo = refl
  placed false true p tidb timongo = refl
  placed false false p tidb timongo = refl

  -- The sections of a topology, in their order: TiDB's file has all but the two that are timongo's,
  -- and timongo's file has those two and `global`.
  pub split_pairs-lem :
      (ps : List (Node Style × Node Style))
      → split_pairs (content_of ps)
        ≡ ok (content_of (filter for_tidb ps), content_of (filter for_timongo ps))
  unfolding split_pairs
  split_pairs-lem [] = refl
  split_pairs-lem ((key, value) ∷ ps) =
      rw (split_pairs-lem ps, clone_node-id key, clone_node-id value)
        (ap ok (
          placed (is_timongo (value_of key)) (value_of key == "global") (key, value)
            (filter for_tidb ps) (filter for_timongo ps)))
