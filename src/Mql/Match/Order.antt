-- ===== src/Mql/Match/Order.antt =====
-- The entries of a filter are a conjunction, so the order in which Go iterates over the filter, and
-- over the operators of a field, does not matter.
use mathlib.Core.List.{Permᴰ}
use timongo.Prelude.{
  String, Bool, Option, [], ◌∷◌, ◌++◌, ◌≡◌, refl, sym, ap, ◌∙◌, ◌&&◌, all, all-perm, all-append,
}
use timongo.Value.{Value, Doc, of_doc}
use timongo.Go.{Go}
use timongo.Mql.Match.{match_fields, match_clause, match_ops, match_op, match_value, matches}

module _ {F : Type 0} ⦃go : Go F⦄ where
  -- One entry of a filter, and one operator of a field's condition.
  abbrev pub entry_matches : Doc F → String × Value F → Bool
  entry_matches d e = match_clause d e.0 e.1

  abbrev pub operator_matches : Option (Value F) → String × Value F → Bool
  operator_matches found e = match_op found e.0 e.1

  -- A document matches a filter exactly when it matches every entry.
  pub matches-eq-all : (d filter : Doc F) → matches d filter ≡ all (entry_matches d) filter
  unfolding matches match_fields
  matches-eq-all d [] = refl
  matches-eq-all d ((k, v) ∷ filter) = ap (◌&&◌ (match_clause d k v)) (matches-eq-all d filter)

  -- A value meets a condition exactly when it meets every operator of it.
  pub match_value-eq-all :
      (found : Option (Value F)) (ops : Doc F)
      → match_value found (of_doc ops) ≡ all (operator_matches found) ops
  unfolding match_value match_ops
  match_value-eq-all found [] = refl
  match_value-eq-all found ((op, arg) ∷ ops) =
      ap (◌&&◌ (match_op found op arg)) (match_value-eq-all found ops)

  -- Two iteration orders of one filter give the same answer.
  pub matches-perm :
      (d : Doc F) {filter filter' : Doc F}
      → Permᴰ filter filter'
      → matches d filter ≡ matches d filter'
  matches-perm d {filter} {filter'} p =
      matches-eq-all d filter ∙ all-perm (entry_matches d) p ∙ sym (matches-eq-all d filter')

  -- Two iteration orders of the operators of one condition give the same answer.
  pub match_value-perm :
      (found : Option (Value F)) {ops ops' : Doc F}
      → Permᴰ ops ops'
      → match_value found (of_doc ops) ≡ match_value found (of_doc ops')
  match_value-perm found {ops} {ops'} p =
      match_value-eq-all found ops
      ∙ all-perm (operator_matches found) p
      ∙ sym (match_value-eq-all found ops')

  -- Two filters joined match what both match.
  pub matches-append : (d f g : Doc F) → matches d (f ++ g) ≡ (matches d f && matches d g)
  matches-append d f g =
      rw (matches-eq-all d (f ++ g), matches-eq-all d f, matches-eq-all d g)
        (all-append (entry_matches d) f g)
