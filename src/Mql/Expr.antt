-- ===== src/Mql/Expr.antt =====
-- internal/mql/mql.go: `evalExpr`.
use timongo.Prelude.{String, eqb, if◌then◌else◌}
use timongo.Value.{Value, str, doc, map_any, Fields, end, field, Doc}
use Prim.Native.Char.{code}
use timongo.Mql.Path.{value_by_path, or_nil}

module _ {F : Type 0} where
  -- A text of two or more characters that begins with a dollar names a path.
  eval_text : Doc F → String → Value F
  eval_text d String.[] = str ""
  eval_text d (String.◌∷◌ c String.[]) = str (String.◌∷◌ c "")
  eval_text d (String.◌∷◌ c (String.◌∷◌ c' s)) =
      if eqb (code c) b'$'
      then or_nil (value_by_path d (String.◌∷◌ c' s))
      else str (String.◌∷◌ c (String.◌∷◌ c' s))

  unfoldable mutual
    unfolding eval_text

    pub eval_expr : Doc F → Value F → Value F
    eval_expr d (str s) = eval_text d s
    eval_expr d (doc m) = doc (eval_fields d m)
    eval_expr d (map_any end) = map_any end
    eval_expr d (map_any (field k v m)) = doc (field k (eval_expr d v) (eval_fields d m))
    eval_expr d v = v

    pub eval_fields : Doc F → Fields F → Fields F
    eval_fields d end = end
    eval_fields d (field k v m) = field k (eval_expr d v) (eval_fields d m)
