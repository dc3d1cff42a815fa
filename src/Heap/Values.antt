-- ===== src/Heap/Values.antt =====
-- The values of cxx/quickjs/quickjs.c and the objects that they hold.
use flutter_quickjs.Prelude.{ℕ, Option, none, some, List, [], ◌∷◌, ◌++◌}

-- `JSValue`: those that hold an object of the collector, and the rest.
pub data Value : Type 0 where
  object bytecode : (p : ℕ) → Value
  other : Value

-- `JS_MarkValue`
unfoldable pub mark_value : Value → List ℕ
mark_value (object p) = p ∷ []
mark_value (bytecode p) = p ∷ []
mark_value other = []

-- `if (p) mark_func(rt, &p->header);`
unfoldable pub mark_pointer : Option ℕ → List ℕ
mark_pointer none = []
mark_pointer (some p) = p ∷ []

unfoldable pub concat_map {ℓ} : {A : Type ℓ} → (A → List ℕ) → List A → List ℕ
concat_map f [] = []
concat_map f (x ∷ xs) = f x ++ concat_map f xs

abbrev pub mark_values : List Value → List ℕ
mark_values = concat_map mark_value

-- `JSAsyncFunctionState`; the values from `arg_buf` to `cur_sp` are unknown while it runs.
pub record FuncState : Type 0 where
  pub cur_func : Value
  pub this_val : Value
  pub stack : Option (List Value)

unfoldable pub async_func_mark : FuncState → List ℕ
async_func_mark s =
    mark_value s.cur_func
    ++ mark_value s.this_val
    ++ elim (s.stack) [ none ↦ [] | some values ↦ mark_values values ]
