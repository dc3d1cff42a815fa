-- ===== src/Heap/Classes.antt =====
-- The data of the objects of cxx/quickjs/quickjs.c, and the `gc_mark` functions of their classes.
use flutter_quickjs.Prelude.{ℕ, Bool, Option, none, some, List, [], ◌∷◌, ◌++◌, if◌then◌else◌, ◌||◌}
use flutter_quickjs.Heap.Values.{
  Value, object, mark_value, mark_values, mark_pointer, concat_map, FuncState, async_func_mark,
}

-- A variable of a closure.
pub record VarRef : Type 0 where
  pub header : ℕ
  pub is_detached : Bool

unfoldable pub mark_var_ref : Option VarRef → List ℕ
mark_var_ref none = []
mark_var_ref (some v) = if v.is_detached then v.header ∷ [] else []

-- `JSMapRecord`
pub record MapRecord : Type 0 where
  pub key : Value
  pub value : Value

unfoldable pub mark_record : Bool → MapRecord → List ℕ
mark_record is_weak mr = (if is_weak then [] else mark_value mr.key) ++ mark_value mr.value

-- `JSPromiseReactionData`
pub record PromiseReaction : Type 0 where
  pub resolve : Value
  pub reject : Value
  pub handler : Value

unfoldable pub mark_reaction : PromiseReaction → List ℕ
mark_reaction rd = mark_values (rd.resolve ∷ rd.reject ∷ rd.handler ∷ [])

-- `JSAsyncGeneratorRequest`
pub record AsyncGeneratorRequest : Type 0 where
  pub result : Value
  pub promise : Value
  pub resolve : Value
  pub reject : Value

unfoldable pub mark_request : AsyncGeneratorRequest → List ℕ
mark_request req = mark_values (req.result ∷ req.promise ∷ req.resolve ∷ req.reject ∷ [])

-- The data of an object by its class, for the `gc_mark` function of the class. `no_data` is an object
-- whose data are NULL or whose class has no such function, and `host_class` one of a class that the
-- host has registered.
pub data ClassData : Type 0 where
  no_data : ClassData
  array : List Value → ClassData
  object_data : Value → ClassData
  c_function : (realm : Option ℕ) → ClassData
  c_function_data : List Value → ClassData
  bytecode_function :
      (home_object : Option ℕ) (function_bytecode : Option ℕ) (var_refs : List (Option VarRef))
      → ClassData
  bound_function : (func_obj this_val : Value) (argv : List Value) → ClassData
  for_in_iterator : Value → ClassData
  typed_array : (buffer : ℕ) → ClassData
  proxy : (target handler : Value) → ClassData
  map_state : (is_weak : Bool) (records : List MapRecord) → ClassData
  map_iterator : Value → ClassData
  array_iterator : Value → ClassData
  regexp_string_iterator : (iterating_regexp iterated_string : Value) → ClassData
  generator : (completed : Bool) (func_state : FuncState) → ClassData
  promise : (fulfill reject : List PromiseReaction) (promise_result : Value) → ClassData
  promise_function : Value → ClassData
  async_function_resolve : (header : ℕ) → ClassData
  async_from_sync_iterator : (sync_iter next_method : Value) → ClassData
  async_generator :
      (queue : List AsyncGeneratorRequest) (completed awaiting_return : Bool)
      (func_state : FuncState)
      → ClassData
  operator_set : (self_ops : List (Option ℕ)) (left right : List (List (Option ℕ))) → ClassData
  host_class : (marked : List ℕ) → ClassData

unfoldable pub js_array_mark : List Value → List ℕ
js_array_mark values = mark_values values

unfoldable pub js_object_data_mark : Value → List ℕ
js_object_data_mark v = mark_value v

unfoldable pub js_c_function_mark : Option ℕ → List ℕ
js_c_function_mark realm = mark_pointer realm

unfoldable pub js_c_function_data_mark : List Value → List ℕ
js_c_function_data_mark values = mark_values values

unfoldable pub js_bytecode_function_mark :
    (home_object function_bytecode : Option ℕ) → List (Option VarRef) → List ℕ
js_bytecode_function_mark home_object none var_refs = mark_pointer home_object
js_bytecode_function_mark home_object (some b) var_refs =
    mark_pointer home_object ++ concat_map mark_var_ref var_refs ++ b ∷ []

unfoldable pub js_bound_function_mark : (func_obj this_val : Value) → List Value → List ℕ
js_bound_function_mark func_obj this_val argv =
    mark_value func_obj ++ mark_value this_val ++ mark_values argv

unfoldable pub js_for_in_iterator_mark : Value → List ℕ
js_for_in_iterator_mark obj = mark_value obj

unfoldable pub js_typed_array_mark : ℕ → List ℕ
js_typed_array_mark buffer = mark_value (object buffer)

unfoldable pub js_proxy_mark : (target handler : Value) → List ℕ
js_proxy_mark target handler = mark_value target ++ mark_value handler

unfoldable pub js_map_mark : Bool → List MapRecord → List ℕ
js_map_mark is_weak records = concat_map (mark_record is_weak) records

unfoldable pub js_map_iterator_mark : Value → List ℕ
js_map_iterator_mark obj = mark_value obj

unfoldable pub js_array_iterator_mark : Value → List ℕ
js_array_iterator_mark obj = mark_value obj

unfoldable pub js_regexp_string_iterator_mark : (iterating_regexp iterated_string : Value) → List ℕ
js_regexp_string_iterator_mark iterating_regexp iterated_string =
    mark_value iterating_regexp ++ mark_value iterated_string

unfoldable pub js_generator_mark : Bool → FuncState → List ℕ
js_generator_mark completed func_state = if completed then [] else async_func_mark func_state

unfoldable pub js_promise_mark : (fulfill reject : List PromiseReaction) → Value → List ℕ
js_promise_mark fulfill reject promise_result =
    concat_map mark_reaction fulfill ++ concat_map mark_reaction reject ++ mark_value promise_result

unfoldable pub js_promise_resolve_function_mark : Value → List ℕ
js_promise_resolve_function_mark p = mark_value p

unfoldable pub js_async_function_resolve_mark : ℕ → List ℕ
js_async_function_resolve_mark header = header ∷ []

unfoldable pub js_async_from_sync_iterator_mark : (sync_iter next_method : Value) → List ℕ
js_async_from_sync_iterator_mark sync_iter next_method =
    mark_value sync_iter ++ mark_value next_method

unfoldable pub js_async_generator_mark :
    List AsyncGeneratorRequest → (completed awaiting_return : Bool) → FuncState → List ℕ
js_async_generator_mark queue completed awaiting_return func_state =
    concat_map mark_request queue
    ++ (if completed || awaiting_return then [] else async_func_mark func_state)

-- `ent->ops` of one entry.
abbrev pub mark_ops : List (Option ℕ) → List ℕ
mark_ops = concat_map mark_pointer

unfoldable pub js_operator_set_mark :
    List (Option ℕ) → (left right : List (List (Option ℕ))) → List ℕ
js_operator_set_mark self_ops left right =
    mark_ops self_ops ++ concat_map mark_ops left ++ concat_map mark_ops right

-- `rt->class_array[p->class_id].gc_mark`, by the table `js_std_class_def`.
unfoldable pub gc_mark : ClassData → List ℕ
gc_mark no_data = []
gc_mark (array values) = js_array_mark values
gc_mark (object_data v) = js_object_data_mark v
gc_mark (c_function realm) = js_c_function_mark realm
gc_mark (c_function_data values) = js_c_function_data_mark values
gc_mark (bytecode_function home_object b var_refs) =
    js_bytecode_function_mark home_object b var_refs
gc_mark (bound_function func_obj this_val argv) = js_bound_function_mark func_obj this_val argv
gc_mark (for_in_iterator obj) = js_for_in_iterator_mark obj
gc_mark (typed_array buffer) = js_typed_array_mark buffer
gc_mark (proxy target handler) = js_proxy_mark target handler
gc_mark (map_state is_weak records) = js_map_mark is_weak records
gc_mark (map_iterator obj) = js_map_iterator_mark obj
gc_mark (array_iterator obj) = js_array_iterator_mark obj
gc_mark (regexp_string_iterator re str) = js_regexp_string_iterator_mark re str
gc_mark (generator completed func_state) = js_generator_mark completed func_state
gc_mark (promise fulfill reject promise_result) = js_promise_mark fulfill reject promise_result
gc_mark (promise_function p) = js_promise_resolve_function_mark p
gc_mark (async_function_resolve header) = js_async_function_resolve_mark header
gc_mark (async_from_sync_iterator sync_iter next_method) =
    js_async_from_sync_iterator_mark sync_iter next_method
gc_mark (async_generator queue completed awaiting_return func_state) =
    js_async_generator_mark queue completed awaiting_return func_state
gc_mark (operator_set self_ops left right) = js_operator_set_mark self_ops left right
gc_mark (host_class marked) = marked
