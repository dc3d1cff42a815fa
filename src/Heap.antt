-- ===== src/Heap.antt =====
-- What the objects of cxx/quickjs/quickjs.c reference, as its collector asks for it: `mark_children`
-- and the `gc_mark` functions of the classes.
-- A function that marks is the list of the objects on which it calls `mark_func`, in order. A
-- pointer to an object of the collector is a number, and one that can be NULL an option.
pub mod Values
pub mod Classes
use flutter_quickjs.Prelude.{
  ℕ, Bool, true, false, Option, none, some, List, [], ◌∷◌, ◌++◌, if◌then◌else◌,
}
use flutter_quickjs.Heap.Values.{
  Value, mark_value, mark_values, mark_pointer, concat_map, FuncState, async_func_mark,
}
use flutter_quickjs.Heap.Classes.{ClassData, gc_mark}

-- A property of an object, by the flags of its shape: `JS_PROP_NORMAL`, `JS_PROP_GETSET`,
-- `JS_PROP_VARREF`, `JS_PROP_AUTOINIT`, or one that is deleted (`JS_ATOM_NULL`).
pub data Property : Type 0 where
  normal : Value → Property
  getset : (getter setter : Option ℕ) → Property
  var_ref_prop : (is_detached : Bool) (var_ref : ℕ) → Property
  autoinit : (realm : ℕ) → Property
  deleted : Property

unfoldable pub mark_property : Property → List ℕ
mark_property (normal v) = mark_value v
mark_property (getset getter setter) = mark_pointer getter ++ mark_pointer setter
mark_property (var_ref_prop is_detached p) = if is_detached then p ∷ [] else []
mark_property (autoinit realm) = realm ∷ []
mark_property deleted = []

-- `JSModuleDef`: the variables that it exports (`JS_EXPORT_TYPE_LOCAL`), and its values.
pub record ModuleDef : Type 0 where
  pub local_exports : List (Option ℕ)
  pub module_ns : Value
  pub func_obj : Value
  pub eval_exception : Value
  pub meta_obj : Value

unfoldable pub js_mark_module_def : ModuleDef → List ℕ
js_mark_module_def m =
    concat_map mark_pointer m.local_exports
    ++ mark_values (m.module_ns ∷ m.func_obj ∷ m.eval_exception ∷ m.meta_obj ∷ [])

-- `JSContext`
pub record Context : Type 0 where
  pub loaded_modules : List ModuleDef
  pub global_obj : Value
  pub global_var_obj : Value
  pub throw_type_error : Value
  pub eval_obj : Value
  pub array_proto_values : Value
  pub native_error_proto : List Value
  pub class_proto : List Value
  pub iterator_proto : Value
  pub async_iterator_proto : Value
  pub promise_ctor : Value
  pub array_ctor : Value
  pub regexp_ctor : Value
  pub function_ctor : Value
  pub function_proto : Value
  pub array_shape : Option ℕ

-- `JS_MarkContext`
unfoldable pub mark_context : Context → List ℕ
mark_context c =
    concat_map js_mark_module_def c.loaded_modules
    ++ mark_values (
        c.global_obj ∷ c.global_var_obj ∷ c.throw_type_error ∷ c.eval_obj ∷ c.array_proto_values
        ∷ [])
    ++ mark_values c.native_error_proto
    ++ mark_values c.class_proto
    ++ mark_values (
        c.iterator_proto ∷ c.async_iterator_proto ∷ c.promise_ctor ∷ c.array_ctor ∷ c.regexp_ctor
        ∷ c.function_ctor ∷ c.function_proto ∷ [])
    ++ mark_pointer c.array_shape

-- `JSGCObjectHeader` with what its type has to mark.
pub data GcObject : Type 0 where
  js_object : (shape : ℕ) (prop : List Property) (class : ClassData) → GcObject
  function_bytecode : (cpool : List Value) (realm : Option ℕ) → GcObject
  var_ref : (is_detached : Bool) (pvalue : Value) → GcObject
  async_function : (is_active : Bool) (func_state : FuncState) (resolve reject : Value) → GcObject
  shape : (proto : Option ℕ) → GcObject
  js_context : Context → GcObject

-- `none` is the `assert` on a variable that is not detached.
unfoldable pub mark_children : GcObject → Option (List ℕ)
mark_children (js_object sh prop class) = some (sh ∷ concat_map mark_property prop ++ gc_mark class)
mark_children (function_bytecode cpool realm) = some (mark_values cpool ++ mark_pointer realm)
mark_children (var_ref is_detached pvalue) = if is_detached then some (mark_value pvalue) else none
mark_children (async_function is_active func_state resolve reject) =
    some (
      (if is_active then async_func_mark func_state else []) ++ mark_values (resolve ∷ reject ∷ []))
mark_children (shape proto) = some (mark_pointer proto)
mark_children (js_context c) = some (mark_context c)
