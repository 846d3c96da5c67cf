-- ===== src/Deserializer/Symbols.antt =====
-- lib/dag_serialization.cxx: the search for a symbol in a library.
use Prim.Native.String.{◌++◌}
use dag_scheduler.Base.{String, Bool, not, ◌&&◌, List, [], ◌∷◌, str_eq}
use dag_scheduler.Loader.{Exception, Loader, ◌>>=◌, return, expect}
use dag_scheduler.Registry.{Libraries, is_member}

-- The stream operator for the symbols: each with a comma behind it.
abbrev pub with_commas : List String → String
with_commas [] = ""
with_commas (x ∷ xs) = x ++ "," ++ with_commas xs

module _ (libraries : Libraries) where
  -- The result, and `cb_symbols`.
  unfoldable pub verify_symbol_present : String → String → String → Loader (Bool × String)
  verify_symbol_present library symbol_name section_name =
      expect Exception.deserializer (libraries.symbols library section_name) >>= λ task_cb_funcs.
      return (is_member task_cb_funcs symbol_name, with_commas task_cb_funcs)

  -- The condition of the three callers.
  unfoldable pub found_in : String → String → String → Loader Bool
  unfolding verify_symbol_present
  found_in library symbol_name section_name =
      verify_symbol_present library symbol_name section_name >>= λ (symbol_present, cb_symbols).
      return (symbol_present && not (str_eq cb_symbols ""))
