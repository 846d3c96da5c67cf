-- ===== src/Deserializer/Cases.antt =====
-- The texts that `YAMLDagDeserializer::callback_type_from_string` reads.
use dag_scheduler.Base.{ℕ, ◌≡◌, ◌↔◌, String, true, List, [], ◌∷◌, map, arith, ==_iff}
use dag_scheduler.Deserializer.{CallbackType, callback_type_from_string, codes, codes_eq, to_lower}

codes_eq_iff : (cs ds : List ℕ) → (codes_eq cs ds ≡ true) ↔ (cs ≡ ds)
codes_eq_iff [] [] = ground arith
codes_eq_iff [] (d ∷ ds) = ground arith
codes_eq_iff (c ∷ cs) [] = ground arith
codes_eq_iff (c ∷ cs) (d ∷ ds) = ground (arith, codes_eq_iff cs ds, ==_iff c d)

-- The text is "function" or "plugin" but for the case of its letters, and there is no other type.
pub callback_type_from_string_lem :
    (s : String)
    → ((callback_type_from_string s ≡ CallbackType.function)
        ↔ (map to_lower (codes s) ≡ codes "function"))
      × ((callback_type_from_string s ≡ CallbackType.plugin)
          ↔ (map to_lower (codes s) ≡ codes "plugin"))
unfolding callback_type_from_string
callback_type_from_string_lem s = ground (
  arith,
  codes_eq_iff (map to_lower (codes s)) (codes "function"),
  codes_eq_iff (map to_lower (codes s)) (codes "plugin"),
)
