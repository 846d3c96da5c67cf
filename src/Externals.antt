-- ===== src/Externals.antt =====
-- What the program calls and does not implement: libuuid, and the classes that a plugin derives
-- from TaskStage and TaskCallbackPlugin. An instance of this record stands for them.
use dag_scheduler.Base.{Option, some, ℕ, String, Bool, ◌≡◌, ◌≢◌}

-- A stage is an object of a plugin's class: its label and UUID, and what its virtual `run` and `end`
-- return.
pub record TaskStage : Type 0 where
  pub label : String
  pub uuid : ℕ
  pub run : Bool
  pub ends : Bool

-- `generate n` is the n-th UUID that `uuid_generate` makes, and `unparse_lower` the text of
-- `uuid_unparse_lower`. Its laws: the texts of two UUIDs are equal only if the UUIDs are, and a text
-- has 36 characters, so that it is not empty. `parse` is `uuid_parse`, which reads
-- such a text. A callback plugin is known by a number.
pub record Externals : Type 0 where
  pub generate : ℕ → ℕ
  pub unparse_lower : ℕ → String
  pub unparse_lower-injective : (u v : ℕ) → unparse_lower u ≡ unparse_lower v → u ≡ v
  pub unparse_lower_ne_empty : (u : ℕ) → unparse_lower u ≢ ""
  pub parse : String → Option ℕ
  pub parse-unparse_lower : (u : ℕ) → parse (unparse_lower u) ≡ some u
  pub clone_stage : TaskStage → TaskStage
  pub clone_plugin : ℕ → ℕ
