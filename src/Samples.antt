-- ===== src/Samples.antt =====
-- lib/dag_serialization.cxx: the sample texts for error messages.
use Prim.Native.String.{◌++◌, char_at, len}
use Prim.Native.Char.{code}
use dag_scheduler.Base.{ℕ, ◌-◌, String, ◌==◌, Outcome, ok, fault, ◌>>=◌, if◌then◌else◌, str_eq}

-- `YAMLDagDeserializer::UpTo`
pub data UpTo : Type 0 where
  connections empty dag vertices vertex task stages stage : UpTo

abbrev stage_str : String
stage_str =
    "            - Name: <optional string>\n" ++ "              LibraryName: <string>\n"
    ++ "              SymbolName: <string>\n" ++ "          ...\n" ++ "    ...\n"

abbrev connections_str : String
connections_str =
    "  Connections:\n" ++ "    - Connection:\n" ++ "      From: <valid uuid4 string from vertex>\n"
    ++ "      To: <valid uuid4 string from vertex>\n" ++ "    ..."

abbrev stages_str : String → String
stages_str ret =
    let head : String = "        Stages:\n" in
    if str_eq ret "" then head ++ "          ..." else head ++ ret

abbrev task_str : String → String
task_str ret =
    let head : String =
      "      Task:\n" ++ "        Name: <optional string>\n"
      ++ "        InitialInputs: <optional YAML>\n" ++ "          <valid YAML>\n"
      ++ "        Configuration: <optional YAML>\n" ++ "          <valid YAML>\n"
      ++ "        Callback: <optional>\n" ++ "            LibraryName: <string>\n"
      ++ "            SymbolName: <string>\n" ++ "            Type: <enum {Plugin, Function}>\n" in
    if str_eq ret "" then head ++ "        ..." else head ++ ret

abbrev vertex_str : String → String
vertex_str ret =
    let head : String =
      "    - Vertex:\n" ++ "      Name: <optional string>\n"
      ++ "      UUID: <valid uuid4 string>\n" in
    if str_eq ret "" then head ++ "        ..." else head ++ ret

abbrev verticies_str : String → String
verticies_str ret =
    let head : String = "  Vertices:\n" in if str_eq ret "" then head ++ "    ..." else head ++ ret

abbrev dag_str : String → String
dag_str ret =
    let head : String =
      "DAG:\n" ++ "  Title: <optional string>\n" ++ "  Configuation: <optional YAML>\n"
      ++ "    <valid YAML>\n" in
    if str_eq ret "" then head ++ "  ..." else head ++ ret

-- Each case falls through to those below it.
abbrev fall_through : UpTo → String → String
fall_through UpTo.stage ret = dag_str (verticies_str (vertex_str (task_str (stages_str stage_str))))
fall_through UpTo.stages ret = dag_str (verticies_str (vertex_str (task_str (stages_str ret))))
fall_through UpTo.task ret = dag_str (verticies_str (vertex_str (task_str ret)))
fall_through UpTo.vertex ret = dag_str (verticies_str (vertex_str ret))
fall_through UpTo.vertices ret = dag_str (verticies_str ret)
fall_through UpTo.dag ret = dag_str ret
fall_through UpTo.empty ret = ret
fall_through UpTo.connections ret = connections_str

abbrev pub last_code : String → ℕ
last_code s = code (char_at s (len s - 1))

-- `back()` of the empty text is undefined.
abbrev ended : String → Outcome String
ended ret = if str_eq ret "" then fault else ok (if last_code ret == 10 then ret else ret ++ "\n")

unfoldable pub sample_dag_output : UpTo → Outcome String
sample_dag_output upto = ended (fall_through upto "")

unfoldable pub full_sample_output : Outcome String
unfolding sample_dag_output
full_sample_output = sample_dag_output UpTo.stage >>= λ stage_output.
    sample_dag_output UpTo.connections >>= λ connections_output.
    ok (stage_output ++ connections_output)
