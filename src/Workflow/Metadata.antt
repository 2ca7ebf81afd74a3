-- ===== src/Workflow/Metadata.antt =====
-- WorkflowMetadata of src/fancy_flow/schema/graph.py, from a document and back.
use fancy_flow_py.Prelude.{String, List, Option, none, some, if◌then◌else◌, ℤ, map, ◌>>=◌}
use fancy_flow_py.Prelude.Dict.{Dict, get}
use fancy_flow_py.Value.{Value, list, to_list, is_present}
use fancy_flow_py.Python.{Conversions, text_of}
use fancy_flow_py.Registry.Validation.{read}
use fancy_flow_py.Workflow.Nodes.{opt_text}
use fancy_flow_py.Workflow.Writing.{WorkflowMetadata}

-- int(raw[key]) if raw.get(key) is not None else None; `none` where it raises
unfoldable pub opt_int : Conversions → Dict Value → String → Option (Option ℤ)
unfolding get
opt_int c raw key =
    if is_present (read raw key)
    then elim (c.int_of (read raw key)) [ none ↦ none | some n ↦ some (some n) ]
    else some none

-- tuple(str(t) for t in tags) if isinstance(tags, list) else None
unfoldable pub read_tags : Conversions → Value → Option (List String)
unfolding text_of to_list
read_tags c (list vs) = some (map (text_of c) (to_list vs))
read_tags c v = none

-- WorkflowMetadata.from_dict
unfoldable pub metadata_from_dict : Conversions → Dict Value → Option WorkflowMetadata
unfolding opt_int opt_text read_tags get
metadata_from_dict c raw = do
  created_at ← opt_int c raw "createdAt"
  updated_at ← opt_int c raw "updatedAt"
  some (record {
    id = opt_text c raw "id";
    name = opt_text c raw "name";
    description = opt_text c raw "description";
    created_at = created_at;
    updated_at = updated_at;
    author = opt_text c raw "author";
    tags = read_tags c (read raw "tags");
  })
