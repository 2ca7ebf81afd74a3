-- ===== src/Registry/Builtin/Outputs.antt =====
-- Literals of src/fancy_flow/registry/builtin.py: output, log, note, subgraph, agent. A callable
-- is an opaque object.
use fancy_flow_py.Prelude.{[], ◌∷◌, true, pos}
use fancy_flow_py.Prelude.Dict.{Dict}
use fancy_flow_py.Value.{Value, bool, int, float, str, obj, items}

abbrev pub output_literal : Dict Value
output_literal =
    ("name", str "output")
    ∷ ("emits", str "input")
    ∷ ("category", str "output")
    ∷ ("label", str "Output")
    ∷ ("description", str "Terminal node - captures the workflow's result.")
    ∷ ("icon", str "●")
    ∷ ("inputs", items ((obj (("id", str "in") ∷ [])) ∷ []))
    ∷ ("outputs", items [])
    ∷ []

abbrev pub log_literal : Dict Value
log_literal =
    ("name", str "log")
    ∷ (
      "outputShape",
      items (
          (obj (
            ("path", str "logged")
            ∷ ("type", str "string")
            ∷ ("description", str "The message that was written.")
            ∷ []))
          ∷ (obj (
              ("path", str "level")
              ∷ ("type", str "string")
              ∷ ("description", str "The level it was written at.")
              ∷ []))
          ∷ []),
    )
    ∷ ("category", str "output")
    ∷ ("label", str "Log")
    ∷ ("description", str "Send to the run feed.")
    ∷ ("icon", str "≡")
    ∷ ("inputs", items ((obj (("id", str "in") ∷ [])) ∷ []))
    ∷ ("outputs", items [])
    ∷ (
      "configSchema",
      items (
          (obj (
            ("type", str "select")
            ∷ ("key", str "level")
            ∷ ("label", str "Level")
            ∷ ("default", str "info")
            ∷ (
              "options",
              items (
                  (obj (("value", str "info") ∷ ("label", str "info") ∷ []))
                  ∷ (obj (("value", str "warn") ∷ ("label", str "warn") ∷ []))
                  ∷ (obj (("value", str "error") ∷ ("label", str "error") ∷ []))
                  ∷ []),
            )
            ∷ []))
          ∷ (obj (
              ("type", str "expression")
              ∷ ("key", str "message")
              ∷ ("label", str "Message")
              ∷ ("required", bool true)
              ∷ ("example", str "{{ $json }}")
              ∷ []))
          ∷ []),
    )
    ∷ []

abbrev pub note_literal : Dict Value
note_literal =
    ("name", str "note")
    ∷ ("category", str "custom")
    ∷ ("label", str "Note")
    ∷ ("description", str "A canvas annotation. Never executed.")
    ∷ ("icon", str "🗒")
    ∷ ("inputs", items [])
    ∷ ("outputs", items [])
    ∷ []

abbrev pub subgraph_literal : Dict Value
subgraph_literal =
    ("name", str "subgraph")
    ∷ ("category", str "custom")
    ∷ ("label", str "Subgraph")
    ∷ ("description", str "Runs a nested workflow.")
    ∷ ("icon", str "▣")
    ∷ ("inputs", items ((obj (("id", str "in") ∷ [])) ∷ []))
    ∷ ("outputs", items ((obj (("id", str "out") ∷ [])) ∷ []))
    ∷ (
      "configSchema",
      items (
          (obj (
            ("type", str "json")
            ∷ ("key", str "graph")
            ∷ ("label", str "Nested workflow (WorkflowSchema)")
            ∷ []))
          ∷ []),
    )
    ∷ []

abbrev pub agent_literal : Dict Value
agent_literal =
    ("name", str "agent")
    ∷ ("category", str "ai")
    ∷ ("label", str "Agent")
    ∷ ("icon", str "*")
    ∷ ("description", str "LLM agent with tools + multi-step reasoning.")
    ∷ (
      "configSchema",
      items (
          (obj (
            ("type", str "text")
            ∷ ("key", str "model")
            ∷ ("label", str "Model")
            ∷ ("required", bool true)
            ∷ ("placeholder", str "claude-sonnet-4-5")
            ∷ []))
          ∷ (obj (
              ("type", str "textarea")
              ∷ ("key", str "system")
              ∷ ("label", str "System prompt")
              ∷ ("rows", int (pos 4))
              ∷ []))
          ∷ (obj (
              ("type", str "expression")
              ∷ ("key", str "prompt")
              ∷ ("label", str "Task")
              ∷ ("required", bool true)
              ∷ ("example", str "{{ $json.task }}")
              ∷ []))
          ∷ (obj (
              ("type", str "json")
              ∷ ("key", str "tools")
              ∷ ("label", str "Tools (JSON)")
              ∷ ("description", str "Tool definitions the agent may call.")
              ∷ []))
          ∷ (obj (
              ("type", str "number")
              ∷ ("key", str "max_steps")
              ∷ ("label", str "Max steps")
              ∷ ("default", int (pos 3))
              ∷ ("min", int (pos 1))
              ∷ ("max", int (pos 20))
              ∷ []))
          ∷ (obj (
              ("type", str "number")
              ∷ ("key", str "temperature")
              ∷ ("label", str "Temperature")
              ∷ ("min", int (pos 0))
              ∷ ("max", int (pos 2))
              ∷ ("step", float 4591870180066957722)
              ∷ ("default", float 4604480259023595110)
              ∷ []))
          ∷ []),
    )
    ∷ []
