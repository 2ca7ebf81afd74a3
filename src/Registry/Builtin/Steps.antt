-- ===== src/Registry/Builtin/Steps.antt =====
-- Literals of src/fancy_flow/registry/builtin.py: subflow, merge, wait. A callable is an opaque
-- object.
use fancy_flow_py.Prelude.{[], ◌∷◌, true, pos}
use fancy_flow_py.Prelude.Dict.{Dict}
use fancy_flow_py.Value.{Value, bool, int, str, object, obj, items}

abbrev pub subflow_literal : Dict Value
subflow_literal =
    ("name", str "subflow")
    ∷ ("category", str "logic")
    ∷ ("label", str "SubFlow")
    ∷ (
      "description",
      str "Run another workflow and bring its result - or its live progress - back into this one.",
    )
    ∷ ("icon", str "⧉")
    ∷ ("inputs", items ((obj (("id", str "in") ∷ [])) ∷ []))
    ∷ ("outputs", items ((obj (("id", str "out") ∷ ("label", str "result") ∷ [])) ∷ []))
    ∷ (
      "configSchema",
      items (
          (obj (
            ("type", str "text")
            ∷ ("key", str "workflow")
            ∷ ("label", str "Workflow")
            ∷ ("required", bool true)
            ∷ ("placeholder", str "onboarding-v2")
            ∷ ("description", str "Reference resolved by the host's WorkflowResolver.")
            ∷ []))
          ∷ (obj (
              ("type", str "number")
              ∷ ("key", str "version")
              ∷ ("label", str "Pin to version")
              ∷ (
                "description",
                str
                    "Optional. Leave blank to always run the child current version. Pinning fails the run loudly if the child has moved on. Without it, someone edits the child and this flow silently runs different logic.",
              )
              ∷ []))
          ∷ (obj (
              ("type", str "select")
              ∷ ("key", str "mode")
              ∷ ("label", str "Return")
              ∷ ("default", str "output")
              ∷ (
                "options",
                items (
                    (obj (("value", str "output") ∷ ("label", str "Output when it finishes") ∷ []))
                    ∷ (obj (
                        ("value", str "stream") ∷ ("label", str "Stream progress as it runs") ∷ []))
                    ∷ (obj
                        (("value", str "both") ∷ ("label", str "Both - stream, then output") ∷ []))
                    ∷ []),
              )
              ∷ (
                "description",
                str
                    "Streaming adds a second port so a parent can show progress instead of a spinner.",
              )
              ∷ []))
          ∷ (obj (
              ("type", str "json")
              ∷ ("key", str "inputs")
              ∷ ("label", str "Input mapping")
              ∷ (
                "description",
                str
                    "Entry-point inputs for the child run. Omit to pass this node's inputs straight through.",
              )
              ∷ []))
          ∷ (obj (
              ("type", str "number")
              ∷ ("key", str "maxDepth")
              ∷ ("label", str "Max nesting depth")
              ∷ ("default", object "function" 767)
              ∷ ("min", int (pos 1))
              ∷ ("max", int (pos 32))
              ∷ ("description", str "Guards against a workflow referencing itself.")
              ∷ []))
          ∷ []),
    )
    ∷ []

abbrev pub merge_literal : Dict Value
merge_literal =
    ("name", str "merge")
    ∷ ("emits", object "function" 781)
    ∷ ("category", str "logic")
    ∷ ("label", str "Merge")
    ∷ ("description", str "Combine multiple inputs into one object or array.")
    ∷ ("icon", str "⊕")
    ∷ ("inputs", items ((obj (("id", str "a") ∷ [])) ∷ (obj (("id", str "b") ∷ [])) ∷ []))
    ∷ ("outputs", items ((obj (("id", str "out") ∷ [])) ∷ []))
    ∷ (
      "configSchema",
      items (
          (obj (
            ("type", str "select")
            ∷ ("key", str "mode")
            ∷ ("label", str "Mode")
            ∷ ("default", str "merge")
            ∷ (
              "options",
              items (
                  (obj (("value", str "merge") ∷ ("label", str "Object merge") ∷ []))
                  ∷ (obj (("value", str "concat") ∷ ("label", str "Array concat") ∷ []))
                  ∷ []),
            )
            ∷ []))
          ∷ []),
    )
    ∷ []

abbrev pub wait_literal : Dict Value
wait_literal =
    ("name", str "wait")
    ∷ (
      "outputShape",
      items (
          (obj (
            ("path", str "waited")
            ∷ ("type", str "string")
            ∷ ("description", str "Which wait mode ran.")
            ∷ []))
          ∷ (obj (
              ("path", str "duration")
              ∷ ("type", str "number")
              ∷ ("description", str "How long it waited.")
              ∷ []))
          ∷ (obj (
              ("path", str "input")
              ∷ ("type", str "unknown")
              ∷ ("description", str "The value that arrived, carried forward.")
              ∷ []))
          ∷ []),
    )
    ∷ ("category", str "logic")
    ∷ ("label", str "Wait")
    ∷ ("description", str "Sleep or wait for an external event.")
    ∷ ("icon", str "⏸")
    ∷ (
      "configSchema",
      items (
          (obj (
            ("type", str "select")
            ∷ ("key", str "mode")
            ∷ ("label", str "Mode")
            ∷ ("default", str "duration")
            ∷ (
              "options",
              items (
                  (obj (("value", str "duration") ∷ ("label", str "Duration") ∷ []))
                  ∷ (obj (("value", str "until") ∷ ("label", str "Until timestamp") ∷ []))
                  ∷ (obj (("value", str "event") ∷ ("label", str "External event") ∷ []))
                  ∷ []),
            )
            ∷ []))
          ∷ (obj (
              ("type", str "text")
              ∷ ("key", str "duration")
              ∷ ("label", str "Duration")
              ∷ ("placeholder", str "5s, 10m, 1h")
              ∷ ("description", str "Used when mode = duration.")
              ∷ []))
          ∷ []),
    )
    ∷ []
