-- ===== src/Registry/Builtin/Routers.antt =====
-- Literals of src/fancy_flow/registry/builtin.py: llm_router, tool_use. A callable is an opaque
-- object.
use fancy_flow_py.Prelude.{[], ◌∷◌, true, pos}
use fancy_flow_py.Prelude.Dict.{Dict}
use fancy_flow_py.Value.{Value, bool, int, str, obj, items}

abbrev pub llm_router_literal : Dict Value
llm_router_literal =
    ("name", str "llm_router")
    ∷ (
      "outputShape",
      items (
          (obj (
            ("path", str "route")
            ∷ ("type", str "string")
            ∷ ("description", str "The port the model chose.")
            ∷ []))
          ∷ (obj (
              ("path", str "reason")
              ∷ ("type", str "string")
              ∷ ("description", str "Why the model chose it.")
              ∷ []))
          ∷ (obj (
              ("path", str "input")
              ∷ ("type", str "unknown")
              ∷ ("description", str "The value that arrived, carried forward.")
              ∷ []))
          ∷ []),
    )
    ∷ ("category", str "ai")
    ∷ ("label", str "LLM Router")
    ∷ ("aliases", items ((str "llm_branch") ∷ (str "@fancy/llm_branch") ∷ []))
    ∷ ("description", str "Let a model choose which route the flow takes.")
    ∷ ("icon", str "✧")
    ∷ ("inputs", items ((obj (("id", str "in") ∷ [])) ∷ []))
    ∷ (
      "outputs",
      items (
          (obj (("id", str "a") ∷ ("label", str "a") ∷ []))
          ∷ (obj (("id", str "b") ∷ ("label", str "b") ∷ []))
          ∷ (obj (("id", str "fallback") ∷ ("label", str "fallback") ∷ []))
          ∷ []),
    )
    ∷ (
      "configSchema",
      items (
          (obj (
            ("type", str "textarea")
            ∷ ("key", str "system")
            ∷ ("label", str "System prompt")
            ∷ ("rows", int (pos 3))
            ∷ ("description", str "Optional framing for the routing decision.")
            ∷ []))
          ∷ (obj (
              ("type", str "expression")
              ∷ ("key", str "prompt")
              ∷ ("label", str "What to route on")
              ∷ ("required", bool true)
              ∷ ("example", str "{{ $json.message }}")
              ∷ []))
          ∷ (obj (
              ("type", str "json")
              ∷ ("key", str "routes")
              ∷ ("label", str "Routes")
              ∷ (
                "description",
                str
                    "The model picks exactly one. Descriptions are what it chooses between - make them distinct.",
              )
              ∷ (
                "default",
                items (
                    (obj (
                      ("port", str "a")
                      ∷ ("description", str "Describe when the model should pick this route.")
                      ∷ []))
                    ∷ (obj (
                        ("port", str "b")
                        ∷ ("description", str "Describe when the model should pick this route.")
                        ∷ []))
                    ∷ []),
              )
              ∷ []))
          ∷ (obj (
              ("type", str "select")
              ∷ ("key", str "provider")
              ∷ ("label", str "Provider")
              ∷ ("default", str "anthropic")
              ∷ (
                "options",
                items (
                    (obj (("value", str "anthropic") ∷ ("label", str "Anthropic") ∷ []))
                    ∷ (obj (("value", str "openai") ∷ ("label", str "OpenAI") ∷ []))
                    ∷ (obj (("value", str "custom") ∷ ("label", str "Custom") ∷ []))
                    ∷ []),
              )
              ∷ []))
          ∷ (obj (
              ("type", str "text")
              ∷ ("key", str "model")
              ∷ ("label", str "Model")
              ∷ ("placeholder", str "claude-sonnet-4-5")
              ∷ []))
          ∷ (obj (
              ("type", str "switch")
              ∷ ("key", str "fallback")
              ∷ ("label", str "Add a `fallback` port")
              ∷ ("default", bool true)
              ∷ ("description", str "Where the flow goes if the model returns no usable route.")
              ∷ []))
          ∷ (obj (
              ("type", str "credential")
              ∷ ("key", str "credential")
              ∷ ("label", str "API credential")
              ∷ ("credentialType", str "llm_credential")
              ∷ []))
          ∷ []),
    )
    ∷ []

abbrev pub tool_use_literal : Dict Value
tool_use_literal =
    ("name", str "tool_use")
    ∷ ("category", str "ai")
    ∷ ("label", str "Tool Use")
    ∷ ("description", str "Hand control to a host-registered tool by name.")
    ∷ ("icon", str "🛠")
    ∷ (
      "configSchema",
      items (
          (obj (
            ("type", str "text")
            ∷ ("key", str "tool")
            ∷ ("label", str "Tool name")
            ∷ ("placeholder", str "search_index")
            ∷ ("required", bool true)
            ∷ []))
          ∷ (obj (
              ("type", str "expression")
              ∷ ("key", str "args")
              ∷ ("label", str "Arguments")
              ∷ ("example", str "{{ { query: $json.q } }}")
              ∷ []))
          ∷ []),
    )
    ∷ []
