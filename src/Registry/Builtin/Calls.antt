-- ===== src/Registry/Builtin/Calls.antt =====
-- Literals of src/fancy_flow/registry/builtin.py: llm_call. A callable is an opaque object.
use fancy_flow_py.Prelude.{[], ◌∷◌, true, pos}
use fancy_flow_py.Prelude.Dict.{Dict}
use fancy_flow_py.Value.{Value, bool, int, float, str, object, obj, items}

abbrev pub llm_call_literal : Dict Value
llm_call_literal =
    ("name", str "llm_call")
    ∷ ("outputShape", object "function" 1006)
    ∷ ("category", str "ai")
    ∷ ("label", str "LLM Call")
    ∷ ("description", str "Send a prompt + context to a model and receive a response.")
    ∷ ("icon", str "✦")
    ∷ (
      "configSchema",
      items (
          (obj (
            ("type", str "select")
            ∷ ("key", str "provider")
            ∷ ("label", str "Provider")
            ∷ ("default", str "anthropic")
            ∷ (
              "options",
              items (
                  (obj (("value", str "anthropic") ∷ ("label", str "Anthropic") ∷ []))
                  ∷ (obj (("value", str "openai") ∷ ("label", str "OpenAI") ∷ []))
                  ∷ (obj (("value", str "custom") ∷ ("label", str "Custom") ∷ []))
                  ∷ []),
            )
            ∷ []))
          ∷ (obj (
              ("type", str "text")
              ∷ ("key", str "model")
              ∷ ("label", str "Model")
              ∷ ("placeholder", str "claude-sonnet-4-5")
              ∷ ("required", bool true)
              ∷ []))
          ∷ (obj (
              ("type", str "textarea")
              ∷ ("key", str "system")
              ∷ ("label", str "System prompt")
              ∷ ("rows", int (pos 4))
              ∷ []))
          ∷ (obj (
              ("type", str "expression")
              ∷ ("key", str "prompt")
              ∷ ("label", str "User prompt")
              ∷ ("example", str "{{ $json.question }}")
              ∷ ("required", bool true)
              ∷ []))
          ∷ (obj (
              ("type", str "number")
              ∷ ("key", str "temperature")
              ∷ ("label", str "Temperature")
              ∷ ("min", int (pos 0))
              ∷ ("max", int (pos 2))
              ∷ ("step", float 4591870180066957722)
              ∷ ("default", float 4604480259023595110)
              ∷ []))
          ∷ (obj (
              ("type", str "number")
              ∷ ("key", str "max_tokens")
              ∷ ("label", str "Max tokens")
              ∷ ("min", int (pos 1))
              ∷ ("max", int (pos 8192))
              ∷ ("default", int (pos 1024))
              ∷ []))
          ∷ (obj (
              ("type", str "json")
              ∷ ("key", str "tools")
              ∷ ("label", str "Tools (JSON)")
              ∷ ("description", str "Optional Anthropic-style tool definitions.")
              ∷ []))
          ∷ (obj (
              ("type", str "credential")
              ∷ ("key", str "credential")
              ∷ ("label", str "API credential")
              ∷ ("credentialType", str "llm_credential")
              ∷ []))
          ∷ []),
    )
    ∷ []
