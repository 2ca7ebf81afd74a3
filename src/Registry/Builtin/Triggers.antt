-- ===== src/Registry/Builtin/Triggers.antt =====
-- Literals of src/fancy_flow/registry/builtin.py: manual_trigger, webhook_trigger,
-- schedule_trigger, user_input. A callable is an opaque object.
use fancy_flow_py.Prelude.{[], ◌∷◌, true, false, pos}
use fancy_flow_py.Prelude.Dict.{Dict}
use fancy_flow_py.Value.{Value, bool, int, str, object, obj, items}

abbrev pub manual_trigger_literal : Dict Value
manual_trigger_literal =
    ("name", str "manual_trigger")
    ∷ ("emits", str "input-map-merged")
    ∷ ("category", str "trigger")
    ∷ ("label", str "Manual")
    ∷ ("description", str "Entry point fired when the user clicks Run.")
    ∷ ("icon", str "⚡")
    ∷ ("inputs", items [])
    ∷ ("outputs", items ((obj (("id", str "out") ∷ [])) ∷ []))
    ∷ []

abbrev pub webhook_trigger_literal : Dict Value
webhook_trigger_literal =
    ("name", str "webhook_trigger")
    ∷ ("category", str "trigger")
    ∷ ("label", str "Webhook")
    ∷ ("description", str "Triggered by an inbound HTTP request to a host-provided URL.")
    ∷ ("icon", str "📡")
    ∷ ("inputs", items [])
    ∷ ("outputs", items ((obj (("id", str "out") ∷ ("label", str "payload") ∷ [])) ∷ []))
    ∷ (
      "configSchema",
      items (
          (obj (
            ("type", str "text")
            ∷ ("key", str "path")
            ∷ ("label", str "Path")
            ∷ ("placeholder", str "/hooks/my-flow")
            ∷ ("required", bool true)
            ∷ []))
          ∷ (obj (
              ("type", str "select")
              ∷ ("key", str "method")
              ∷ ("label", str "Method")
              ∷ ("default", str "POST")
              ∷ (
                "options",
                items (
                    (obj (("value", str "POST") ∷ ("label", str "POST") ∷ []))
                    ∷ (obj (("value", str "GET") ∷ ("label", str "GET") ∷ []))
                    ∷ []),
              )
              ∷ []))
          ∷ (obj (
              ("type", str "credential")
              ∷ ("key", str "secret")
              ∷ ("label", str "Verifying secret")
              ∷ ("credentialType", str "webhook_secret")
              ∷ []))
          ∷ []),
    )
    ∷ []

abbrev pub schedule_trigger_literal : Dict Value
schedule_trigger_literal =
    ("name", str "schedule_trigger")
    ∷ (
      "outputShape",
      items (
          (obj (
            ("path", str "cron")
            ∷ ("type", str "string")
            ∷ ("description", str "The cron expression that fired.")
            ∷ []))
          ∷ (obj (
              ("path", str "timezone")
              ∷ ("type", str "string")
              ∷ ("description", str "The timezone it was evaluated in.")
              ∷ []))
          ∷ []),
    )
    ∷ ("emits", str "input-map-merged")
    ∷ ("category", str "trigger")
    ∷ ("label", str "Schedule")
    ∷ ("description", str "Fires on a cron schedule (host-implemented).")
    ∷ ("icon", str "⏱")
    ∷ ("inputs", items [])
    ∷ ("outputs", items ((obj (("id", str "out") ∷ [])) ∷ []))
    ∷ (
      "configSchema",
      items (
          (obj (
            ("type", str "text")
            ∷ ("key", str "cron")
            ∷ ("label", str "Cron")
            ∷ ("placeholder", str "*/5 * * * *")
            ∷ ("required", bool true)
            ∷ ("description", str "Standard 5-field cron expression.")
            ∷ []))
          ∷ (obj (
              ("type", str "text")
              ∷ ("key", str "timezone")
              ∷ ("label", str "Timezone")
              ∷ ("placeholder", str "UTC")
              ∷ ("default", str "UTC")
              ∷ []))
          ∷ []),
    )
    ∷ []

abbrev pub user_input_literal : Dict Value
user_input_literal =
    ("name", str "user_input")
    ∷ ("outputShape", object "function" 552)
    ∷ ("category", str "human")
    ∷ ("label", str "User Input")
    ∷ ("description", str "Pause the flow until the user submits the configured form.")
    ∷ ("icon", str "✎")
    ∷ ("pausesForHuman", str "input")
    ∷ ("inputs", items ((obj (("id", str "in") ∷ [])) ∷ []))
    ∷ ("outputs", items ((obj (("id", str "out") ∷ ("label", str "values") ∷ [])) ∷ []))
    ∷ (
      "configSchema",
      items (
          (obj (
            ("type", str "text")
            ∷ ("key", str "title")
            ∷ ("label", str "Form title")
            ∷ ("default", str "Need your input")
            ∷ []))
          ∷ (obj (
              ("type", str "json")
              ∷ ("key", str "fields")
              ∷ ("label", str "Fields (JSON)")
              ∷ ("language", str "json")
              ∷ ("rows", int (pos 6))
              ∷ (
                "default",
                items (
                    (obj (
                      ("key", str "answer")
                      ∷ ("label", str "Your answer")
                      ∷ ("type", str "textarea")
                      ∷ []))
                    ∷ []),
              )
              ∷ []))
          ∷ (obj (
              ("type", str "switch")
              ∷ ("key", str "autoAnswerFromInput")
              ∷ ("label", str "Let an incoming value answer this")
              ∷ ("default", bool false)
              ∷ (
                "description",
                str
                    "Off by default: this node pauses for a person even when something already put a value on its input. Turn it on for a step that is a form when a human is present and a pass-through when an upstream node already produced the answer.",
              )
              ∷ []))
          ∷ []),
    )
    ∷ []
