-- ===== src/Registry/Builtin/Deliveries.antt =====
-- Literals of src/fancy_flow/registry/builtin.py: webhook_out, human_approval, notify. A callable
-- is an opaque object.
use fancy_flow_py.Prelude.{[], ◌∷◌, true, false, pos}
use fancy_flow_py.Prelude.Dict.{Dict}
use fancy_flow_py.Value.{Value, bool, int, str, obj, items}

abbrev pub webhook_out_literal : Dict Value
webhook_out_literal =
    ("name", str "webhook_out")
    ∷ (
      "outputShape",
      items (
          (obj (
            ("path", str "sent")
            ∷ ("type", str "boolean")
            ∷ ("description", str "True once the request was made.")
            ∷ []))
          ∷ (obj (
              ("path", str "status")
              ∷ ("type", str "number")
              ∷ ("description", str "HTTP status, when the transport reported one.")
              ∷ []))
          ∷ (obj (
              ("path", str "response")
              ∷ ("type", str "unknown")
              ∷ ("description", str "The response body, when there was one.")
              ∷ []))
          ∷ []),
    )
    ∷ ("category", str "io")
    ∷ ("label", str "Send Webhook")
    ∷ ("description", str "POST a payload to a configured URL.")
    ∷ ("icon", str "↗")
    ∷ (
      "configSchema",
      items (
          (obj (
            ("type", str "text")
            ∷ ("key", str "url")
            ∷ ("label", str "URL")
            ∷ ("required", bool true)
            ∷ []))
          ∷ (obj (("type", str "json") ∷ ("key", str "headers") ∷ ("label", str "Headers") ∷ []))
          ∷ (obj (
              ("type", str "expression")
              ∷ ("key", str "payload")
              ∷ ("label", str "Payload")
              ∷ ("required", bool true)
              ∷ ("example", str "{{ $json }}")
              ∷ []))
          ∷ []),
    )
    ∷ []

abbrev pub human_approval_literal : Dict Value
human_approval_literal =
    ("name", str "human_approval")
    ∷ ("emits", str "input")
    ∷ ("category", str "human")
    ∷ ("label", str "Human Approval")
    ∷ ("description", str "Pause until a human approves or denies.")
    ∷ ("icon", str "✓")
    ∷ ("pausesForHuman", str "approval")
    ∷ ("inputs", items ((obj (("id", str "in") ∷ [])) ∷ []))
    ∷ (
      "outputs",
      items (
          (obj (("id", str "approved") ∷ ("label", str "approved") ∷ []))
          ∷ (obj (("id", str "denied") ∷ ("label", str "denied") ∷ []))
          ∷ []),
    )
    ∷ (
      "configSchema",
      items (
          (obj (
            ("type", str "text")
            ∷ ("key", str "title")
            ∷ ("label", str "Approval title")
            ∷ ("default", str "Approve action")
            ∷ []))
          ∷ (obj (
              ("type", str "textarea")
              ∷ ("key", str "description")
              ∷ ("label", str "Description for approver")
              ∷ ("rows", int (pos 3))
              ∷ []))
          ∷ (obj (
              ("type", str "credential")
              ∷ ("key", str "channel")
              ∷ ("label", str "Notify channel")
              ∷ ("credentialType", str "notify_channel")
              ∷ []))
          ∷ (obj (
              ("type", str "switch")
              ∷ ("key", str "autoAnswerFromInput")
              ∷ ("label", str "Let an incoming value approve this")
              ∷ ("default", bool false)
              ∷ (
                "description",
                str
                    "Off by default. Turning it on means the graph, not a person, can approve - an upstream value on the approved port decides and the gate never pauses. Weigh this harder than on a form.",
              )
              ∷ []))
          ∷ []),
    )
    ∷ []

abbrev pub notify_literal : Dict Value
notify_literal =
    ("name", str "notify")
    ∷ (
      "outputShape",
      items (
          (obj (
            ("path", str "sent")
            ∷ ("type", str "boolean")
            ∷ ("description", str "True once the message was handed to the channel.")
            ∷ []))
          ∷ (obj (
              ("path", str "channel")
              ∷ ("type", str "string")
              ∷ ("description", str "The channel it went to.")
              ∷ []))
          ∷ (obj (
              ("path", str "to")
              ∷ ("type", str "string")
              ∷ ("description", str "The recipient.")
              ∷ []))
          ∷ (obj (
              ("path", str "message")
              ∷ ("type", str "string")
              ∷ ("description", str "The rendered message.")
              ∷ []))
          ∷ []),
    )
    ∷ ("category", str "human")
    ∷ ("label", str "Notify")
    ∷ ("description", str "Send a message via Slack / email / SMS / etc.")
    ∷ ("icon", str "🔔")
    ∷ (
      "configSchema",
      items (
          (obj (
            ("type", str "select")
            ∷ ("key", str "channel")
            ∷ ("label", str "Channel")
            ∷ ("default", str "slack")
            ∷ (
              "options",
              items (
                  (obj (("value", str "slack") ∷ ("label", str "Slack") ∷ []))
                  ∷ (obj (("value", str "email") ∷ ("label", str "Email") ∷ []))
                  ∷ (obj (("value", str "sms") ∷ ("label", str "SMS") ∷ []))
                  ∷ (obj (("value", str "discord") ∷ ("label", str "Discord") ∷ []))
                  ∷ []),
            )
            ∷ []))
          ∷ (obj (
              ("type", str "text")
              ∷ ("key", str "to")
              ∷ ("label", str "To")
              ∷ ("required", bool true)
              ∷ []))
          ∷ (obj (
              ("type", str "expression")
              ∷ ("key", str "message")
              ∷ ("label", str "Message")
              ∷ ("required", bool true)
              ∷ ("example", str "{{ $json.summary }}")
              ∷ []))
          ∷ []),
    )
    ∷ []
