-- ===== src/Registry/Builtin/Terminals.antt =====
-- Literals of src/fancy_flow/registry/builtin.py: terminal_send, terminal_await. A callable is an
-- opaque object.
use fancy_flow_py.Prelude.{[], ◌∷◌, true, false, pos}
use fancy_flow_py.Prelude.Dict.{Dict}
use fancy_flow_py.Value.{Value, bool, int, str, obj, items}

abbrev pub terminal_send_literal : Dict Value
terminal_send_literal =
    ("name", str "terminal_send")
    ∷ ("category", str "io")
    ∷ ("label", str "Send to terminal")
    ∷ (
      "description",
      str "Type text at whatever is running in the lane's terminal, without waiting.",
    )
    ∷ ("icon", str "⌨")
    ∷ ("inputs", items ((obj (("id", str "in") ∷ [])) ∷ []))
    ∷ ("outputs", items ((obj (("id", str "out") ∷ ("label", str "sent") ∷ [])) ∷ []))
    ∷ (
      "configSchema",
      items (
          (obj (
            ("type", str "textarea")
            ∷ ("key", str "text")
            ∷ ("label", str "Text")
            ∷ ("rows", int (pos 4))
            ∷ ("placeholder", str "Summarise the failing test and propose a fix.")
            ∷ (
              "description",
              str
                  "What to type. This is how a graph prompts an agent TUI such as Claude Code or Codex.",
            )
            ∷ []))
          ∷ (obj (
              ("type", str "switch")
              ∷ ("key", str "submit")
              ∷ ("label", str "Press Enter")
              ∷ ("default", bool true)
              ∷ (
                "description",
                str
                    "Off leaves the text on the input line -- useful for building one up across several nodes.",
              )
              ∷ []))
          ∷ (obj (
              ("type", str "switch")
              ∷ ("key", str "clearFirst")
              ∷ ("label", str "Forget earlier output first")
              ∷ ("default", bool false)
              ∷ (
                "description",
                str
                    "Discards anything the terminal said before this send, so a following Await cannot match a leftover prompt.",
              )
              ∷ []))
          ∷ []),
    )
    ∷ []

abbrev pub terminal_await_literal : Dict Value
terminal_await_literal =
    ("name", str "terminal_await")
    ∷ ("category", str "io")
    ∷ ("label", str "Await terminal output")
    ∷ ("description", str "Wait until the lane's terminal prints something that matches.")
    ∷ ("icon", str "⏱")
    ∷ ("inputs", items ((obj (("id", str "in") ∷ [])) ∷ []))
    ∷ ("outputs", items ((obj (("id", str "out") ∷ ("label", str "output") ∷ [])) ∷ []))
    ∷ (
      "configSchema",
      items (
          (obj (
            ("type", str "text")
            ∷ ("key", str "pattern")
            ∷ ("label", str "Wait for")
            ∷ ("required", bool true)
            ∷ ("placeholder", str "esc to interrupt")
            ∷ (
              "description",
              str
                  "Matched against the output with colour codes already stripped, so match what you SEE.",
            )
            ∷ []))
          ∷ (obj (
              ("type", str "select")
              ∷ ("key", str "mode")
              ∷ ("label", str "Match as")
              ∷ ("default", str "text")
              ∷ (
                "options",
                items (
                    (obj (("value", str "text") ∷ ("label", str "Plain text") ∷ []))
                    ∷ (obj (("value", str "regex") ∷ ("label", str "Regular expression") ∷ []))
                    ∷ []),
              )
              ∷ (
                "description",
                str
                    "Regex mode also returns capture groups, which is how a value gets out of a prompt.",
              )
              ∷ []))
          ∷ (obj (
              ("type", str "number")
              ∷ ("key", str "timeoutMs")
              ∷ ("label", str "Timeout (ms)")
              ∷ ("default", int (pos 120000))
              ∷ []))
          ∷ (obj (
              ("type", str "select")
              ∷ ("key", str "onTimeout")
              ∷ ("label", str "If it never appears")
              ∷ ("default", str "fail")
              ∷ (
                "options",
                items (
                    (obj (("value", str "fail") ∷ ("label", str "Fail the run") ∷ []))
                    ∷ (obj (
                        ("value", str "continue")
                        ∷ ("label", str "Continue with matched: false")
                        ∷ []))
                    ∷ []),
              )
              ∷ (
                "description",
                str
                    "Failing is the default. Continuing lets the next node type at a process that never became ready while the run still reports success, so it has to be asked for.",
              )
              ∷ []))
          ∷ []),
    )
    ∷ []
