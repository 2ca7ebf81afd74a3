-- ===== src/Registry/Builtin/Lanes.antt =====
-- Literals of src/fancy_flow/registry/builtin.py: lane, terminal_lane, terminal_run. A callable
-- is an opaque object.
use fancy_flow_py.Prelude.{[], ◌∷◌, true, pos}
use fancy_flow_py.Prelude.Dict.{Dict}
use fancy_flow_py.Value.{Value, bool, int, str, obj, items}

abbrev pub lane_literal : Dict Value
lane_literal =
    ("name", str "lane")
    ∷ ("category", str "layout")
    ∷ ("label", str "Lane")
    ∷ ("description", str "A swimlane that groups nodes. Never runs.")
    ∷ ("icon", str "▤")
    ∷ ("inputs", items [])
    ∷ ("outputs", items [])
    ∷ (
      "configSchema",
      items (
          (obj (
            ("type", str "text")
            ∷ ("key", str "title")
            ∷ ("label", str "Title")
            ∷ ("default", str "Lane")
            ∷ []))
          ∷ (obj (
              ("type", str "select")
              ∷ ("key", str "orientation")
              ∷ ("label", str "Orientation")
              ∷ ("default", str "horizontal")
              ∷ (
                "options",
                items (
                    (obj (("value", str "horizontal") ∷ ("label", str "Row") ∷ []))
                    ∷ (obj (("value", str "vertical") ∷ ("label", str "Column") ∷ []))
                    ∷ []),
              )
              ∷ []))
          ∷ []),
    )
    ∷ []

abbrev pub terminal_lane_literal : Dict Value
terminal_lane_literal =
    ("name", str "terminal_lane")
    ∷ ("category", str "layout")
    ∷ ("label", str "Terminal lane")
    ∷ (
      "description",
      str
          "A lane that owns one terminal. Opens at the first terminal node, closes when the run ends.",
    )
    ∷ ("icon", str "▣")
    ∷ ("inputs", items [])
    ∷ ("outputs", items [])
    ∷ (
      "configSchema",
      items (
          (obj (
            ("type", str "text")
            ∷ ("key", str "title")
            ∷ ("label", str "Title")
            ∷ ("default", str "Terminal")
            ∷ []))
          ∷ (obj (
              ("type", str "text")
              ∷ ("key", str "command")
              ∷ ("label", str "Command")
              ∷ ("placeholder", str "Leave empty for the default shell")
              ∷ []))
          ∷ (obj (
              ("type", str "text")
              ∷ ("key", str "cwd")
              ∷ ("label", str "Working directory")
              ∷ ("placeholder", str "Host default")
              ∷ []))
          ∷ (obj
              (("type", str "keyvalue") ∷ ("key", str "env") ∷ ("label", str "Environment") ∷ []))
          ∷ []),
    )
    ∷ []

abbrev pub terminal_run_literal : Dict Value
terminal_run_literal =
    ("name", str "terminal_run")
    ∷ ("category", str "io")
    ∷ ("label", str "Run in terminal")
    ∷ ("description", str "Run a shell command in the lane's terminal and wait for its exit code.")
    ∷ ("icon", str "$")
    ∷ ("inputs", items ((obj (("id", str "in") ∷ [])) ∷ []))
    ∷ ("outputs", items ((obj (("id", str "out") ∷ ("label", str "output") ∷ [])) ∷ []))
    ∷ (
      "configSchema",
      items (
          (obj (
            ("type", str "textarea")
            ∷ ("key", str "command")
            ∷ ("label", str "Command")
            ∷ ("rows", int (pos 3))
            ∷ ("required", bool true)
            ∷ ("placeholder", str "pytest -q")
            ∷ (
              "description",
              str
                  "Runs in the lane's shell, so cd and exported variables persist between nodes. SHELL ONLY -- a TUI never returns to a prompt, so use Send + Await for one.",
            )
            ∷ []))
          ∷ (obj (
              ("type", str "number")
              ∷ ("key", str "timeoutMs")
              ∷ ("label", str "Timeout (ms)")
              ∷ ("default", int (pos 120000))
              ∷ []))
          ∷ (obj (
              ("type", str "switch")
              ∷ ("key", str "failOnNonZero")
              ∷ ("label", str "Fail the run on a non-zero exit")
              ∷ ("default", bool true)
              ∷ (
                "description",
                str
                    "On by default. Turning it off means a failed command lets the run report success -- read the exit code on the output port and branch on it instead.",
              )
              ∷ []))
          ∷ []),
    )
    ∷ []
