-- ===== src/Registry/Builtin/Branches.antt =====
-- Literals of src/fancy_flow/registry/builtin.py: branch, switch_case, for_each. A callable is an
-- opaque object.
use fancy_flow_py.Prelude.{[], ◌∷◌, true, pos}
use fancy_flow_py.Prelude.Dict.{Dict}
use fancy_flow_py.Value.{Value, bool, int, str, obj, items}

abbrev pub branch_literal : Dict Value
branch_literal =
    ("name", str "branch")
    ∷ ("emits", str "input")
    ∷ ("category", str "logic")
    ∷ ("label", str "Branch")
    ∷ ("description", str "Multi-way branch on a condition or value.")
    ∷ ("icon", str "◇")
    ∷ ("inputs", items ((obj (("id", str "in") ∷ [])) ∷ []))
    ∷ (
      "outputs",
      items (
          (obj (("id", str "true") ∷ ("label", str "true") ∷ []))
          ∷ (obj (("id", str "false") ∷ ("label", str "false") ∷ []))
          ∷ []),
    )
    ∷ (
      "configSchema",
      items (
          (obj (
            ("type", str "expression")
            ∷ ("key", str "condition")
            ∷ ("label", str "Condition")
            ∷ (
              "description",
              str
                  "String values must be {{ }}-wrapped expressions; bare strings and unclosed templates abort the run.",
            )
            ∷ ("example", str "{{ $json.active }}")
            ∷ ("required", bool true)
            ∷ []))
          ∷ []),
    )
    ∷ []

abbrev pub switch_case_literal : Dict Value
switch_case_literal =
    ("name", str "switch_case")
    ∷ ("emits", str "input")
    ∷ ("category", str "logic")
    ∷ ("label", str "Switch")
    ∷ ("description", str "Route to one of N labelled outputs based on a key.")
    ∷ ("icon", str "⤳")
    ∷ ("inputs", items ((obj (("id", str "in") ∷ [])) ∷ []))
    ∷ (
      "outputs",
      items (
          (obj (("id", str "case_a") ∷ ("label", str "a") ∷ []))
          ∷ (obj (("id", str "case_b") ∷ ("label", str "b") ∷ []))
          ∷ (obj (("id", str "default") ∷ ("label", str "default") ∷ []))
          ∷ []),
    )
    ∷ (
      "configSchema",
      items (
          (obj (
            ("type", str "expression")
            ∷ ("key", str "value")
            ∷ ("label", str "Switch on")
            ∷ (
              "description",
              str
                  "String values must be {{ }}-wrapped expressions; bare strings and unclosed templates abort the run.",
            )
            ∷ ("example", str "{{ $json.kind }}")
            ∷ ("required", bool true)
            ∷ []))
          ∷ (obj (
              ("type", str "json")
              ∷ ("key", str "cases")
              ∷ ("label", str "Cases (JSON)")
              ∷ ("default", obj (("a", str "case_a") ∷ ("b", str "case_b") ∷ []))
              ∷ []))
          ∷ []),
    )
    ∷ []

abbrev pub for_each_literal : Dict Value
for_each_literal =
    ("name", str "for_each")
    ∷ (
      "outputShape",
      items (
          (obj (
            ("path", str "items")
            ∷ ("type", str "array")
            ∷ ("description", str "The list that was iterated.")
            ∷ []))
          ∷ (obj (
              ("path", str "results")
              ∷ ("type", str "array")
              ∷ (
                "description",
                str "Each item's lane outputs, index-aligned; None where it failed.",
              )
              ∷ []))
          ∷ (obj (
              ("path", str "failures")
              ∷ ("type", str "array")
              ∷ ("description", str "{index, item, error} for each item whose lane failed.")
              ∷ []))
          ∷ (obj (
              ("path", str "count")
              ∷ ("type", str "number")
              ∷ ("description", str "How many items it held.")
              ∷ []))
          ∷ []),
    )
    ∷ ("category", str "logic")
    ∷ ("label", str "For Each")
    ∷ (
      "description",
      str
          "Wire `item` to a lane and it runs once per item, aggregating `results` and `failures` on `done`. Leave `item` unwired (or set `mode: collect`) and it just publishes the list and its size -- one node, one checkpoint.",
    )
    ∷ ("icon", str "↻")
    ∷ ("inputs", items ((obj (("id", str "in") ∷ [])) ∷ []))
    ∷ (
      "outputs",
      items (
          (obj (("id", str "item") ∷ ("label", str "item") ∷ []))
          ∷ (obj (("id", str "done") ∷ ("label", str "done") ∷ []))
          ∷ []),
    )
    ∷ (
      "configSchema",
      items (
          (obj (
            ("type", str "expression")
            ∷ ("key", str "source")
            ∷ ("label", str "List")
            ∷ ("example", str "{{ $json.users }}")
            ∷ ("required", bool true)
            ∷ []))
          ∷ (obj (
              ("type", str "number")
              ∷ ("key", str "concurrency")
              ∷ ("label", str "Concurrency")
              ∷ ("default", int (pos 1))
              ∷ ("min", int (pos 1))
              ∷ ("max", int (pos 50))
              ∷ []))
          ∷ []),
    )
    ∷ []
