-- ===== src/Registry/Builtin/Mappings.antt =====
-- Literals of src/fancy_flow/registry/builtin.py: transform, variable. A callable is an opaque
-- object.
use fancy_flow_py.Prelude.{[], ◌∷◌, true}
use fancy_flow_py.Prelude.Dict.{Dict}
use fancy_flow_py.Value.{Value, bool, str, object, obj, items}

abbrev pub transform_literal : Dict Value
transform_literal =
    ("name", str "transform")
    ∷ ("emits", object "function" 847)
    ∷ ("category", str "logic")
    ∷ ("label", str "Transform")
    ∷ ("description", str "Reshape data with an expression.")
    ∷ ("icon", str "ƒ")
    ∷ (
      "configSchema",
      items (
          (obj (
            ("type", str "select")
            ∷ ("key", str "mode")
            ∷ ("label", str "Build the output")
            ∷ ("default", str "fields")
            ∷ (
              "options",
              items (
                  (obj (("value", str "fields") ∷ ("label", str "Field by field") ∷ []))
                  ∷ (obj (("value", str "expression") ∷ ("label", str "One expression") ∷ []))
                  ∷ []),
            )
            ∷ []))
          ∷ (obj (
              ("type", str "repeater")
              ∷ ("key", str "fields")
              ∷ ("label", str "Output fields")
              ∷ ("description", str "Each row becomes a key on the result.")
              ∷ ("titleKey", str "key")
              ∷ ("addLabel", str "Add field")
              ∷ ("skipBlankRows", bool true)
              ∷ (
                "fields",
                items (
                    (obj (
                      ("type", str "text")
                      ∷ ("key", str "key")
                      ∷ ("label", str "Key")
                      ∷ ("required", bool true)
                      ∷ ("placeholder", str "name")
                      ∷ []))
                    ∷ (obj (
                        ("type", str "expression")
                        ∷ ("key", str "value")
                        ∷ ("label", str "Value")
                        ∷ ("example", str "{{ $json.first }}")
                        ∷ ("required", bool true)
                        ∷ []))
                    ∷ []),
              )
              ∷ ("default", items ((obj (("key", str "") ∷ ("value", str "") ∷ [])) ∷ []))
              ∷ []))
          ∷ (obj (
              ("type", str "expression")
              ∷ ("key", str "expression")
              ∷ ("label", str "Expression (advanced)")
              ∷ ("example", str "{{ { id: $json.id, name: $json.first + ' ' + $json.last } }}")
              ∷ ("description", str "Used when the mode above is set to one expression.")
              ∷ []))
          ∷ []),
    )
    ∷ []

abbrev pub variable_literal : Dict Value
variable_literal =
    ("name", str "variable")
    ∷ ("emits", str "expression:value")
    ∷ ("category", str "data")
    ∷ ("label", str "Variable")
    ∷ ("description", str "Workflow-scoped value used by other nodes.")
    ∷ ("icon", str "𝓍")
    ∷ (
      "configSchema",
      items (
          (obj (
            ("type", str "text")
            ∷ ("key", str "name")
            ∷ ("label", str "Name")
            ∷ ("required", bool true)
            ∷ []))
          ∷ (obj (
              ("type", str "expression")
              ∷ ("key", str "value")
              ∷ ("label", str "Value")
              ∷ ("required", bool true)
              ∷ []))
          ∷ []),
    )
    ∷ []
