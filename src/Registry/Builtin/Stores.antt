-- ===== src/Registry/Builtin/Stores.antt =====
-- Literals of src/fancy_flow/registry/builtin.py: memory_store, data_store. A callable is an
-- opaque object.
use fancy_flow_py.Prelude.{[], ◌∷◌, true}
use fancy_flow_py.Prelude.Dict.{Dict}
use fancy_flow_py.Value.{Value, bool, str, obj, items}

abbrev pub memory_store_literal : Dict Value
memory_store_literal =
    ("name", str "memory_store")
    ∷ ("category", str "data")
    ∷ ("label", str "Memory Store")
    ∷ ("description", str "Read or write per-conversation memory.")
    ∷ ("icon", str "🧠")
    ∷ (
      "configSchema",
      items (
          (obj (
            ("type", str "select")
            ∷ ("key", str "operation")
            ∷ ("label", str "Operation")
            ∷ ("required", bool true)
            ∷ ("default", str "read")
            ∷ (
              "options",
              items (
                  (obj (("value", str "read") ∷ ("label", str "Read") ∷ []))
                  ∷ (obj (("value", str "write") ∷ ("label", str "Write") ∷ []))
                  ∷ (obj (("value", str "append") ∷ ("label", str "Append") ∷ []))
                  ∷ []),
            )
            ∷ []))
          ∷ (obj (
              ("type", str "text")
              ∷ ("key", str "key")
              ∷ ("label", str "Key")
              ∷ ("placeholder", str "user.preferences")
              ∷ ("required", bool true)
              ∷ []))
          ∷ (obj (
              ("type", str "expression")
              ∷ ("key", str "value")
              ∷ ("label", str "Value (write/append only)")
              ∷ ("example", str "{{ $json }}")
              ∷ []))
          ∷ (obj (
              ("type", str "credential")
              ∷ ("key", str "store")
              ∷ ("label", str "Memory store")
              ∷ ("credentialType", str "memory_store")
              ∷ []))
          ∷ []),
    )
    ∷ []

abbrev pub data_store_literal : Dict Value
data_store_literal =
    ("name", str "data_store")
    ∷ ("category", str "data")
    ∷ ("label", str "Data Store")
    ∷ ("description", str "Key-value or table read/write against a host store.")
    ∷ ("icon", str "🗃")
    ∷ (
      "configSchema",
      items (
          (obj (
            ("type", str "select")
            ∷ ("key", str "operation")
            ∷ ("label", str "Operation")
            ∷ ("required", bool true)
            ∷ ("default", str "get")
            ∷ (
              "options",
              items (
                  (obj (("value", str "get") ∷ ("label", str "Get") ∷ []))
                  ∷ (obj (("value", str "set") ∷ ("label", str "Set") ∷ []))
                  ∷ (obj (("value", str "delete") ∷ ("label", str "Delete") ∷ []))
                  ∷ (obj (("value", str "query") ∷ ("label", str "Query") ∷ []))
                  ∷ (obj (("value", str "list") ∷ ("label", str "List") ∷ []))
                  ∷ []),
            )
            ∷ []))
          ∷ (obj (
              ("type", str "text")
              ∷ ("key", str "table")
              ∷ ("label", str "Table / collection")
              ∷ ("required", bool true)
              ∷ []))
          ∷ (obj (("type", str "text") ∷ ("key", str "key") ∷ ("label", str "Key") ∷ []))
          ∷ (obj (
              ("type", str "json")
              ∷ ("key", str "where")
              ∷ ("label", str "Where (JSON)")
              ∷ ("description", str "For query/list operations.")
              ∷ []))
          ∷ (obj (
              ("type", str "expression")
              ∷ ("key", str "value")
              ∷ ("label", str "Value (set only)")
              ∷ ("example", str "{{ $json }}")
              ∷ []))
          ∷ (obj (
              ("type", str "credential")
              ∷ ("key", str "store")
              ∷ ("label", str "Data store")
              ∷ ("credentialType", str "data_store")
              ∷ []))
          ∷ []),
    )
    ∷ []
