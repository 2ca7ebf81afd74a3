-- ===== src/Registry/Builtin/Searches.antt =====
-- Literals of src/fancy_flow/registry/builtin.py: embed_search, api_request. A callable is an
-- opaque object.
use fancy_flow_py.Prelude.{[], ◌∷◌, true, pos}
use fancy_flow_py.Prelude.Dict.{Dict}
use fancy_flow_py.Value.{Value, bool, int, str, obj, items}

abbrev pub http_method : Dict Value
http_method =
    ("type", str "select")
    ∷ ("key", str "method")
    ∷ ("label", str "Method")
    ∷ ("default", str "GET")
    ∷ ("required", bool true)
    ∷ (
      "options",
      items (
          (obj (("value", str "GET") ∷ ("label", str "GET") ∷ []))
          ∷ (obj (("value", str "POST") ∷ ("label", str "POST") ∷ []))
          ∷ (obj (("value", str "PUT") ∷ ("label", str "PUT") ∷ []))
          ∷ (obj (("value", str "PATCH") ∷ ("label", str "PATCH") ∷ []))
          ∷ (obj (("value", str "DELETE") ∷ ("label", str "DELETE") ∷ []))
          ∷ []),
    )
    ∷ []

abbrev pub embed_search_literal : Dict Value
embed_search_literal =
    ("name", str "embed_search")
    ∷ (
      "outputShape",
      items (
          (obj (
            ("path", str "query")
            ∷ ("type", str "string")
            ∷ ("description", str "The query that was embedded.")
            ∷ []))
          ∷ (obj (
              ("path", str "matches")
              ∷ ("type", str "array")
              ∷ ("description", str "Vector-store hits for the query.")
              ∷ []))
          ∷ []),
    )
    ∷ ("category", str "ai")
    ∷ ("label", str "Embed & Search")
    ∷ ("description", str "Embed a query and search a vector store.")
    ∷ ("icon", str "✺")
    ∷ (
      "configSchema",
      items (
          (obj (
            ("type", str "expression")
            ∷ ("key", str "query")
            ∷ ("label", str "Query")
            ∷ ("required", bool true)
            ∷ ("example", str "{{ $json.question }}")
            ∷ []))
          ∷ (obj (
              ("type", str "number")
              ∷ ("key", str "topK")
              ∷ ("label", str "Top K")
              ∷ ("default", int (pos 5))
              ∷ ("min", int (pos 1))
              ∷ ("max", int (pos 50))
              ∷ []))
          ∷ (obj (
              ("type", str "credential")
              ∷ ("key", str "vectorStore")
              ∷ ("label", str "Vector store")
              ∷ ("credentialType", str "vector_store")
              ∷ []))
          ∷ []),
    )
    ∷ []

abbrev pub api_request_literal : Dict Value
api_request_literal =
    ("name", str "api_request")
    ∷ (
      "outputShape",
      items (
          (obj (
            ("path", str "status")
            ∷ ("type", str "number")
            ∷ ("description", str "HTTP status code.")
            ∷ []))
          ∷ (obj (
              ("path", str "headers")
              ∷ ("type", str "object")
              ∷ ("description", str "Response headers.")
              ∷ []))
          ∷ (obj (
              ("path", str "body")
              ∷ ("type", str "unknown")
              ∷ ("description", str "Parsed response body.")
              ∷ []))
          ∷ []),
    )
    ∷ ("category", str "io")
    ∷ ("label", str "API Request")
    ∷ ("description", str "HTTP request to any URL.")
    ∷ ("icon", str "↔")
    ∷ (
      "configSchema",
      items (
          (obj http_method)
          ∷ (obj (
              ("type", str "text")
              ∷ ("key", str "url")
              ∷ ("label", str "URL")
              ∷ ("placeholder", str "https://api.example.com/...")
              ∷ ("required", bool true)
              ∷ []))
          ∷ (obj (
              ("type", str "json")
              ∷ ("key", str "headers")
              ∷ ("label", str "Headers")
              ∷ ("default", obj (("content-type", str "application/json") ∷ []))
              ∷ []))
          ∷ (obj (("type", str "json") ∷ ("key", str "body") ∷ ("label", str "Body") ∷ []))
          ∷ (obj (
              ("type", str "credential")
              ∷ ("key", str "auth")
              ∷ ("label", str "Auth")
              ∷ ("credentialType", str "api_credential")
              ∷ []))
          ∷ []),
    )
    ∷ []
