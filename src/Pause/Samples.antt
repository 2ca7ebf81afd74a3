-- ===== src/Pause/Samples.antt =====
-- A pause whose node id has colons, encoded and decoded.
use Prim.Native.String.{◌++◌}
use fancy_flow_py.Prelude.{String, Option, none, some, ◌≡◌, ◌==◌, refl, if◌then◌else◌}
use fancy_flow_py.Value.{Value, null}
use fancy_flow_py.Pause.{PauseSignal, payload, encode, decode}
use fancy_flow_py.Pause.RoundTrip.{decode-encode, decode-legacy}

abbrev signal : PauseSignal
signal = record { node_id = "a:b"; awaiting = "approval"; detail = null }

-- A writer of one document, and its reader.
abbrev dumps : Value → String
dumps v = "{}"

abbrev loads : String → Option Value
loads s = if s == "{}" then some (payload signal) else none

decode-encode_example : decode loads (some (encode dumps signal)) ≡ some signal
decode-encode_example = decode-encode dumps loads signal refl

decode-legacy_example :
    (decode loads (some ("awaiting-approval:" ++ "a:b"))
      ≡ some (record { node_id = "a:b"; awaiting = "approval"; detail = null }))
    × (decode loads (some ("awaiting-input:" ++ "a:b"))
        ≡ some (record { node_id = "a:b"; awaiting = "input"; detail = null }))
decode-legacy_example = decode-legacy loads "a:b"
