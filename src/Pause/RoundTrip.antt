-- ===== src/Pause/RoundTrip.antt =====
-- A pause survives its encoding.
use Prim.Native.String.{◌++◌}
use Prim.Native.Char.{code}
use text.Mathlib.TextLemmas.{nil-append, cons-append}
use fancy_flow_py.Prelude.{
  String, Option, none, some, Bool, true, false, ◌≡◌, refl, ap, arith, eqb, if◌then◌else◌,
}
use fancy_flow_py.Prelude.Dict.{get}
use fancy_flow_py.Value.{
  Value, null, bool, int, float, str, list, tuple, dict, object, get_value, entries,
}
use fancy_flow_py.Text.{strip_prefix}
use fancy_flow_py.Pause.{
  PauseSignal, prefix, payload, encode, read_payload, decode_legacy, decode_reason, decode,
}

strip_prefix-append : (p s : String) → strip_prefix p (p ++ s) ≡ some s
unfolding strip_prefix
strip_prefix-append String.[] s = ap some (nil-append s)
strip_prefix-append (String.◌∷◌ c p) s = rw cons-append (ground (arith, strip_prefix-append p s))

read_payload-of :
    (node_id awaiting : String) (detail : Value)
    → read_payload (payload (record { node_id = node_id; awaiting = awaiting; detail = detail }))
      ≡ some (record { node_id = node_id; awaiting = awaiting; detail = detail })
unfolding read_payload payload get_value entries get
read_payload-of node_id awaiting null = refl
read_payload-of node_id awaiting (bool b) = refl
read_payload-of node_id awaiting (int n) = refl
read_payload-of node_id awaiting (float x) = refl
read_payload-of node_id awaiting (str s) = refl
read_payload-of node_id awaiting (list vs) = refl
read_payload-of node_id awaiting (tuple vs) = refl
read_payload-of node_id awaiting (dict fs) = refl
read_payload-of node_id awaiting (object type i) = refl

-- If the JSON reader reads back the payload that the writer wrote for the signal, decoding an encoded
-- signal gives it back, whatever its node id and detail hold.
pub decode-encode :
    (dumps : Value → String) (loads : String → Option Value) (signal : PauseSignal)
    → loads (dumps (payload signal)) ≡ some (payload signal)
    → decode loads (some (encode dumps signal)) ≡ some signal
unfolding decode decode_reason encode
decode-encode dumps loads signal reads =
    rw (strip_prefix-append prefix (dumps (payload signal)), reads, decode_reason)
      (read_payload-of signal.node_id signal.awaiting signal.detail)

-- The texts differ at some place of both.
unfoldable diverges : String → String → Bool
diverges String.[] q = false
diverges (String.◌∷◌ c p) String.[] = false
diverges (String.◌∷◌ c p) (String.◌∷◌ d q) =
    let rest = diverges p q in if eqb (code c) (code d) then rest else true

strip_prefix-diverges : (p q t : String) → diverges p q ≡ true → strip_prefix p (q ++ t) ≡ none
unfolding strip_prefix diverges
strip_prefix-diverges String.[] q t h = absurd (cc)
strip_prefix-diverges (String.◌∷◌ c p) String.[] t h = absurd (cc)
strip_prefix-diverges (String.◌∷◌ c p) (String.◌∷◌ d q) t h =
    rw cons-append (ground (arith, strip_prefix-diverges p q t))

-- A reason that an older version wrote is decoded to its node, whatever the node id holds.
pub decode-legacy :
    (loads : String → Option Value) (node_id : String)
    → (decode loads (some ("awaiting-approval:" ++ node_id))
        ≡ some (record { node_id = node_id; awaiting = "approval"; detail = null }))
      × (decode loads (some ("awaiting-input:" ++ node_id))
          ≡ some (record { node_id = node_id; awaiting = "input"; detail = null }))
unfolding decode decode_reason decode_legacy diverges
decode-legacy loads node_id = (
  rw (
    strip_prefix-diverges prefix "awaiting-approval:" node_id refl,
    strip_prefix-append "awaiting-approval:" node_id,
    decode_reason,
    decode_legacy,
  ),
  rw (
    strip_prefix-diverges prefix "awaiting-input:" node_id refl,
    strip_prefix-diverges "awaiting-approval:" "awaiting-input:" node_id refl,
    strip_prefix-append "awaiting-input:" node_id,
    decode_reason,
    decode_legacy,
  ),
)
