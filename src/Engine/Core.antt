-- ===== src/Engine/Core.antt =====
-- What a turn of the walk changes but for the event stream: outputs, port values, the completed
-- nodes and the errors.
use fancy_flow_py.Prelude.{
  String, List, [], ◌∷◌, ◌++◌, Option, some, Bool, true, ◌≡◌, refl, ap, arith, contains,
  if◌then◌else◌,
}
use fancy_flow_py.Prelude.Dict.{Dict, put, get-put, has}
use fancy_flow_py.Value.{Value}
use fancy_flow_py.Graph.{FlowNode}
use fancy_flow_py.Registry.Catalogue.{NodeKindRegistry}
use fancy_flow_py.Engine.Routing.{
  Activation, activated_ports, carried, port_key, Progress, publish_ports, publish,
}
use fancy_flow_py.Engine.Walk.{announce}

pub record Core : Type 0 where
  pub outputs : Dict Value
  pub port_values : Dict Value
  pub completed : List String
  pub errors : List String

abbrev pub core : Progress → Core
core s = record {
  outputs = s.outputs;
  port_values = s.port_values;
  completed = s.completed;
  errors = s.errors;
}

-- The port values with those that a result lights.
unfoldable pub lit : String → Activation → List String → Dict Value → Dict Value
unfolding carried port_key put
lit node_id a [] d = d
lit node_id a (p ∷ ps) d = lit node_id a ps (put d (port_key node_id (some p)) (carried a p))

-- What publishing a result does.
unfoldable pub published : NodeKindRegistry → FlowNode → Value → Core → Core
unfolding lit activated_ports put
published kinds node v c =
    let a = activated_ports kinds node v in
    record {
      outputs = put c.outputs node.id v;
      port_values = lit node.id a a.ports c.port_values;
      completed = if contains c.completed node.id then c.completed else c.completed ++ node.id ∷ [];
      errors = c.errors;
    }

core-publish_ports :
    (node_id : String) (a : Activation) (ps : List String) (s : Progress)
    → core (publish_ports node_id a ps s)
      ≡ record (core s) { port_values = lit node_id a ps s.port_values }
unfolding publish_ports lit
core-publish_ports node_id a [] s = refl
core-publish_ports node_id a (p ∷ ps) s = core-publish_ports node_id a ps _

pub core-publish :
    (kinds : NodeKindRegistry) (node : FlowNode) (v : Value) (resumed : Bool) (s : Progress)
    → core (publish kinds node v resumed s) ≡ published kinds node v (core s)
unfolding publish published
core-publish kinds node v resumed s =
    ap
      (λ (c : Core). record c {
        completed =
            if contains c.completed node.id then c.completed else c.completed ++ node.id ∷ [];
      })
      (core-publish_ports node.id (activated_ports kinds node v)
        (activated_ports kinds node v).ports (record s { outputs = put s.outputs node.id v }))

pub core-announce :
    (node : FlowNode) (phase : String) (raw : Option String) (s : Progress)
    → core (announce node phase raw s) ≡ core s
unfolding announce
core-announce node phase raw s = ground arith

-- Ports that were lit stay lit.
pub lit_grows :
    (node_id : String) (a : Activation) (ps : List String) (d : Dict Value) (k : String)
    → has d k ≡ true
    → has (lit node_id a ps d) k ≡ true
unfolding lit
lit_grows node_id a [] d k h = h
lit_grows node_id a (p ∷ ps) d k h =
    lit_grows node_id a ps _ k
      (ground (arith, get-put d (port_key node_id (some p)) k (carried a p)))
