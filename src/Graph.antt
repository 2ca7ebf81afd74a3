-- ===== src/Graph.antt =====
-- src/fancy_flow/schema/graph.py: the frozen dataclasses of a workflow graph.
use fancy_flow_py.Prelude.{
  String, List, [], ◌∷◌, Option, none, some, ◌==◌, map, if◌then◌else◌, Bool, true, ◌&&◌, distinct,
  contains, ◌≡◌,
}
use fancy_flow_py.Prelude.Dict.{Dict, get}
use fancy_flow_py.Value.{Value, null, Float}

pub record PortDescriptor : Type 0 where
  pub id : String
  pub label : Option String
  pub type : Option String

-- `inputs` and `outputs`: `none` is "no ports declared", `some []` is "explicitly no ports".
pub record FlowNode : Type 0 where
  pub id : String
  pub type : Option String
  pub x : Float
  pub y : Float
  pub label : Option String
  pub description : Option String
  pub starting_msg : Option String
  pub stopping_msg : Option String
  pub config : Dict Value
  pub inputs : Option (List PortDescriptor)
  pub outputs : Option (List PortDescriptor)
  pub parent_id : Option String
  pub extent : Value
  pub width : Option Float
  pub height : Option Float
  pub style : Option (Dict Value)

pub record FlowEdge : Type 0 where
  pub id : String
  pub source : String
  pub target : String
  pub source_handle : Option String
  pub target_handle : Option String
  pub label : Option String

pub record FlowGraph : Type 0 where
  pub nodes : List FlowNode
  pub edges : List FlowEdge
  pub inputs : List (Dict Value)

-- FlowGraph.node
unfoldable pub find_node : List FlowNode → String → Option FlowNode
find_node [] node_id = none
find_node (n ∷ ns) node_id = if n.id == node_id then some n else find_node ns node_id

-- FlowNode.option: a value of None reads as absent.
unfoldable pub option : FlowNode → String → Value → Value
option node key default = elim (get node.config key) [
  | none ↦ default
  | some null ↦ default
  | some v ↦ v
]

abbrev pub ids : List FlowNode → List String
ids ns = map (λ n. n.id) ns

-- The edge joins two of the nodes.
abbrev pub joins : List FlowNode → FlowEdge → Bool
joins ns e = contains (ids ns) e.source && contains (ids ns) e.target

abbrev pub all_join : List FlowNode → List FlowEdge → Bool
all_join ns [] = true
all_join ns (e ∷ es) = joins ns e && all_join ns es

-- What an imported graph has: distinct node ids, and edges that join two of its nodes.
pub record IsWellFormed (g : FlowGraph) : Type 0 where
  pub distinct_ids : distinct (ids g.nodes) ≡ true
  pub edges_join : all_join g.nodes g.edges ≡ true
