-- ===== src/Syntax.antt =====
-- What closure.py and lint.py see of Python's `ast`, and `ast.walk`. A node keeps the fields that
-- the two modules read and its children in the order of `ast.iter_child_nodes`; nodes that they
-- never look at (contexts, operators, aliases as nodes) are left out.
pub mod Walk
use continuo_python_runtime.Base.{
  ℕ, zero, suc, String, Option, List, [], ◌∷◌, ◌++◌, Exception, length,
}

-- `name as asname`
pub record Alias : Type 0 where
  pub name : String
  pub asname : Option String

mutual
  -- `text` is a `Constant` that holds a string, with its identity and its line; `joined` is an
  -- f-string; `add` is a `BinOp` with `Add`; `body` is a module, a class or a function, with what
  -- stands before its body, the body, and what stands after; `other` is any other node.
  pub data Syntax : Type 0 where
    import_names : ℕ → List Alias → Syntax
    import_from : ℕ → Option String → List Alias → ℕ → Syntax
    name : ℕ → String → Syntax
    attribute : ℕ → Syntax → String → Syntax
    text : ℕ → ℕ → String → Syntax
    joined : ℕ → Syntaxes → Syntax
    add : ℕ → Syntax → Syntax → Syntax
    call : ℕ → Syntax → Syntaxes → Syntax
    expression : Syntax → Syntax
    body : Syntaxes → Syntaxes → Syntaxes → Syntax
    other : Syntaxes → Syntax

  pub data Syntaxes : Type 0 where
    nil : Syntaxes
    cons : Syntax → Syntaxes → Syntaxes

abbrev pub listed : Syntaxes → List Syntax
listed nil = []
listed (cons t ts) = t ∷ listed ts

-- `ast.iter_child_nodes`
abbrev pub children : Syntax → List Syntax
children (import_names line names) = []
children (import_from line module_name names level) = []
children (name line id) = []
children (attribute line value attr) = value ∷ []
children (text id line s) = []
children (joined line values) = listed values
children (add line left right) = left ∷ right ∷ []
children (call line func arguments) = func ∷ listed arguments
children (expression value) = value ∷ []
children (body before statements after) = listed before ++ (listed statements ++ listed after)
children (other parts) = listed parts

-- Every node of a tree, a parent before its children: what `walk` is measured against.
unfoldable mutual
  pub nodes : Syntax → List Syntax
  nodes (import_names line names) = import_names line names ∷ []
  nodes (import_from line module_name names level) = import_from line module_name names level ∷ []
  nodes (name line id) = name line id ∷ []
  nodes (attribute line value attr) = attribute line value attr ∷ nodes value
  nodes (text id line s) = text id line s ∷ []
  nodes (joined line values) = joined line values ∷ nodes_of values
  nodes (add line left right) = add line left right ∷ (nodes left ++ nodes right)
  nodes (call line func arguments) = call line func arguments ∷ (nodes func ++ nodes_of arguments)
  nodes (expression value) = expression value ∷ nodes value
  nodes (body before statements after) =
      body before statements after ∷ (nodes_of before ++ (nodes_of statements ++ nodes_of after))
  nodes (other parts) = other parts ∷ nodes_of parts

  pub nodes_of : Syntaxes → List Syntax
  nodes_of nil = []
  nodes_of (cons t ts) = nodes t ++ nodes_of ts

-- The loop of `ast.walk`: the queue gives a node and takes its children. The fuel is the nodes left.
unfoldable pub walk_queue : ℕ → List Syntax → List Syntax
walk_queue zero queue = []
walk_queue (suc left) [] = []
walk_queue (suc left) (t ∷ queue) = t ∷ walk_queue left (queue ++ children t)

-- `ast.walk`
unfoldable pub walk : Syntax → List Syntax
unfolding walk_queue nodes
walk t = walk_queue (length (nodes t)) (t ∷ [])

-- What `ast.parse` makes of a source.
pub data Parsed : Type 0 where
  parsed : Syntax → Parsed
  syntax_error : ℕ → Parsed
  parser_raised : Exception → Parsed
