-- ===== src/Store/Xml.antt =====
-- The XML that the documents of src/cpp/coqstore.cpp stand for: nodes, how they are written, and what
-- boost's property_tree is relied on for when it has read them.
use elykseer_cpp.Base.{
  ℕ, ◌<◌, ◌^◌, ◌≡◌, Bool, true, false, not, ◌&&◌, ◌||◌, Option, none, some, List, [], ◌∷◌, ◌++◌,
  ◌==◌, if◌then◌else◌, str_eq, codes, to_string,
}
use elykseer_cpp.Store.{xml_escape}
use elykseer_cpp.Store.Reading.{PropertyTree}

-- An element. One that is spread has a line break behind its start tag and behind each child.
mutual
  pub data Node : Type 0 where
    node : Bool → List ℕ → List (List ℕ × List ℕ) → List ℕ → Nodes → Node

  pub data Nodes : Type 0 where
    nil : Nodes
    cons : Node → Nodes → Nodes

abbrev pub name_of : Node → List ℕ
name_of (node spread name attributes value children) = name

abbrev pub value_of : Node → List ℕ
value_of (node spread name attributes value children) = value

abbrev pub line_break : Bool → List ℕ
line_break true = 10 ∷ []
line_break false = []

-- name="value", each behind a space, with the value escaped.
unfoldable pub print_attributes : List (List ℕ × List ℕ) → List ℕ
print_attributes [] = []
print_attributes ((name, value) ∷ rest) =
    32 ∷ (name ++ 61 ∷ 34 ∷ (xml_escape value ++ 34 ∷ print_attributes rest))

unfoldable mutual
  unfolding print_attributes

  pub print : Node → List ℕ
  print (node spread name attributes value children) =
      60
      ∷ (name
          ++ print_attributes attributes
          ++ 62
            ∷ (line_break spread
                ++ xml_escape value
                ++ print_children spread children
                ++ 60 ∷ 47 ∷ (name ++ 62 ∷ [])))

  pub print_children : Bool → Nodes → List ℕ
  print_children spread nil = []
  print_children spread (cons n ns) = print n ++ line_break spread ++ print_children spread ns

-- The children with their names, by what stands for each.
abbrev pub named : {T : Type 0} → (Node → T) → Nodes → List (List ℕ × T)
named f nil = []
named f (cons n ns) = (name_of n, f n) ∷ named f ns

-- The value of an attribute, and of the first child of a name.
abbrev pub attribute_or : List (List ℕ × List ℕ) → List ℕ → List ℕ → List ℕ
attribute_or [] k d = d
attribute_or ((name, value) ∷ rest) k d = if str_eq name k then value else attribute_or rest k d

abbrev pub child_named : Nodes → List ℕ → Option Node
child_named nil k = none
child_named (cons n ns) k = if str_eq (name_of n) k then some n else child_named ns k

abbrev pub value_or : Nodes → List ℕ → List ℕ → List ℕ
value_or ns k d = elim (child_named ns k) [ none ↦ d | some n ↦ value_of n ]

-- A path of one name: without a dot, and not that of the attributes.
abbrev pub is_name : List ℕ → Bool
is_name [] = true
is_name (c ∷ s) = not (c == 46 || c == 60) && is_name s

-- What is relied on: the tree that stands for a node, and what its operations give.
pub record Represents (pt : PropertyTree) : Type 0 where
  pub tree_of : Node → PropertyTree.Tree pt
  pub document : Node → PropertyTree.Tree pt
  pub entries_document :
      (n : Node) → PropertyTree.entries pt (document n) ≡ (name_of n, tree_of n) ∷ []
  pub entries_children :
      (spread : Bool) (name value : List ℕ) (ns : Nodes)
      → PropertyTree.entries pt (tree_of (node spread name [] value ns)) ≡ named tree_of ns
  pub child :
      (spread : Bool) (name value : List ℕ) (as_ : List (List ℕ × List ℕ)) (ns : Nodes) (k : List ℕ)
      → is_name k ≡ true
      → PropertyTree.get_child pt (tree_of (node spread name as_ value ns)) k
        ≡ (elim (child_named ns k) [ none ↦ none | some n ↦ some (tree_of n) ])
  pub text_attribute :
      (spread : Bool) (name value : List ℕ) (as_ : List (List ℕ × List ℕ)) (ns : Nodes)
      (k d : List ℕ)
      → PropertyTree.get_text pt
          (tree_of (node spread name as_ value ns))
          (codes "<xmlattr>." ++ k)
          d
        ≡ attribute_or as_ k d
  pub text_child :
      (spread : Bool) (name value : List ℕ) (as_ : List (List ℕ × List ℕ)) (ns : Nodes)
      (k d : List ℕ)
      → is_name k ≡ true
      → PropertyTree.get_text pt (tree_of (node spread name as_ value ns)) k d ≡ value_or ns k d
  pub number_attribute :
      (bits n d : ℕ) (spread : Bool) (name value : List ℕ) (as_ : List (List ℕ × List ℕ))
      (ns : Nodes) (k : List ℕ)
      → n < 2 ^ bits
      → attribute_or as_ k [] ≡ to_string n
      → PropertyTree.get_number pt bits
          (tree_of (node spread name as_ value ns))
          (codes "<xmlattr>." ++ k)
          d
        ≡ n
  pub number_child :
      (bits n d : ℕ) (spread : Bool) (name value : List ℕ) (as_ : List (List ℕ × List ℕ))
      (ns : Nodes) (k : List ℕ)
      → is_name k ≡ true
      → n < 2 ^ bits
      → value_or ns k [] ≡ to_string n
      → PropertyTree.get_number pt bits (tree_of (node spread name as_ value ns)) k d ≡ n
