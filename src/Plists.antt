-- ===== src/Plists.antt =====
-- The property-list library, which the program links against: its nodes and calls, as a parameter.
pub mod Tree
use irestore.Prelude.{ℕ, Bool, true, false, List, Option, none, some}

-- `plist_type`
pub data Kind : Type 0 where
  boolean uint real string array dict date bytes key : Kind

abbrev pub same_kind : Kind → Kind → Bool
same_kind boolean boolean = true
same_kind uint uint = true
same_kind real real = true
same_kind string string = true
same_kind array array = true
same_kind dict dict = true
same_kind date date = true
same_kind bytes bytes = true
same_kind key key = true
same_kind _ _ = false

pub record Plists : Type 1 where
  pub Node : Type 0
  -- `plist_get_node_type`
  pub kind : Node → Kind
  -- `plist_dict_get_item`, and the pairs that `plist_dict_next_item` goes through
  pub get_item : Node → List ℕ → Option Node
  pub entries : Node → List (List ℕ × Node)
  -- `plist_array_get_item` and `plist_array_get_size`, by the list of the items
  pub items : Node → List Node
  -- `plist_get_string_val`, `plist_get_uint_val` and `plist_get_data_val`
  pub string_val : Node → List ℕ
  pub uint_val : Node → ℕ
  pub data_val : Node → List ℕ
  -- `plist_new_dict` with its `plist_dict_insert_item` calls, and the other constructors
  pub new_dict : List (List ℕ × Node) → Node
  pub new_array : List Node → Node
  pub new_string : List ℕ → Node
  pub new_uint : ℕ → Node
  pub new_bool : Bool → Node
  pub new_data : List ℕ → Node
  -- `plist_to_xml` and `plist_from_xml`
  pub to_xml : Node → List ℕ
  pub from_xml : List ℕ → Option Node

module _ (lib : Plists) where
  open lib use {Node, kind, get_item}

  -- `node && plist_get_node_type(node) == wanted`
  unfoldable pub of_kind : Kind → Option Node → Option Node
  of_kind wanted none = none
  of_kind wanted (some node) = elim (same_kind (kind node) wanted) [
    | true ↦ some node
    | false ↦ none
  ]

  -- `plist_dict_get_item` with the check of the result that follows it everywhere
  unfoldable pub typed_item : Node → List ℕ → Kind → Option Node
  unfolding of_kind
  typed_item node name wanted = of_kind wanted (get_item node name)
