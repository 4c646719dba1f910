-- ===== src/Plists/Tree.antt =====
-- A library of property lists for the runs: trees, with no XML.
use irestore.Prelude.{ℕ, Bool, List, [], ◌∷◌, Option, none, some, if◌then◌else◌}
use irestore.Text.{same_text}
use irestore.Plists.{Plists, Kind, boolean, uint, string, array, dict, bytes}

mutual
  pub data Tree : Type 0 where
    flag : Bool → Tree
    number : ℕ → Tree
    text : List ℕ → Tree
    blob : List ℕ → Tree
    table : Entries → Tree
    row : Items → Tree

  pub data Entries : Type 0 where
    end : Entries
    entry : List ℕ → Tree → Entries → Entries

  pub data Items : Type 0 where
    nil : Items
    item : Tree → Items → Items

abbrev pub tree_kind : Tree → Kind
tree_kind (flag b) = boolean
tree_kind (number n) = uint
tree_kind (text s) = string
tree_kind (blob b) = bytes
tree_kind (table es) = dict
tree_kind (row xs) = array

abbrev pub to_entries : List (List ℕ × Tree) → Entries
to_entries [] = end
to_entries ((k, v) ∷ es) = entry k v (to_entries es)

abbrev pub to_items : List Tree → Items
to_items [] = nil
to_items (x ∷ xs) = item x (to_items xs)

abbrev pub entry_list : Entries → List (List ℕ × Tree)
entry_list end = []
entry_list (entry k v es) = (k, v) ∷ entry_list es

abbrev pub item_list : Items → List Tree
item_list nil = []
item_list (item x xs) = x ∷ item_list xs

unfoldable pub find : List ℕ → List (List ℕ × Tree) → Option Tree
find k [] = none
find k ((j, v) ∷ es) = if same_text j k then some v else find k es

abbrev pub tree_entries : Tree → List (List ℕ × Tree)
tree_entries (table es) = entry_list es
tree_entries _ = []

abbrev pub tree_items : Tree → List Tree
tree_items (row xs) = item_list xs
tree_items _ = []

abbrev pub tree_text : Tree → List ℕ
tree_text (text s) = s
tree_text _ = []

abbrev pub tree_number : Tree → ℕ
tree_number (number n) = n
tree_number _ = 0

abbrev pub tree_bytes : Tree → List ℕ
tree_bytes (blob b) = b
tree_bytes _ = []

-- `parse` stands for the XML reader: what each document that a run receives stands for.
abbrev pub trees : (List ℕ → Option Tree) → Plists
trees parse = record {
  Node = Tree;
  kind = tree_kind;
  get_item = λ t k. find k (tree_entries t);
  entries = tree_entries;
  items = tree_items;
  string_val = tree_text;
  uint_val = tree_number;
  data_val = tree_bytes;
  new_dict = λ es. table (to_entries es);
  new_array = λ xs. row (to_items xs);
  new_string = text;
  new_uint = number;
  new_bool = flag;
  new_data = blob;
  to_xml = λ _. [];
  from_xml = parse;
}
