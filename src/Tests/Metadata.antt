-- ===== src/Tests/Metadata.antt =====
-- The theorems on the documents, with a tree of XML whose nodes are the elements.
use elykseer_cpp.Base.{
  ◌≡◌, refl, ◌∙◌, ap, Bool, true, false, Option, none, some, List, [], ◌∷◌, ◌++◌, ℕ, zero, suc, ◌+◌,
  ◌-◌, ◌*◌, ◌/◌, ◌%◌, ◌<◌, arith, codes, str_eq, starts_with, drop, decimal, to_string, ltb,
  if◌then◌else◌, Bool-cases, inl, inr,
}
use elykseer_cpp.Assembly.{KeyInformation, BlockInformation}
use elykseer_cpp.Store.{KeyStore, FBlockStore, FInfoStore, all_hex, contains_in}
use elykseer_cpp.Store.Entries.{IsDistinct}
use elykseer_cpp.Store.Documents.{Origin, write_keys, write_files_document}
use elykseer_cpp.Store.Reading.{PropertyTree, read_keys, read_files_document}
use elykseer_cpp.Store.Xml.{
  Node, node, Nodes, nil, cons, named, attribute_or, child_named, value_or, is_name, Represents,
}
use elykseer_cpp.Store.KeyNodes.{IsWritten, AllAreWritten, keys_node}
use elykseer_cpp.Store.Keys.{read_keys-write_keys}
use elykseer_cpp.Store.FileNodes.{files_node}
use elykseer_cpp.Store.FilesDocument.{AreFiles, read_files_document-write_files_document}
use elykseer_cpp.Tests.{repeat}

abbrev pub number_from : ℕ → List ℕ → ℕ
number_from a [] = a
number_from a (c ∷ s) = number_from (a * 10 + (c - 48)) s

number_from-decimal :
    (fuel n : ℕ) (acc : List ℕ) → n < fuel → number_from 0 (decimal fuel n acc) ≡ number_from n acc
unfolding decimal
number_from-decimal zero n acc h = absurd (omega arith)
number_from-decimal (suc fuel) n acc h = elim (Bool-cases (ltb n 10)) [
  | inl small ↦
      let digit : 0 * 10 + (48 + n - 48) ≡ n = omega arith in
      rw (small, decimal) (ap (λ a. number_from a acc) digit)
  | inr large ↦
      let big : 10 < n + 1 = ground arith in
      let whole : n / 10 * 10 + (48 + n % 10 - 48) ≡ n = omega arith in
      rw (large, decimal)
        (number_from-decimal fuel (n / 10) ((48 + n % 10) ∷ acc) (omega arith)
          ∙ ap (λ a. number_from a acc) whole)
]

number_from-to_string : (n : ℕ) → number_from 0 (to_string n) ≡ n
unfolding to_string
number_from-to_string n = number_from-decimal (n + 1) n [] (omega arith)

abbrev pub children_of : Node → Nodes
children_of (node spread name attributes value children) = children

abbrev pub node_text : Node → List ℕ → List ℕ → List ℕ
node_text (node spread name attributes value children) path d =
    if starts_with path (codes "<xmlattr>.")
    then attribute_or attributes (drop 10 path) d
    else value_or children path d

abbrev pub same_node : Node → Node
same_node n = n

abbrev pub one_node : Node → Node
one_node n = node false [] [] [] (cons n nil)

-- The parser reads every text as the one document.
abbrev pub node_trees : Node → PropertyTree
node_trees root = record {
  Tree = Node;
  read_xml = λ ins. some (one_node root);
  entries = λ n. named same_node (children_of n);
  get_child = λ n k. child_named (children_of n) k;
  get_text = node_text;
  get_number = λ bits n path d. number_from 0 (node_text n path []);
}

name_is_no_attribute : (k : List ℕ) → is_name k ≡ true → starts_with k (codes "<xmlattr>.") ≡ false
unfolding starts_with
name_is_no_attribute [] h = refl
name_is_no_attribute (c ∷ s) h = ground arith

attribute_text :
    (as_ : List (List ℕ × List ℕ)) (ns : Nodes) (spread : Bool) (name value k d : List ℕ)
    → node_text (node spread name as_ value ns) (codes "<xmlattr>." ++ k) d ≡ attribute_or as_ k d
unfolding starts_with
attribute_text as_ ns spread name value k d = refl

child_text :
    (as_ : List (List ℕ × List ℕ)) (ns : Nodes) (spread : Bool) (name value k d : List ℕ)
    → is_name k ≡ true
    → node_text (node spread name as_ value ns) k d ≡ value_or ns k d
child_text as_ ns spread name value k d h = rw (name_is_no_attribute k h) refl

same_child : (r : Option Node) → r ≡ (elim r [ none ↦ none | some n ↦ some n ])
same_child none = refl
same_child (some n) = refl

node_trees-Represents : (root : Node) → Represents (node_trees root)
node_trees-Represents root = record {
  tree_of = same_node;
  document = one_node;
  entries_document = λ n. refl;
  entries_children = λ spread name value ns. refl;
  child = λ spread name value as_ ns k h. same_child (child_named ns k);
  text_attribute = λ spread name value as_ ns k d. attribute_text as_ ns spread name value k d;
  text_child = λ spread name value as_ ns k d h. child_text as_ ns spread name value k d h;
  number_attribute = λ bits n d spread name value as_ ns k small is.
      ap (number_from 0) (attribute_text as_ ns spread name value k [] ∙ is)
      ∙ number_from-to_string n;
  number_child = λ bits n d spread name value as_ ns k h small is.
      ap (number_from 0) (child_text as_ ns spread name value k [] h ∙ is)
      ∙ number_from-to_string n;
}

abbrev pub plain_hex : List ℕ → List ℕ
plain_hex k = k

abbrev zero_key : KeyInformation
zero_key = record {
  ivec = repeat 32 48;
  pkey = repeat 64 48;
  localnchunks = 16;
  version = codes "1";
}

abbrev two_keys : KeyStore
two_keys = record { entries = (codes "a", zero_key) ∷ (codes "b&c", zero_key) ∷ [] }

zero_key-IsWritten : (aid : List ℕ) → ¬ (aid ≡ []) → IsWritten plain_hex plain_hex aid zero_key
unfolding all_hex
zero_key-IsWritten aid h = record {
  named_aid = h;
  at_least = omega arith;
  at_most = omega arith;
  pkey_text = record { hex_length = refl; digits = refl; back = refl };
  ivec_text = record { hex_length = refl; digits = refl; back = refl };
}

two_keys-AllAreWritten : AllAreWritten plain_hex plain_hex two_keys
two_keys-AllAreWritten =
    (zero_key-IsWritten (codes "a") (λ e. cc), (zero_key-IsWritten (codes "b&c") (λ e. cc), tt))

two_keys-IsDistinct : IsDistinct two_keys
unfolding contains_in str_eq
two_keys-IsDistinct = (refl, (refl, tt))

abbrev pub origin : Origin
origin = record {
  program = codes "LXR";
  version = codes "5.0.0";
  hostname = codes "host";
  timestamp = codes "20260101T000000";
}

read_keys-write_keys_example :
    read_keys
      (node_trees (keys_node plain_hex plain_hex two_keys))
      plain_hex
      (write_keys plain_hex origin two_keys)
      (record { entries = [] })
    ≡ (true, two_keys)
unfolding node_trees-Represents
read_keys-write_keys_example =
    read_keys-write_keys plain_hex plain_hex (node_trees (keys_node plain_hex plain_hex two_keys))
      (node_trees-Represents (keys_node plain_hex plain_hex two_keys)) origin two_keys
      two_keys-AllAreWritten two_keys-IsDistinct refl

abbrev a_block : BlockInformation
a_block = record {
  blockid = 1;
  bchecksum = some (repeat 64 48);
  blocksize = 5;
  filepos = 0;
  blockaid = codes "a";
  blockapos = 128;
}

abbrev one_blocks : FBlockStore
one_blocks = record { entries = (codes "h", a_block ∷ []) ∷ [] }

-- The information of another file, without blocks.
abbrev one_info : FInfoStore
one_info = record {
  entries =
      (
        codes "i",
        record {
          fname = codes "f<1>";
          fhash = codes "i";
          fsize = 0;
          fowner = codes "me";
          fpermissions = 420;
          fmodified = codes "20260101T000000";
          fchecksum = codes "c";
        },
      )
      ∷ [];
}

one_blocks-AreFiles : AreFiles plain_hex plain_hex one_blocks
unfolding all_hex
one_blocks-AreFiles = (
  record {
    named_hash = λ e. cc;
    not_empty = λ e. cc;
    blocks = (
      record {
        sum = repeat 64 48;
        sum_is = refl;
        sum_text = record { hex_length = refl; digits = refl; back = refl };
        id_fits = omega arith;
        size_fits = omega arith;
        pos_fits = omega arith;
        apos_fits = omega arith;
      },
      tt,
    );
  },
  tt,
)

one_blocks-IsDistinct : IsDistinct one_blocks
unfolding contains_in
one_blocks-IsDistinct = (refl, tt)

abbrev files_root : Node
files_root = files_node plain_hex plain_hex (some one_info) one_blocks

read_files_document-write_files_document_example :
    (doc : List ℕ) × (write_files_document plain_hex origin (some one_info) (some one_blocks)
      ≡ some doc)
    × (read_files_document
          (node_trees files_root)
          plain_hex
          doc
          none
          (some (record { entries = [] }))
        ≡ record { ok = true; finfostore = none; fblockstore = some one_blocks })
unfolding node_trees-Represents
read_files_document-write_files_document_example =
    read_files_document-write_files_document plain_hex plain_hex (node_trees files_root)
      (node_trees-Represents files_root) origin (some one_info) one_blocks one_blocks-AreFiles
      one_blocks-IsDistinct refl
