-- ===== src/Import/Store/Trees.antt =====
-- The trees that a store's stream stands for, and their Merkle roots.
use malcom.Prelude.{ℕ, ◌+◌, ◌%◌, ◌^◌, ◌≡◌, ◌≢◌, List, [], ◌∷◌, ◌++◌, Bytes, true}
use malcom.Import.Encoding.{hash_leaf, hash_inner}
use malcom.Import.Store.{Frame, ExportNode, below}

-- A node's fields, and the pivot key of an inner node, whose value the decoder leaves empty or not.
pub data Tree : Type 0 where
  leaf : (version : ℕ) (key value : Bytes) → Tree
  inner : (version height : ℕ) (key value : Bytes) (left right : Tree) → Tree

abbrev pub tree_height : Tree → ℕ
tree_height (leaf v k w) = 0
tree_height (inner v h k w l r) = h

abbrev tree_version : Tree → ℕ
tree_version (leaf v k w) = v
tree_version (inner v h k w l r) = v

-- The number of leaves, as an int64.
abbrev pub leaves : Tree → ℕ
leaves (leaf v k w) = 1
leaves (inner v h k w l r) = (leaves l + leaves r) % 2 ^ 64

-- Left, right, node: the order of the stream.
abbrev pub post_order : Tree → List ExportNode
post_order (leaf v k w) = record { height = 0; version = v; key = k; value = w } ∷ []
post_order (inner v h k w l r) =
    (post_order l ++ post_order r) ++ record { height = h; version = v; key = k; value = w } ∷ []

-- An inner node has a height other than 0, and above that of both its children.
abbrev pub IsTree : Tree → Type 0
IsTree (leaf v k w) = Unit
IsTree (inner v h k w l r) =
    (h ≢ 0)
    × (below (tree_height r) h ≡ true)
    × (below (tree_height l) h ≡ true)
    × IsTree l
    × IsTree r

-- The Merkle root of a tree, by its definition.
abbrev pub merkle : (Bytes → Bytes) → Tree → Bytes
merkle sha256 (leaf v k w) = hash_leaf sha256 v k w
merkle sha256 (inner v h k w l r) =
    hash_inner sha256 v h ((leaves l + leaves r) % 2 ^ 64) (merkle sha256 l) (merkle sha256 r)

-- What the stack holds for a tree whose root got this nonce.
abbrev pub frame_of : (Bytes → Bytes) → Tree → ℕ → Frame
frame_of sha256 t nonce = record {
  hash = merkle sha256 t;
  size = leaves t;
  version = tree_version t;
  nonce = nonce;
  height = tree_height t;
}
