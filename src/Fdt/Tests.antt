-- ===== src/Fdt/Tests.antt =====
-- Runs of fdt.c on two small blobs, and the theorems at them.
use bboot.Base.{
  ℕ, ◌-◌, true, List, [], ◌∷◌, ◌≡◌, refl, some, Bytes, codes, bytes_eq, arith, get_or, ltb,
  if◌then◌else◌,
}
use bboot.Memory.{Mem, read32, load_bytes, str_eq, strlen}
use bboot.Fdt.{
  align4, found, fdt_find_prop, walk, round, begin_node, end_node, property, fdt_get_prop_u32_idx,
  int_lt, fdt_check,
}
use bboot.Fdt.Tokens.{Token, begin, end, fin, Answers, NoNul}
use bboot.Fdt.Tree.{
  Tree, no_nodes, node, IsBlob, props_onto, nodes_onto, tree_tokens, lookup_prop, lookup_chain,
  or_else, lookup_device, fdt_find_prop-tree, fdt_find_prop_subnode,
}

abbrev blob : Bytes
blob =
    208 ∷ 13 ∷ 254 ∷ 237 ∷ 0 ∷ 0 ∷ 0 ∷ 159 ∷ 0 ∷ 0 ∷ 0 ∷ 40 ∷ 0 ∷ 0 ∷ 0 ∷ 144 ∷ 0 ∷ 0 ∷ 0 ∷ 0 ∷ 0
    ∷ 0 ∷ 0 ∷ 17 ∷ 0 ∷ 0 ∷ 0 ∷ 16 ∷ 0 ∷ 0 ∷ 0 ∷ 0 ∷ 0 ∷ 0 ∷ 0 ∷ 15 ∷ 0 ∷ 0 ∷ 0 ∷ 104 ∷ 0 ∷ 0 ∷ 0 ∷ 1
    ∷ 0 ∷ 0 ∷ 0 ∷ 0 ∷ 0 ∷ 0 ∷ 0 ∷ 1 ∷ 99 ∷ 104 ∷ 111 ∷ 115 ∷ 101 ∷ 110 ∷ 0 ∷ 0 ∷ 0 ∷ 0 ∷ 0 ∷ 3 ∷ 0
    ∷ 0 ∷ 0 ∷ 4 ∷ 0 ∷ 0 ∷ 0 ∷ 0 ∷ 1 ∷ 2 ∷ 3 ∷ 4 ∷ 0 ∷ 0 ∷ 0 ∷ 3 ∷ 0 ∷ 0 ∷ 0 ∷ 4 ∷ 0 ∷ 0 ∷ 0 ∷ 6
    ∷ 100 ∷ 98 ∷ 103 ∷ 0 ∷ 0 ∷ 0 ∷ 0 ∷ 2 ∷ 0 ∷ 0 ∷ 0 ∷ 1 ∷ 109 ∷ 101 ∷ 109 ∷ 111 ∷ 114 ∷ 121 ∷ 0 ∷ 0
    ∷ 0 ∷ 0 ∷ 0 ∷ 3 ∷ 0 ∷ 0 ∷ 0 ∷ 12 ∷ 0 ∷ 0 ∷ 0 ∷ 11 ∷ 0 ∷ 0 ∷ 0 ∷ 0 ∷ 0 ∷ 0 ∷ 0 ∷ 0 ∷ 32 ∷ 0 ∷ 0
    ∷ 0 ∷ 0 ∷ 0 ∷ 0 ∷ 2 ∷ 0 ∷ 0 ∷ 0 ∷ 2 ∷ 0 ∷ 0 ∷ 0 ∷ 9 ∷ 115 ∷ 116 ∷ 97 ∷ 114 ∷ 116 ∷ 0 ∷ 97 ∷ 114
    ∷ 103 ∷ 115 ∷ 0 ∷ 114 ∷ 101 ∷ 103 ∷ 0 ∷ []

pub memory : Mem
memory a = if ltb a 4096 then 0 else get_or blob (a - 4096) 0

abbrev pub tree : Tree
tree = record {
  name = [];
  props = [];
  nodes =
      node (codes "chosen")
        ((codes "start", 1 ∷ 2 ∷ 3 ∷ 4 ∷ []) ∷ (codes "args", b'd' ∷ b'b' ∷ b'g' ∷ 0 ∷ []) ∷ [])
        no_nodes
        (node (codes "memory")
          ((codes "reg", 0 ∷ 0 ∷ 0 ∷ 0 ∷ 0 ∷ 0 ∷ 0 ∷ 0 ∷ 32 ∷ 0 ∷ 0 ∷ 0 ∷ []) ∷ []) no_nodes
          no_nodes);
}

pub checked : fdt_check memory 4096 ≡ true
unfolding fdt_check memory read32
checked = refl

memory_size : fdt_get_prop_u32_idx 20 memory 4096 (codes "memory") (codes "reg") 2 ≡ some 0x20000000
unfolding fdt_get_prop_u32_idx fdt_find_prop walk round begin_node end_node property int_lt align4
    memory read32 str_eq strlen
memory_size = refl

pub memory-IsBlob : IsBlob memory 4096 20 (tree_tokens tree)
unfolding tree_tokens props_onto nodes_onto memory read32 align4 load_bytes
memory-IsBlob = (
  omega arith,
  (
    refl,
    refl,
    omega arith,
    (
      refl,
      (
        refl,
        omega arith,
        (
          refl,
          omega arith,
          (refl, omega arith, (refl, omega arith, (refl, omega arith, (refl, omega arith, refl)))),
        ),
      ),
      omega arith,
      (
        refl,
        refl,
        (
          refl,
          omega arith,
          (refl, omega arith, (refl, omega arith, (refl, omega arith, (refl, omega arith, refl)))),
        ),
        refl,
        (
          refl,
          refl,
          (refl, omega arith, (refl, omega arith, (refl, omega arith, (refl, omega arith, refl)))),
          refl,
          (
            refl,
            (
              refl,
              (
                refl,
                omega arith,
                (
                  refl,
                  omega arith,
                  (
                    refl,
                    omega arith,
                    (refl, omega arith, (refl, omega arith, (refl, omega arith, refl))),
                  ),
                ),
              ),
              omega arith,
              (
                refl,
                refl,
                (refl, omega arith, (refl, omega arith, (refl, omega arith, refl))),
                refl,
                (refl, (refl, refl)),
              ),
            ),
          ),
        ),
      ),
    ),
  ),
)

memory-NoNul : NoNul (codes "memory")
memory-NoNul =
    (omega arith, (omega arith, (omega arith, (omega arith, (omega arith, (omega arith, tt))))))

reg-NoNul : NoNul (codes "reg")
reg-NoNul = (omega arith, (omega arith, (omega arith, tt)))

chosen-NoNul : NoNul (codes "chosen")
chosen-NoNul =
    (omega arith, (omega arith, (omega arith, (omega arith, (omega arith, (omega arith, tt))))))

start-NoNul : NoNul (codes "start")
start-NoNul = (omega arith, (omega arith, (omega arith, (omega arith, (omega arith, tt)))))

args-NoNul : NoNul (codes "args")
args-NoNul = (omega arith, (omega arith, (omega arith, (omega arith, tt))))

-- A node "memory" with no property and a child "sub" with "reg".
abbrev nested : Bytes
nested =
    208 ∷ 13 ∷ 254 ∷ 237 ∷ 0 ∷ 0 ∷ 0 ∷ 104 ∷ 0 ∷ 0 ∷ 0 ∷ 40 ∷ 0 ∷ 0 ∷ 0 ∷ 100 ∷ 0 ∷ 0 ∷ 0 ∷ 0 ∷ 0
    ∷ 0 ∷ 0 ∷ 17 ∷ 0 ∷ 0 ∷ 0 ∷ 16 ∷ 0 ∷ 0 ∷ 0 ∷ 0 ∷ 0 ∷ 0 ∷ 0 ∷ 4 ∷ 0 ∷ 0 ∷ 0 ∷ 60 ∷ 0 ∷ 0 ∷ 0 ∷ 1
    ∷ 0 ∷ 0 ∷ 0 ∷ 0 ∷ 0 ∷ 0 ∷ 0 ∷ 1 ∷ 109 ∷ 101 ∷ 109 ∷ 111 ∷ 114 ∷ 121 ∷ 0 ∷ 0 ∷ 0 ∷ 0 ∷ 0 ∷ 1
    ∷ 115 ∷ 117 ∷ 98 ∷ 0 ∷ 0 ∷ 0 ∷ 0 ∷ 3 ∷ 0 ∷ 0 ∷ 0 ∷ 4 ∷ 0 ∷ 0 ∷ 0 ∷ 0 ∷ 9 ∷ 9 ∷ 9 ∷ 9 ∷ 0 ∷ 0 ∷ 0
    ∷ 2 ∷ 0 ∷ 0 ∷ 0 ∷ 2 ∷ 0 ∷ 0 ∷ 0 ∷ 2 ∷ 0 ∷ 0 ∷ 0 ∷ 9 ∷ 114 ∷ 101 ∷ 103 ∷ 0 ∷ []

nested_memory : Mem
nested_memory a = if ltb a 4096 then 0 else get_or nested (a - 4096) 0

abbrev nested_block : List Token
nested_block =
    begin []
    ∷ props_onto [] (
        begin (codes "memory")
        ∷ props_onto [] (
            begin (codes "sub")
            ∷ props_onto ((codes "reg", 9 ∷ 9 ∷ 9 ∷ 9 ∷ []) ∷ []) (end ∷ end ∷ end ∷ fin ∷ [])))

nested-IsBlob : IsBlob nested_memory 4096 20 nested_block
unfolding props_onto nested_memory read32 align4 load_bytes
nested-IsBlob = (
  omega arith,
  (
    refl,
    refl,
    omega arith,
    (
      refl,
      (
        refl,
        omega arith,
        (
          refl,
          omega arith,
          (refl, omega arith, (refl, omega arith, (refl, omega arith, (refl, omega arith, refl)))),
        ),
      ),
      omega arith,
      (
        refl,
        (refl, omega arith, (refl, omega arith, (refl, omega arith, refl))),
        omega arith,
        (
          refl,
          refl,
          (refl, omega arith, (refl, omega arith, (refl, omega arith, refl))),
          refl,
          (refl, (refl, (refl, refl))),
        ),
      ),
    ),
  ),
)

-- The same as a tree.
abbrev nested_tree : Tree
nested_tree = record {
  name = [];
  props = [];
  nodes =
      node (codes "memory") []
        (node (codes "sub") ((codes "reg", 9 ∷ 9 ∷ 9 ∷ 9 ∷ []) ∷ []) no_nodes no_nodes) no_nodes;
}

fdt_find_prop-tree_example :
    Answers nested_memory
      (lookup_device nested_tree.nodes (codes "memory") (codes "reg"))
      (fdt_find_prop 20 nested_memory 4096 (codes "memory") (codes "reg"))
unfolding tree_tokens nodes_onto props_onto
fdt_find_prop-tree_example =
    fdt_find_prop-tree nested_memory 4096 20 nested_tree (codes "memory") (codes "reg")
      nested-IsBlob memory-NoNul reg-NoNul

in_child :
    lookup_device nested_tree.nodes (codes "memory") (codes "reg") ≡ some (9 ∷ 9 ∷ 9 ∷ 9 ∷ [])
unfolding lookup_device lookup_chain lookup_prop or_else bytes_eq
in_child = refl

fdt_find_prop_subnode_example :
    (p : ℕ) × (fdt_find_prop 20 nested_memory 4096 (codes "memory") (codes "reg") ≡ found p 4)
    × (load_bytes nested_memory p 4 ≡ 9 ∷ 9 ∷ 9 ∷ 9 ∷ [])
unfolding lookup_prop bytes_eq
fdt_find_prop_subnode_example =
    fdt_find_prop_subnode nested_memory 4096 20 [] (codes "memory") (codes "sub") (codes "reg")
      (9 ∷ 9 ∷ 9 ∷ 9 ∷ []) [] [] ((codes "reg", 9 ∷ 9 ∷ 9 ∷ 9 ∷ []) ∷ [])
      (end ∷ end ∷ end ∷ fin ∷ []) nested-IsBlob memory-NoNul reg-NoNul refl refl
