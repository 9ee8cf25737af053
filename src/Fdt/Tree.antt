-- ===== src/Fdt/Tree.antt =====
-- What fdt.c answers for a device tree.
use bboot.Base.{
  ℕ, ◌+◌, ◌-◌, ◌≤◌, Bool, ◌||◌, ◌==◌, true, false, List, [], ◌∷◌, ◌≡◌, refl, Option, none, some,
  if◌then◌else◌, Bytes, length, arith, bytes_eq, bytes_eq_iff, ◌∙◌, ap, sym,
}
use bboot.Memory.{Mem, load_bytes}
use bboot.Fdt.{found, fdt_header, fdt_find_prop}
use bboot.Fdt.Tokens.{Token, begin, end, prop, fin, NoNul, IsTokens, find, Answers, walk-find}

abbrev pub Props : Type 0
Props = List (Bytes × Bytes)

-- Sibling nodes: the first one's name, properties and children, and its later siblings.
pub data Nodes : Type 0 where
  no_nodes : Nodes
  node : Bytes → Props → Nodes → Nodes → Nodes

pub record Tree : Type 0 where
  pub name : Bytes
  pub props : Props
  pub nodes : Nodes

-- The structure block of a tree.
unfoldable pub props_onto : Props → List Token → List Token
props_onto [] ts = ts
props_onto ((n, d) ∷ ps) ts = prop n d ∷ props_onto ps ts

unfoldable pub nodes_onto : Nodes → List Token → List Token
nodes_onto no_nodes ts = ts
nodes_onto (node n ps below rest) ts =
    begin n ∷ props_onto ps (nodes_onto below (end ∷ nodes_onto rest ts))

unfoldable pub tree_tokens : Tree → List Token
tree_tokens t = begin t.name ∷ props_onto t.props (nodes_onto t.nodes (end ∷ fin ∷ []))

unfoldable pub lookup_prop : Props → Bytes → Option Bytes
lookup_prop [] name = none
lookup_prop ((n, d) ∷ ps) name = if bytes_eq n name then some d else lookup_prop ps name

unfoldable pub or_else : Option Bytes → Option Bytes → Option Bytes
or_else none r = r
or_else (some d) r = some d

-- The property of a node, or else of its first child, of that one's first child, and so on.
unfoldable pub lookup_chain : Props → Nodes → Bytes → Option Bytes
lookup_chain ps no_nodes name = lookup_prop ps name
lookup_chain ps (node n qs below rest) name =
    or_else (lookup_prop ps name) (lookup_chain qs below name)

-- The specification: the property of the first node with the name, looked up along its first children. Where
-- the node has no children that is the answer; where it has some and none of these has the property, the
-- search goes on behind the node.
unfoldable pub lookup_device : Nodes → Bytes → Bytes → Option Bytes
lookup_device no_nodes wanted name = none
lookup_device (node n ps no_nodes rest) wanted name =
    if bytes_eq n wanted then lookup_prop ps name else lookup_device rest wanted name
lookup_device (node n ps (node n' qs below next) rest) wanted name =
    let later = lookup_device rest wanted name in
    if bytes_eq n wanted
    then or_else (lookup_chain ps (node n' qs below next) name) later
    else later

-- Properties outside the target node are passed over.
find-props_other :
    (ps : Props) (wanted name : Bytes) (depth : ℕ) (ts : List Token)
    → find wanted name depth false (props_onto ps ts) ≡ find wanted name depth false ts
unfolding find props_onto
find-props_other [] wanted name depth ts = refl
find-props_other ((n, d) ∷ ps) wanted name depth ts = find-props_other ps wanted name depth ts

-- In the target node the first property with the name is the answer.
find-props_target :
    (ps : Props) (wanted name : Bytes) (depth : ℕ) (ts : List Token)
    → find wanted name depth true (props_onto ps ts)
      ≡ or_else (lookup_prop ps name) (find wanted name depth true ts)
unfolding find props_onto lookup_prop or_else
find-props_target [] wanted name depth ts = refl
find-props_target ((n, d) ∷ ps) wanted name depth ts =
    ground (arith, find-props_target ps wanted name depth ts)

or_else-none : (o : Option Bytes) → or_else o none ≡ o
unfolding or_else
or_else-none none = refl
or_else-none (some d) = refl

or_else_assoc : (a b c : Option Bytes) → or_else (or_else a b) c ≡ or_else a (or_else b c)
unfolding or_else
or_else_assoc none b c = refl
or_else_assoc (some d) b c = refl

find-begin :
    (wanted name n : Bytes) (depth : ℕ) (target : Bool) (ts : List Token)
    → 2 ≤ depth
    → find wanted name depth target (begin n ∷ ts) ≡ find wanted name (depth + 1) target ts
unfolding find
find-begin wanted name n depth target ts h =
    let deeper : (depth + 1 == 2) ≡ false = ground arith in rw deeper

find-end :
    (wanted name : Bytes) (depth : ℕ) (target : Bool) (ts : List Token)
    → 2 ≤ depth
    → find wanted name (depth + 1) target (end ∷ ts) ≡ find wanted name depth false ts
unfolding find
find-end wanted name depth target ts h =
    let deeper : (depth + 1 == 2) ≡ false = ground arith in
    let inside : (depth + 1 == 0) ≡ false = ground arith in
    let up : depth + 1 - 1 ≡ depth = omega arith in rw (deeper, inside, up)

find-up :
    (wanted name : Bytes) (ts : List Token)
    → find wanted name 2 false (end ∷ ts) ≡ find wanted name 1 false ts
unfolding find
find-up wanted name ts = refl

-- Below a node that is not the target, nothing is found.
find-nodes_other :
    (ns : Nodes) (wanted name : Bytes) (depth : ℕ) (ts : List Token)
    → 2 ≤ depth
    → find wanted name depth false (nodes_onto ns ts) ≡ find wanted name depth false ts
unfolding nodes_onto
find-nodes_other no_nodes wanted name depth ts h = refl
find-nodes_other (node n ps below rest) wanted name depth ts h =
    find-begin wanted name n depth false _ h
    ∙ find-props_other ps wanted name (depth + 1) _
    ∙ find-nodes_other below wanted name (depth + 1) _ (omega arith)
    ∙ find-end wanted name depth false _ h
    ∙ find-nodes_other rest wanted name depth ts h

-- Below the target, the mark stays until the first node ends.
find-chain :
    (ps : Props) (below : Nodes) (wanted name : Bytes) (depth : ℕ) (ts : List Token)
    → 2 ≤ depth
    → find wanted name (depth + 1) true (props_onto ps (nodes_onto below (end ∷ ts)))
      ≡ or_else (lookup_chain ps below name) (find wanted name depth false ts)
unfolding nodes_onto lookup_chain
find-chain ps no_nodes wanted name depth ts h =
    find-props_target ps wanted name (depth + 1) (end ∷ ts)
    ∙ ap (or_else (lookup_prop ps name)) (find-end wanted name depth true ts h)
find-chain ps (node n qs below rest) wanted name depth ts h =
    find-props_target ps wanted name (depth + 1) _
    ∙ ap (or_else (lookup_prop ps name)) (
        find-begin wanted name n (depth + 1) true _ (omega arith)
        ∙ find-chain qs below wanted name (depth + 1) (nodes_onto rest (end ∷ ts)) (omega arith)
        ∙ ap (or_else (lookup_chain qs below name)) (
            find-nodes_other rest wanted name (depth + 1) (end ∷ ts) (omega arith)
            ∙ find-end wanted name depth false ts h))
    ∙ sym (
        or_else_assoc (lookup_prop ps name) (lookup_chain qs below name)
          (find wanted name depth false ts))

-- The target with children, the first of them named `n`.
find-target :
    (ps : Props) (n : Bytes) (qs : Props) (below next : Nodes) (wanted name : Bytes)
    (ts : List Token)
    → find wanted name 2 true (props_onto ps (nodes_onto (node n qs below next) (end ∷ ts)))
      ≡ or_else (lookup_chain ps (node n qs below next) name) (find wanted name 1 false ts)
unfolding nodes_onto lookup_chain
find-target ps n qs below next wanted name ts =
    find-props_target ps wanted name 2 _
    ∙ ap (or_else (lookup_prop ps name)) (
        find-begin wanted name n 2 true _ (omega arith)
        ∙ find-chain qs below wanted name 2 (nodes_onto next (end ∷ ts)) (omega arith)
        ∙ ap (or_else (lookup_chain qs below name))
            (find-nodes_other next wanted name 2 (end ∷ ts) (omega arith) ∙ find-up wanted name ts))
    ∙ sym (
        or_else_assoc (lookup_prop ps name) (lookup_chain qs below name)
          (find wanted name 1 false ts))

find-devices :
    (ns : Nodes) (wanted name : Bytes)
    → find wanted name 1 false (nodes_onto ns (end ∷ fin ∷ [])) ≡ lookup_device ns wanted name
unfolding find nodes_onto lookup_device
find-devices no_nodes wanted name = refl
find-devices (node n ps no_nodes rest) wanted name = ground (
  arith,
  find-props_target ps wanted name 2 (end ∷ nodes_onto rest (end ∷ fin ∷ [])),
  find-props_other ps wanted name 2 (end ∷ nodes_onto rest (end ∷ fin ∷ [])),
  or_else-none (lookup_prop ps name),
  find-devices rest wanted name,
)
find-devices (node n ps (node n' qs below next) rest) wanted name =
    go (bytes_eq n wanted) (find-devices rest wanted name)
  where
    after : List Token
    after = nodes_onto rest (end ∷ fin ∷ [])

    go :
        (b : Bool)
        → find wanted name 1 false (nodes_onto rest (end ∷ fin ∷ []))
          ≡ lookup_device rest wanted name
        → find wanted name 2
            (b || false)
            (props_onto ps (nodes_onto (node n' qs below next) (end ∷ after)))
          ≡ (if b
              then or_else
                  (lookup_chain ps (node n' qs below next) name)
                  (lookup_device rest wanted name)
              else lookup_device rest wanted name)
    go true h =
        find-target ps n' qs below next wanted name after
        ∙ ap (or_else (lookup_chain ps (node n' qs below next) name)) h
    go false h =
        find-props_other ps wanted name 2 _
        ∙ find-nodes_other (node n' qs below next) wanted name 2 (end ∷ after) (omega arith)
        ∙ find-up wanted name after
        ∙ h

find-tree :
    (t : Tree) (wanted name : Bytes)
    → find wanted name 0 false (tree_tokens t) ≡ lookup_device t.nodes wanted name
unfolding find tree_tokens
find-tree t wanted name =
    find-props_other t.props wanted name 1 (nodes_onto t.nodes (end ∷ fin ∷ []))
    ∙ find-devices t.nodes wanted name

-- A blob at `fdt` with these tokens.
abbrev pub IsBlob : Mem → ℕ → ℕ → List Token → Type 0
IsBlob m fdt fuel ts =
    (length ts ≤ fuel)
    × IsTokens m (fdt + (fdt_header m fdt).off_dt_strings) fuel
        (fdt + (fdt_header m fdt).off_dt_struct) ts

fdt_find_prop-find :
    (m : Mem) (fdt fuel : ℕ) (ts : List Token) (wanted name : Bytes)
    → IsBlob m fdt fuel ts
    → NoNul wanted
    → NoNul name
    → Answers m (find wanted name 0 false ts) (fdt_find_prop fuel m fdt wanted name)
unfolding fdt_find_prop
fdt_find_prop-find m fdt fuel ts wanted name (le, is) k k' =
    walk-find fuel m (fdt + (fdt_header m fdt).off_dt_strings) wanted name k k' ts fuel _ le is

-- On a blob that holds a tree without NOPs, the properties of each node in front of its children, and with fuel for its
-- tokens and names, `fdt_find_prop` answers the place of the property that is found for the first node below the
-- root with the name, with its data in memory there: the node's own if it has it, else that of its first
-- child, of that one's first child and so on. It answers NULL where there is no such node, or the first such node
-- has no children and lacks the property; where it has children and none of these has it, the next
-- node with the name is taken.
pub fdt_find_prop-tree :
    (m : Mem) (fdt fuel : ℕ) (t : Tree) (wanted name : Bytes)
    → IsBlob m fdt fuel (tree_tokens t)
    → NoNul wanted
    → NoNul name
    → Answers m (lookup_device t.nodes wanted name) (fdt_find_prop fuel m fdt wanted name)
fdt_find_prop-tree m fdt fuel t wanted name b k k' =
    rw (← find-tree t wanted name)
      (fdt_find_prop-find m fdt fuel (tree_tokens t) wanted name b k k')

-- On a blob whose root has any properties, and whose first node below the root lacks the property and has a first
-- child that has it, without NOPs so far, `fdt_find_prop` finds the child's, whatever follows.
pub fdt_find_prop_subnode :
    (m : Mem) (fdt fuel : ℕ) (root wanted sub name d : Bytes) (rs ps qs : Props) (ts : List Token)
    → IsBlob m fdt fuel
        (begin root ∷ props_onto rs (begin wanted ∷ props_onto ps (begin sub ∷ props_onto qs ts)))
    → NoNul wanted
    → NoNul name
    → lookup_prop ps name ≡ none
    → lookup_prop qs name ≡ some d
    → (p : ℕ) × (fdt_find_prop fuel m fdt wanted name ≡ found p (length d))
      × (load_bytes m p (length d) ≡ d)
unfolding find or_else
fdt_find_prop_subnode m fdt fuel root wanted sub name d rs ps qs ts b k k' lacks has =
    rw in_child at (fdt_find_prop-find m fdt fuel block wanted name b k k')
  where
    inner : List Token
    inner = begin wanted ∷ props_onto ps (begin sub ∷ props_onto qs ts)

    block : List Token
    block = begin root ∷ props_onto rs inner

    in_node : find wanted name 1 false inner ≡ some d
    in_node =
        rw ((bytes_eq_iff wanted wanted).1 refl, find)
          (find-props_target ps wanted name 2 (begin sub ∷ props_onto qs ts)
            ∙ rw lacks (find-props_target qs wanted name 3 ts ∙ rw has))

    in_child : find wanted name 0 false block ≡ some d
    in_child = find-props_other rs wanted name 1 inner ∙ in_node
