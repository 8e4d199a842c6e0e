-- ===== src/CoreSet.antt =====
-- src/cpu.rs, the `affinity` feature: cores with their topology, and the selections of them.
--
-- What sysfs holds is an argument: `Sysfs` has, for each cpu, the text of its topology files and the
-- names of its directory's entries, where they can be read. A text is its list of byte values.

pub mod Physical
pub mod Order
use compio_pool.Prelude.{
  ℕ, zero, suc, ◌+◌, ◌-◌, Bool, true, false, ◌&&◌, ◌||◌, Option, none, some, List, [], ◌∷◌, ◌++◌,
  map, length, take as take_list, keep_if, ltb, leb, ◌==◌, if◌then◌else◌,
}
use compio_pool.Prelude.Sort.{sort}
use compio_pool.Cpu.{cores}
use compio_pool.Prelude.Text.{parse_usize, trim, strip_prefix}

-- `struct CoreInfo`.
pub record CoreInfo : Type 0 where
  pub id : ℕ
  pub core : ℕ
  pub package_id : ℕ
  pub numa_node : ℕ

-- `struct CoreSet`.
abbrev pub CoreSet : Type 0
CoreSet = List CoreInfo

pub record Sysfs : Type 0 where
  pub core_id : ℕ → Option (List ℕ)
  pub physical_package_id : ℕ → Option (List ℕ)
  pub entries : ℕ → Option (List (List ℕ))

-- `read_sysfs_usize`, for the text of the file.
unfoldable pub read_sysfs_usize : Option (List ℕ) → Option ℕ
read_sysfs_usize none = none
read_sysfs_usize (some text) = parse_usize (trim text)

-- What one directory entry says of the node.
unfoldable pub node_of_name : List ℕ → Option ℕ
node_of_name name = elim (strip_prefix (b'n' ∷ b'o' ∷ b'd' ∷ b'e' ∷ []) name) [
  | none ↦ none
  | some n ↦ parse_usize n
]

-- The loop of `numa_node_of` over the entries.
unfoldable pub first_node : List (List ℕ) → ℕ
first_node [] = 0
first_node (name ∷ names) = elim (node_of_name name) [ some node ↦ node | none ↦ first_node names ]

-- `numa_node_of`.
unfoldable pub numa_node_of : Option (List (List ℕ)) → ℕ
numa_node_of none = 0
numa_node_of (some entries) = first_node entries

abbrev or_else : Option ℕ → ℕ → ℕ
or_else none d = d
or_else (some n) d = n

-- `topology_for`, on Linux.
unfoldable pub topology_for : Sysfs → List ℕ → CoreSet
topology_for sys [] = []
topology_for sys (id ∷ ids) =
    record {
      id = id;
      core = or_else (read_sysfs_usize (sys.core_id id)) id;
      package_id = or_else (read_sysfs_usize (sys.physical_package_id id)) 0;
      numa_node = numa_node_of (sys.entries id);
    }
    ∷ topology_for sys ids

-- `CoreSet::permitted`.
pub permitted : Sysfs → Option (List ℕ) → CoreSet
permitted sys ids = topology_for sys (cores ids)

-- Two logical cpus on one physical core.
abbrev pub same_core : CoreInfo → CoreInfo → Bool
same_core a b = a.package_id == b.package_id && a.core == b.core

abbrev pub seen_core : List CoreInfo → CoreInfo → Bool
seen_core [] c = false
seen_core (s ∷ seen) c = same_core s c || seen_core seen c

-- The `retain` of `physical_only`; the set of pairs seen is held as the cores that showed them.
unfoldable pub retain_new : List CoreInfo → CoreSet → CoreSet
retain_new seen [] = []
retain_new seen (c ∷ cs) =
    let rest = retain_new (c ∷ seen) cs in
    let skip = retain_new seen cs in if seen_core seen c then skip else c ∷ rest

-- `CoreSet::physical_only`.
unfoldable pub physical_only : CoreSet → CoreSet
physical_only cs = retain_new [] cs

-- `CoreSet::filter`, `on_numa_node` and `on_package`.
unfoldable pub filter : CoreSet → (CoreInfo → Bool) → CoreSet
filter cs pred = keep_if pred cs

unfoldable pub on_numa_node : CoreSet → ℕ → CoreSet
on_numa_node cs node = keep_if (λ c. c.numa_node == node) cs

unfoldable pub on_package : CoreSet → ℕ → CoreSet
on_package cs package_id = keep_if (λ c. c.package_id == package_id) cs

-- Comparing by a key: `a`, then what follows if the keys are equal.
abbrev pub then_by : ℕ → ℕ → Bool → Bool
then_by a b rest = if a == b then rest else ltb a b

-- The order of `sort_by_key(|c| (c.numa_node, c.core, c.id))`.
abbrev pub column_le : CoreInfo → CoreInfo → Bool
column_le a b = then_by a.numa_node b.numa_node (then_by a.core b.core (leb a.id b.id))

-- The order of `sort_by_key(|c| (c.package, c.numa_node, c.core, c.id))`.
abbrev pub pack_le : CoreInfo → CoreInfo → Bool
pack_le a b = then_by a.package_id b.package_id (column_le a b)

-- The groups of `spread`, a map from packages in ascending order: `entry(package)` and `push`.
unfoldable pub push_group : CoreInfo → List (ℕ × CoreSet) → List (ℕ × CoreSet)
push_group c [] = (c.package_id, c ∷ []) ∷ []
push_group c ((package_id, g) ∷ groups) =
    if c.package_id == package_id
    then (package_id, g ++ c ∷ []) ∷ groups
    else if ltb c.package_id package_id
    then (c.package_id, c ∷ []) ∷ (package_id, g) ∷ groups
    else (package_id, g) ∷ push_group c groups

unfoldable pub group_all : CoreSet → List (ℕ × CoreSet) → List (ℕ × CoreSet)
group_all [] groups = groups
group_all (c ∷ cs) groups = group_all cs (push_group c groups)

-- One pass over the columns: what they yield, and what is left of them.
unfoldable pub pass : List CoreSet → CoreSet × List CoreSet
pass [] = ([], [])
pass ([] ∷ columns) = let (out, left) = pass columns in (out, [] ∷ left)
pass ((c ∷ column) ∷ columns) = let (out, left) = pass columns in (c ∷ out, column ∷ left)

-- The loop of `spread`, for so many passes: it stops at a pass that yields nothing.
unfoldable pub drain : ℕ → List CoreSet → CoreSet
drain zero columns = []
drain (suc passes) columns =
    let rest = drain passes (pass columns).1 in
    elim (pass columns).0 [ [] ↦ [] | c ∷ out ↦ (c ∷ out) ++ rest ]

-- `CoreSet::spread`.
unfoldable pub spread : CoreSet → CoreSet
spread cs = drain (suc (length cs)) (map (λ g. sort column_le g.1) (group_all cs []))

-- `CoreSet::pack`.
unfoldable pub pack : CoreSet → CoreSet
pack cs = sort pack_le cs

-- `CoreSet::take`, `len`, `is_empty` and `core_ids`.
unfoldable pub take : CoreSet → ℕ → CoreSet
take cs n = take_list n cs

unfoldable pub core_ids : CoreSet → List ℕ
core_ids cs = map (λ c. c.id) cs
