-- ===== src/Storage/Disk.antt =====
-- The files that the storage server reads, writes and removes. The file system is not part of the
-- repository: its operations are an interface, and a small disk in memory meets it.
pub mod Names
use network_all_in_one.Prelude.{
  ◌≡◌, refl, Bool, true, false, List, [], ◌∷◌, Option, none, some, arith, bytes_eq, bytes_eq_refl,
  if◌then◌else◌,
}
use network_all_in_one.Text.{Bytes}

pub record FileSystem : Type 1 where
  pub Disk : Type 0
  -- std::ifstream input(path, binary) and its whole content: `none` if it is not open.
  pub read : Disk → Bytes → Option Bytes
  -- std::ofstream output(path, binary): the file is created or emptied; `none` if it is not open.
  pub open_write : Disk → Bytes → Option Disk
  -- output.write(…), and output.good() after it.
  pub write : Disk → Bytes → Bytes → Disk × Bool
  -- What the destructor of the stream still writes, and whether that succeeds.
  pub flush : Disk → Bytes → Disk × Bool
  -- std::remove(path), and whether it returned 0.
  pub remove : Disk → Bytes → Disk × Bool
  -- std::filesystem::create_directories(path, errorCode).
  pub create_directories : Disk → Bytes → Disk

-- What the documentation of these calls says of regular files.
pub record FileSystemLaws (fs : FileSystem) : Type 0 where
  pub read-flush :
      (d d1 d2 d3 : fs.Disk) (path content : Bytes)
      → fs.open_write d path ≡ some d1
      → fs.write d1 path content ≡ (d2, true)
      → fs.flush d2 path ≡ (d3, true)
      → fs.read d3 path ≡ some content
  pub read-remove :
      (d d1 : fs.Disk) (path : Bytes) → fs.remove d path ≡ (d1, true) → fs.read d1 path ≡ none
  pub remove_refused : (d d1 : fs.Disk) (path : Bytes) → fs.remove d path ≡ (d1, false) → d1 ≡ d

-- A disk in memory: the files and their contents, the last written first.
abbrev pub Files : Type 0
Files = List (Bytes × Bytes)

unfoldable pub lookup : Files → Bytes → Option Bytes
lookup [] path = none
lookup ((q, content) ∷ files) path = if bytes_eq q path then some content else lookup files path

unfoldable pub without : Files → Bytes → Files
without [] path = []
without ((q, content) ∷ files) path =
    let rest = without files path in if bytes_eq q path then rest else (q, content) ∷ rest

lookup-without : (files : Files) (path : Bytes) → lookup (without files path) path ≡ none
unfolding lookup without
lookup-without [] path = refl
lookup-without ((q, content) ∷ files) path = ground (arith, lookup-without files path)

is_some : Option Bytes → Bool
is_some none = false
is_some (some c) = true

unfoldable pub memory_open : Files → Bytes → Option Files
unfolding without
memory_open d path = some ((path, []) ∷ without d path)

unfoldable pub memory_write : Files → Bytes → Bytes → Files × Bool
unfolding without
memory_write d path content = ((path, content) ∷ without d path, true)

unfoldable pub memory_flush : Files → Bytes → Files × Bool
memory_flush d path = (d, true)

unfoldable pub memory_remove : Files → Bytes → Files × Bool
unfolding without lookup is_some
memory_remove d path = if is_some (lookup d path) then (without d path, true) else (d, false)

abbrev pub memory : FileSystem
memory = record {
  Disk = Files;
  read = lookup;
  open_write = memory_open;
  write = memory_write;
  flush = memory_flush;
  remove = memory_remove;
  create_directories = λ d path. d;
}

read-flush_memory :
    (d1 d2 d3 : Files) (path content : Bytes)
    → memory_write d1 path content ≡ (d2, true)
    → memory_flush d2 path ≡ (d3, true)
    → lookup d3 path ≡ some content
unfolding lookup memory_write memory_flush
read-flush_memory d1 d2 d3 path content e k = ground (arith, bytes_eq_refl path)

read-remove_memory :
    (d d1 : Files) (path : Bytes) → memory_remove d path ≡ (d1, true) → lookup d1 path ≡ none
unfolding memory_remove
read-remove_memory d d1 path e = ground (arith, lookup-without d path)

remove_refused_memory : (d d1 : Files) (path : Bytes) → memory_remove d path ≡ (d1, false) → d1 ≡ d
unfolding memory_remove
remove_refused_memory d d1 path e = ground arith

pub memory_laws : FileSystemLaws memory
memory_laws = record {
  read-flush = λ d d1 d2 d3 path content o. read-flush_memory d1 d2 d3 path content;
  read-remove = read-remove_memory;
  remove_refused = remove_refused_memory;
}
