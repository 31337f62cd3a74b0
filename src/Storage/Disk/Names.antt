-- ===== src/Storage/Disk/Names.antt =====
-- Which names denote different files, and that what is done to one file leaves the others alone.
use network_all_in_one.Prelude.{
  ◌≡◌, ◌≢◌, refl, sym, ◌∙◌, true, false, Bool-cases, inl, inr, [], ◌∷◌, some, arith, bytes_eq,
}
use network_all_in_one.Text.{Bytes}
use network_all_in_one.Storage.Disk.{
  FileSystem, Files, memory, lookup, without, memory_open, memory_write, memory_flush,
  memory_remove,
}

-- Two spellings may denote one file ("a" and "./a"), so that names are told apart by a relation.
pub record FileNames (fs : FileSystem) : Type 1 where
  pub Apart : Bytes → Bytes → Type 0
  pub read-open :
      (d d1 : fs.Disk) (p q : Bytes)
      → Apart p q
      → fs.open_write d p ≡ some d1
      → fs.read d1 q ≡ fs.read d q
  pub read-write :
      (d : fs.Disk) (p q content : Bytes)
      → Apart p q
      → fs.read (fs.write d p content).0 q ≡ fs.read d q
  pub read-flush :
      (d : fs.Disk) (p q : Bytes) → Apart p q → fs.read (fs.flush d p).0 q ≡ fs.read d q
  pub read-remove :
      (d : fs.Disk) (p q : Bytes) → Apart p q → fs.read (fs.remove d p).0 q ≡ fs.read d q

bytes_eq_sound : (xs ys : Bytes) → bytes_eq xs ys ≡ true → xs ≡ ys
bytes_eq_sound [] [] h = refl
bytes_eq_sound [] (y ∷ ys) h = cc
bytes_eq_sound (x ∷ xs) [] h = cc
bytes_eq_sound (x ∷ xs) (y ∷ ys) h = ground (arith, bytes_eq_sound xs ys)

bytes_eq-apart : (xs ys : Bytes) → xs ≢ ys → bytes_eq xs ys ≡ false
bytes_eq-apart xs ys h = elim (Bool-cases (bytes_eq xs ys)) [
  | inl e ↦ absurd (h (bytes_eq_sound xs ys e))
  | inr e ↦ e
]

lookup-without_apart :
    (files : Files) (p q : Bytes) → p ≢ q → lookup (without files p) q ≡ lookup files q
unfolding lookup without
lookup-without_apart [] p q h = refl
lookup-without_apart ((name, content) ∷ files) p q h = elim (Bool-cases (bytes_eq name p)) [
  | inl e ↦
      let other : bytes_eq name q ≡ false =
        bytes_eq-apart name q (λ s. h (sym (bytes_eq_sound name p e) ∙ s)) in
      rw (e, other) (lookup-without_apart files p q h)
  | inr e ↦ rw e (ground (arith, lookup-without_apart files p q h))
]

module _ (d : Files) (p q : Bytes) (apart : p ≢ q) where
  pub read-open_memory : (d1 : Files) → memory_open d p ≡ some d1 → lookup d1 q ≡ lookup d q
  unfolding memory_open lookup
  read-open_memory d1 e =
      ground (arith, e, bytes_eq-apart p q apart, lookup-without_apart d p q apart)

  pub read-write_memory : (content : Bytes) → lookup (memory_write d p content).0 q ≡ lookup d q
  unfolding memory_write lookup
  read-write_memory content =
      ground (arith, bytes_eq-apart p q apart, lookup-without_apart d p q apart)

  pub read-flush_memory : lookup (memory_flush d p).0 q ≡ lookup d q
  unfolding memory_flush
  read-flush_memory = refl

  pub read-remove_memory : lookup (memory_remove d p).0 q ≡ lookup d q
  unfolding memory_remove
  read-remove_memory = ground (arith, lookup-without_apart d p q apart)

-- In memory two names denote one file only where they are equal.
abbrev pub memory_names : FileNames memory
memory_names = record {
  Apart = λ p q. p ≢ q;
  read-open = λ d d1 p q h. read-open_memory d p q h d1;
  read-write = λ d p q content h. read-write_memory d p q h content;
  read-flush = read-flush_memory;
  read-remove = read-remove_memory;
}
