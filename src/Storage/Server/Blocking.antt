-- ===== src/Storage/Server/Blocking.antt =====
-- set_socket_blocking of C++/Lecture 3, OOP Refactor/TCPServer.h.
use network_all_in_one.Prelude.{
  ℕ, ◌+◌, ◌/◌, ◌%◌, ◌≡◌, refl, Bool, true, false, List, some, arith, if◌then◌else◌, ==_refl,
  Bool-cases, inl, inr,
}
use network_all_in_one.Text.{ℤ, pos, negsuc, Result, ok, throws}
use network_all_in_one.Kernel.{World, pure, get_flags, set_flags, next_status, rest_of, ◌>>=◌}
use network_all_in_one.Storage.Server.{
  nonblock_bit, with_nonblock, without_nonblock, change_flags, set_socket_blocking,
}

abbrev pub wanted_bit : Bool → ℕ
wanted_bit true = 0
wanted_bit false = 1

-- The flags `new` are `old` with the bit O_NONBLOCK as it is wanted.
pub record IsSwitched (blocking : Bool) (old new : ℕ) : Type 0 where
  pub bit : (new / nonblock_bit) % 2 ≡ wanted_bit blocking
  pub below : new % nonblock_bit ≡ old % nonblock_bit
  pub above : new / (nonblock_bit + nonblock_bit) ≡ old / (nonblock_bit + nonblock_bit)

without_nonblock-IsSwitched : (flags : ℕ) → IsSwitched true flags (without_nonblock flags)
unfolding without_nonblock
without_nonblock-IsSwitched flags = ground arith

with_nonblock-IsSwitched : (flags : ℕ) → IsSwitched false flags (with_nonblock flags)
unfolding with_nonblock
with_nonblock-IsSwitched flags = ground arith

-- What set_socket_blocking leaves, by its result.
abbrev pub Switched : {D : Type 0} → ℕ → Bool → World D → Result ℤ × World D → Type 0
Switched fd blocking w (ok (pos n), w') = (n ≡ 0) × IsSwitched blocking (w.flags fd) (w'.flags fd)
Switched fd blocking w (ok (negsuc n), w') = (n ≡ 0) × (w'.flags fd ≡ w.flags fd)
Switched fd blocking w (throws e, w') = ⊥

new_flags : Bool → ℕ → ℕ
new_flags blocking flags = if blocking then without_nonblock flags else with_nonblock flags

new_flags-IsSwitched :
    (blocking : Bool) (flags : ℕ) → IsSwitched blocking flags (new_flags blocking flags)
unfolding new_flags
new_flags-IsSwitched true flags = without_nonblock-IsSwitched flags
new_flags-IsSwitched false flags = with_nonblock-IsSwitched flags

change_flags-Switched :
    {D : Type 0} (fd : ℕ) (blocking : Bool) (statuses : List Bool) (w : World D)
    → Switched fd blocking w
        (change_flags fd blocking (some (w.flags fd)) (record w { statuses = statuses }))
unfolding change_flags set_flags pure ◌>>=◌ new_flags
change_flags-Switched fd blocking statuses w = elim (Bool-cases (next_status statuses)) [
  | inr e ↦ rw e (refl, refl)
  | inl e ↦ rw e (refl, rw (==_refl fd) (new_flags-IsSwitched blocking (w.flags fd)))
]

-- set_socket_blocking returns 0 where it has set or cleared O_NONBLOCK of the descriptor and changed
-- no other of its flags, and -1 where its flags are as they were.
pub set_socket_blocking-Switched :
    {D : Type 0} (fd : ℕ) (blocking : Bool) (w : World D)
    → Switched fd blocking w (set_socket_blocking fd blocking w)
unfolding set_socket_blocking get_flags change_flags pure ◌>>=◌
set_socket_blocking-Switched fd blocking w = elim (Bool-cases (next_status w.statuses)) [
  | inr e ↦ rw e (refl, refl)
  | inl e ↦ rw e (change_flags-Switched fd blocking (rest_of w.statuses) w)
]
