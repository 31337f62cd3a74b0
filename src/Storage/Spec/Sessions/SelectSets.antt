-- ===== src/Storage/Spec/Sessions/SelectSets.antt =====
-- The set of runSelect (FileStorageServer.cpp): what select reports of it.
use network_all_in_one.Prelude.{
  ℕ, ◌≤◌, ◌<◌, ◌≡◌, refl, sym, ap, ◌∙◌, Bool, true, false, ◌&&◌, max, List, [], ◌∷◌, arith,
  contains, ltb, All, Bool-cases, inl, inr, if◌then◌else◌, ◌==◌, ==_iff, ==_refl, lt→ltb,
}
use network_all_in_one.Text.{ok}
use network_all_in_one.Storage.Loops.{fd_setsize, set_fds, max_fd, selected}
use network_all_in_one.Storage.Spec.Sessions.Select.{Held, waits, asks, sockets, Reports}

pub set_fds-fits : (fds : List ℕ) → All (λ fd. fd < fd_setsize) fds → set_fds fds ≡ ok fds
unfolding set_fds
set_fds-fits [] h = refl
set_fds-fits (fd ∷ fds) h = ground (arith, h.0, set_fds-fits fds h.1)

pub max_fd-start : (m : ℕ) (fds : List ℕ) → m ≤ max_fd m fds
unfolding max_fd
max_fd-start m [] = omega arith
max_fd-start m (fd ∷ fds) = omega (arith, max_fd-start (max m fd) fds)

pub max_fd-bounds : (m x : ℕ) (fds : List ℕ) → contains x fds ≡ true → x ≤ max_fd m fds
unfolding max_fd
max_fd-bounds m x [] h = ground arith
max_fd-bounds m x (fd ∷ fds) h =
    ground (arith, max_fd-start (max m fd) fds, max_fd-bounds (max m fd) x fds)

-- Of a set, what is below the bound and in the report.
module _ (bound : ℕ) (report : List ℕ) where
  unfoldable pub is_selected : ℕ → Bool
  is_selected x = ltb x bound && contains x report

  selected_more :
      (x fd : ℕ) (rest set : List ℕ) (t : Bool)
      → contains x rest ≡ (contains x set && is_selected x)
      → t ≡ is_selected fd
      → contains x (if t then fd ∷ rest else rest) ≡ (contains x (fd ∷ set) && is_selected x)
  selected_more x fd rest set true h e = elim (Bool-cases (fd == x)) [
    | inl same ↦ rw same (e ∙ ap is_selected ((==_iff fd x).0 same))
    | inr other ↦ rw other h
  ]
  selected_more x fd rest set false h e = elim (Bool-cases (fd == x)) [
    | inl same ↦
        let k : is_selected x ≡ false = sym (e ∙ ap is_selected ((==_iff fd x).0 same)) in
        rw (h, same, k) (ground arith)
    | inr other ↦ rw other h
  ]

  pub contains-selected :
      (x : ℕ) (set : List ℕ)
      → contains x (selected bound report set) ≡ (contains x set && is_selected x)
  unfolding selected
  contains-selected x [] = refl
  contains-selected x (fd ∷ set) =
      selected_more x fd (selected bound report set) set (ltb fd bound && contains fd report)
        (contains-selected x set) (unfold is_selected in refl)

  pub selected_as_reported :
      (x : ℕ) (set : List ℕ)
      → contains x set ≡ true
      → x < bound
      → contains x (selected bound report set) ≡ contains x report
  unfolding is_selected
  selected_as_reported x set m l = contains-selected x set ∙ rw (m, lt→ltb x bound l) refl

  pub selected_outside :
      (x : ℕ) (set : List ℕ)
      → contains x set ≡ false
      → contains x (selected bound report set) ≡ false
  selected_outside x set m = contains-selected x set ∙ rw m refl

  -- Where the kernel reports these clients, the set holds them, and the bound is above them.
  pub Reports-selected :
      (set : List ℕ) (held : List Held)
      → ((x : ℕ) → contains x (sockets held) ≡ true → (contains x set ≡ true) × (x < bound))
      → Reports report held
      → Reports (selected bound report set) held
  Reports-selected set [] h r = tt
  Reports-selected set (waits fd ∷ hs) h r =
      let k = h fd (rw (==_refl fd) refl) in
      (
        selected_as_reported fd set k.0 k.1 ∙ r.0,
        Reports-selected set hs (λ x m. h x (ground (arith, m))) r.1,
      )
  Reports-selected set (asks c ∷ hs) h r =
      let k = h c.fd (rw (==_refl c.fd) refl) in
      (
        selected_as_reported c.fd set k.0 k.1 ∙ r.0,
        Reports-selected set hs (λ x m. h x (ground (arith, m))) r.1,
      )
