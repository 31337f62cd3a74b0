-- ===== src/Storage/Loops/Poll/Passes.antt =====
-- A pass of runPoll over its clients is the pass of runSelect over them (FileStorageServer.cpp).
use network_all_in_one.Prelude.{
  ℕ, zero, suc, ◌≤◌, ◌≡◌, refl, sym, ap, subst, ◌∙◌, inl, inr, true, false, Bool-cases, List, [],
  ◌∷◌, ◌++◌, Option, arith, All, length, append_assoc, append-nil, count, count-append, contains,
  erase, if◌then◌else◌,
}
use network_all_in_one.Text.{ok}
use network_all_in_one.Kernel.{World, Io, pure, close, ◌>>=◌}
use network_all_in_one.Kernel.Laws.{bind_assoc, bind_congr}
use network_all_in_one.Storage.Disk.{FileSystem}
use network_all_in_one.Storage.Server.{Server, PollFd, Revents, close_client, serve, is_server}
use network_all_in_one.Storage.Loops.{poll_pass, polled, has_event, serve_selected}
use network_all_in_one.Storage.Loops.Poll.{descriptors}

erase-append : (b : ℕ) (xs ys : List ℕ) → count b xs ≡ 0 → erase b (xs ++ b ∷ ys) ≡ xs ++ ys
erase-append b [] ys h = ground arith
erase-append b (x ∷ xs) ys h = ground (arith, erase-append b xs ys)

pub length-polled :
    (report : ℕ → Revents) (ps : List PollFd) → length (polled report ps) ≡ length ps
unfolding polled
length-polled report [] = refl
length-polled report (p ∷ ps) = omega (arith, length-polled report ps)

-- No descriptor stands twice.
abbrev pub IsDistinct : List ℕ → Type 0
IsDistinct fds = (fd : ℕ) → count fd fds ≤ 1

IsDistinct-before : (b : ℕ) (xs ys : List ℕ) → IsDistinct (xs ++ b ∷ ys) → count b xs ≡ 0
IsDistinct-before b xs ys u = ground (arith, u b, count-append b xs (b ∷ ys))

IsDistinct-rest : (b : ℕ) (xs ys : List ℕ) → IsDistinct (xs ++ b ∷ ys) → IsDistinct (xs ++ ys)
IsDistinct-rest b xs ys u fd =
    ground (arith, u fd, count-append fd xs (b ∷ ys), count-append fd xs ys)

pub IsDistinct-snoc :
    (b : ℕ) (xs : List ℕ) → IsDistinct xs → count b xs ≡ 0 → IsDistinct (xs ++ b ∷ [])
IsDistinct-snoc b xs u h x = ground (arith, u x, h, count-append x xs (b ∷ []))

pub All-snoc :
    {A : Type 0} (P : A → Type 0) (xs : List A) (x : A) → All P xs → P x → All P (xs ++ x ∷ [])
All-snoc P [] x h p = (p, tt)
All-snoc P (y ∷ xs) x (h, hs) p = (h, All-snoc P xs x hs p)

-- The entries that a pass leaves.
unfoldable pub kept : List PollFd → List PollFd
kept [] = []
kept (p ∷ ps) = let rest = kept ps in if has_event p.revents then rest else p ∷ rest

kept-event : (p : PollFd) (ps : List PollFd) → has_event p.revents ≡ true → kept (p ∷ ps) ≡ kept ps
unfolding kept
kept-event p ps e = rw e refl

module _ (fs : FileSystem) (fds : List ℕ) where
  -- Clients whose events are those of the set.
  abbrev pub Agreeing : Option ℕ → List PollFd → Type 0
  Agreeing listener =
      All (λ p. (is_server listener p.fd ≡ false) × (has_event p.revents ≡ contains p.fd fds))

  -- What a pass makes of the state, from what the pass of runSelect makes of the rest of the clients.
  abbrev pub after_pass :
      Server → List ℕ → List PollFd → List PollFd → List ℕ → Io fs.Disk (Server × List PollFd)
  after_pass s before seen rest left =
      pure (record s { client_sockets = before ++ left }, seen ++ kept rest)

  module _ (s : Server) (before : List ℕ) (seen : List PollFd) (w : World fs.Disk) where
    pass_ends :
        s.client_sockets ≡ before ++ []
        → pure {D = fs.Disk} (s, seen ++ []) w ≡ (pure [] >>= after_pass s before seen []) w
    unfolding ◌>>=◌ pure kept
    pass_ends e = ap (λ cs. (ok (record s { client_sockets = cs }, seen ++ []), w)) e

    pass_stops :
        s.client_sockets ≡ before ++ []
        → pure {D = fs.Disk} (s, seen) w ≡ (pure [] >>= after_pass s before seen []) w
    unfolding pure
    pass_stops e = ap (λ ps. (ok (s, ps), w)) (sym (append-nil seen)) ∙ pass_ends e

    module _ (p : PollFd) (rest : List PollFd)
        (onward : Server → List PollFd → List PollFd → Io fs.Disk (Server × List PollFd))
        (select : Io fs.Disk (List ℕ)) where
      quiet_left :
          has_event p.revents ≡ false
          → (left : List ℕ) (v : World fs.Disk)
          → (pure (p.fd ∷ left) >>= after_pass s before seen (p ∷ rest)) v
            ≡ after_pass s (before ++ p.fd ∷ []) (seen ++ p ∷ []) rest left v
      unfolding ◌>>=◌ pure kept
      quiet_left quiet left v = rw (quiet, append_assoc, append_assoc) refl

      closing :
          has_event p.revents ≡ true
          → ((v : World fs.Disk)
              → onward (record s { client_sockets = erase p.fd s.client_sockets }) seen rest v
                ≡ (select >>= after_pass s before seen rest) v)
          → (v : World fs.Disk)
          → (close p.fd >>= λ _. select >>= after_pass s before seen (p ∷ rest)) v
            ≡ (close_client p.fd s >>= λ s'. onward s' seen rest) v
      unfolding ◌>>=◌ pure close close_client
      closing event same v =
          ap
            (λ ks.
              (close p.fd >>= λ _.
              select >>= λ left. pure (record s { client_sockets = before ++ left }, seen ++ ks))
                v)
            (kept-event p rest event)
          ∙ sym (same _)

      quiet_step :
          has_event p.revents ≡ false
          → onward s (seen ++ p ∷ []) rest w
            ≡ (select >>= after_pass s (before ++ p.fd ∷ []) (seen ++ p ∷ []) rest) w
          → onward s (seen ++ p ∷ []) rest w
            ≡ (select >>= (λ left. pure (p.fd ∷ left)) >>= after_pass s before seen (p ∷ rest)) w
      quiet_step quiet same =
          same ∙ sym (bind_assoc select _ _ w ∙ bind_congr select _ _ w (quiet_left quiet))

      closed_step :
          has_event p.revents ≡ true
          → ((v : World fs.Disk)
              → onward (record s { client_sockets = erase p.fd s.client_sockets }) seen rest v
                ≡ (select >>= after_pass s before seen rest) v)
          → (serve fs s.storage_path p.fd >>= λ _.
                close_client p.fd s >>= λ s'. onward s' seen rest)
              w
            ≡ ((serve fs s.storage_path p.fd >>= λ _. close p.fd >>= λ _. select)
                  >>= after_pass s before seen (p ∷ rest))
                w
      closed_step event same = sym (
          bind_assoc (serve fs s.storage_path p.fd) _ _ w
          ∙ bind_congr (serve fs s.storage_path p.fd) _ _ w
              (λ _ v. bind_assoc (close p.fd) _ _ v ∙ closing event same v))

  pub pass_selects :
      (rest : List PollFd) (steps : ℕ) (s : Server) (before : List ℕ) (seen : List PollFd)
      (w : World fs.Disk)
      → length rest ≤ steps
      → Agreeing s.server_socket rest
      → s.client_sockets ≡ before ++ descriptors rest
      → IsDistinct (before ++ descriptors rest)
      → poll_pass fs steps s seen rest w
        ≡ (serve_selected fs s.storage_path fds (descriptors rest)
              >>= after_pass s before seen rest)
            w
  unfolding poll_pass serve_selected
  pass_selects [] zero s before seen w a g e u = pass_ends s before seen w e
  pass_selects [] (suc steps) s before seen w a g e u = pass_stops s before seen w e
  pass_selects (p ∷ rest) zero s before seen w a g e u = absurd (omega (arith, a))
  pass_selects (p ∷ rest) (suc steps) s before seen w a (g, gs) e u =
      elim (Bool-cases (contains p.fd fds)) [
        | inr quiet ↦
            rw (g.1, quiet)
              (quiet_step s before seen w p rest (poll_pass fs steps) _ (g.1 ∙ quiet) (
                pass_selects rest steps s (before ++ p.fd ∷ []) (seen ++ p ∷ []) w
                  (omega (arith, a)) gs
                  (e ∙ sym (append_assoc before (p.fd ∷ []) (descriptors rest)))
                  (subst IsDistinct (sym (append_assoc before (p.fd ∷ []) (descriptors rest))) u)))
        | inl event ↦
            rw (g.1, g.0, event)
              (closed_step s before seen w p rest (poll_pass fs steps) _ (g.1 ∙ event) (λ v.
                pass_selects rest steps (record s { client_sockets = erase p.fd s.client_sockets })
                  before seen v (omega (arith, a)) gs
                  (ap (erase p.fd) e
                    ∙ erase-append p.fd before (descriptors rest)
                        (IsDistinct-before p.fd before (descriptors rest) u))
                  (IsDistinct-rest p.fd before (descriptors rest) u)))
      ]
