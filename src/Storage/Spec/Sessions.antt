-- ===== src/Storage/Spec/Sessions.antt =====
-- Clients that are answered one after the other, as the specification allows; and that serving one
-- (FileStorageServer.cpp) does so.
pub mod Series
pub mod Sync
pub mod Select
pub mod Poll
pub mod Epoll
pub mod EpollLoop
pub mod SelectSets
pub mod SelectTurns
pub mod SelectLoop
pub mod PollPasses
pub mod PollTurns
pub mod PollRounds
pub mod PollLoop
use network_all_in_one.Prelude.{
  ℕ, true, zero, suc, ◌≡◌, refl, sym, ap, subst, ◌∙◌, List, [], ◌∷◌, ◌++◌, map, Option, none, some,
  arith, length, append_assoc, erase,
}
use network_all_in_one.Text.{Bytes, Result, ok, throws, ℤ, pos, negsuc}
use network_all_in_one.Kernel.{World, Io, pure, close, open_descriptor, next_count, ◌>>=◌, proceed}
use network_all_in_one.Storage.Disk.{FileSystem, FileSystemLaws}
use network_all_in_one.Storage.Disk.Names.{FileNames}
use network_all_in_one.Storage.Sender.Telling.{Told, talk}
use network_all_in_one.Storage.Server.{Server, serve, remember, close_client}
use network_all_in_one.Storage.Loops.{serve_accepted, sync_round, run_sync}
use network_all_in_one.Storage.Spec.{Command, Step}
use network_all_in_one.Storage.Spec.Handler.{view, ApartIn}
use network_all_in_one.Storage.Spec.Clients.{Delivers, Answered, Outcome, serve-Outcome}

-- A client: its descriptor, what it asks, and the pieces in which its bytes come.
pub record Client : Type 0 where
  pub fd : ℕ
  pub command : Command
  pub stream : List (Option Bytes)

-- The clients' bytes, and what accept returns for them.
abbrev pub streams : List Client → List (Option Bytes)
streams [] = []
streams (c ∷ cs) = c.stream ++ streams cs

abbrev pub accepts : List Client → List (Option ℕ)
accepts [] = []
accepts (c ∷ cs) = some c.fd ∷ accepts cs

abbrev pub AllDeliver : List Client → Type 0
AllDeliver [] = Unit
AllDeliver (c ∷ cs) = Delivers c.command c.stream × AllDeliver cs

module _ (fs : FileSystem) (laws : FileSystemLaws fs) (names : FileNames fs)
    (flushed : (d : fs.Disk) (p : Bytes) → (fs.flush d p).1 ≡ true) where
  module _ (storage_path : Bytes) where
    abbrev pub Answers : Client → World fs.Disk → World fs.Disk → Type 0
    Answers c w v = Answered fs laws names storage_path flushed c.fd c.command w v

    -- The clients have been answered, each over the files that the one before it left. What was sent
    -- from `w` to `v` is what each was sent, in their order, and nothing else.
    pub data Session : List Client → World fs.Disk → World fs.Disk → Type 0 where
      over : {w v : World fs.Disk} → v.disk ≡ w.disk → talk v ≡ talk w → Session [] w v
      next :
          {c : Client} {cs : List Client} {w v u : World fs.Disk}
          → Answers c w v
          → Session cs v u
          → Session (c ∷ cs) w u

    -- An answer is a matter of the files and of the bytes that left.
    pub answer_stands :
        (c : Client) (w v u : World fs.Disk)
        → u.disk ≡ v.disk
        → talk u ≡ talk v
        → Answers c w v
        → Answers c w u
    answer_stands c w v u e f a = record {
      reply = a.reply;
      step =
          subst
            (λ d.
              Step (ApartIn fs laws names storage_path flushed)
                (view fs laws names storage_path flushed w.disk)
                (view fs laws names storage_path flushed d) c.command a.reply)
            (sym e) a.step;
      delivery = subst (λ t. Told c.fd a.reply (talk w) t) (sym f) a.delivery;
    }

    answer_from :
        (c : Client) (w u v : World fs.Disk)
        → u.disk ≡ w.disk
        → talk u ≡ talk w
        → Answers c u v
        → Answers c w v
    answer_from c w u v e f a = record {
      reply = a.reply;
      step =
          subst
            (λ d.
              Step (ApartIn fs laws names storage_path flushed)
                (view fs laws names storage_path flushed d)
                (view fs laws names storage_path flushed v.disk) c.command a.reply)
            e a.step;
      delivery = subst (λ t. Told c.fd a.reply t (talk v)) f a.delivery;
    }

    -- A session may start from any world with the same files and the same bytes sent.
    pub starts_from :
        {cs : List Client} (w u v : World fs.Disk)
        → u.disk ≡ w.disk
        → talk u ≡ talk w
        → Session cs u v
        → Session cs w v
    starts_from w u v e f (over g h) = over (g ∙ e) (h ∙ f)
    starts_from w u v e f (next {c = c} {v = x} a t) = next (answer_from c w u x e f a) t

    -- A session behind a session.
    pub followed_by :
        {cs ds : List Client} (w v u : World fs.Disk)
        → Session cs w v
        → Session ds v u
        → Session (cs ++ ds) w u
    followed_by w v u (over e f) t = starts_from w v u e f t
    followed_by w v u (next {v = x} a s) t = next a (followed_by x v u s t)

    abbrev pub Served : Client → List (Option Bytes) → World fs.Disk → Type 0
    Served c more w =
        (v : World fs.Disk) × (serve fs storage_path c.fd w ≡ (ok tt, v))
        × Answers c w v
        × (v.recvs ≡ more)
        × (v.opens ≡ w.opens)

    -- What serving makes of a client whose command arrives.
    pub serve_client :
        (c : Client) (more : List (Option Bytes)) (w : World fs.Disk)
        → Delivers c.command c.stream
        → w.recvs ≡ c.stream ++ more
        → Served c more w
    serve_client c more w d e =
        subst (Served c more) (λ i. record w { recvs = sym e i })
          (let (v, r, a, x, o) =
              serve-Outcome fs laws names storage_path flushed c.fd c.command c.stream more w d in
            (v, r, record { reply = a.reply; step = a.step; delivery = a.delivery }, x, o))
