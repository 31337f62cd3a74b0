-- ===== src/Storage/Spec/Clients.antt =====
-- What the server does for one client, from its bytes to the reply (FileStorageServer.cpp): the
-- reader, the handlers and the sender put together.
use network_all_in_one.Prelude.{
  ℕ, ◌≤◌, ◌≡◌, refl, sym, subst, ◌∙◌, true, inl, inr, List, [], ◌∷◌, ◌++◌, map, Option, some, arith,
  length,
}
use network_all_in_one.Text.{Bytes, Result, ok, throws, ℤ, pos, negsuc, starts_with}
use network_all_in_one.Kernel.{World, pure, send, ◌>>=◌, proceed}
use network_all_in_one.Kernel.Actions.{Keeps}
use network_all_in_one.Storage.Disk.{FileSystem, FileSystemLaws}
use network_all_in_one.Storage.Disk.Names.{FileNames}
use network_all_in_one.Storage.Request.{buffer_size}
use network_all_in_one.Storage.Request.Wire.{put_wire}
use network_all_in_one.Storage.Reader.{read_request, continue_request}
use network_all_in_one.Storage.Reader.Framing.{IsDelivered, read_first, read_request-put_wire}
use network_all_in_one.Storage.Handlers.{handle_request}
use network_all_in_one.Storage.Handlers.Replies.{get_wire, delete_wire}
use network_all_in_one.Storage.Sender.{send_all}
use network_all_in_one.Storage.Sender.Keeping.{send_all-Keeps}
use network_all_in_one.Storage.Sender.Telling.{Told, Tells, talk, send_all-Tells}
use network_all_in_one.Storage.Server.{serve, respond}
use network_all_in_one.Storage.Spec.{Command, get, put, delete, Step}
use network_all_in_one.Storage.Spec.Handler.{
  wire, IsCommand, view, ApartIn, Refines, handle_request-Refines,
}

-- How a command may come: in one piece, or with the content of a PUT in further pieces.
pub data Delivers : Command → List (Option Bytes) → Type 0 where
  in_one_get :
      (path : Bytes)
      → length (get_wire path) ≤ buffer_size
      → Delivers (get path) (some (get_wire path) ∷ [])
  in_one_delete :
      (path : Bytes)
      → length (delete_wire path) ≤ buffer_size
      → Delivers (delete path) (some (delete_wire path) ∷ [])
  in_pieces :
      (path numeral part : Bytes) (chunks : List Bytes) (content : Bytes)
      → IsDelivered path numeral part chunks content
      → Delivers (put path numeral content) (some (put_wire path numeral part) ∷ map some chunks)

pub Delivers-IsCommand :
    {c : Command} {stream : List (Option Bytes)} → Delivers c stream → IsCommand c
Delivers-IsCommand (in_one_get path h) = omega (arith, h)
Delivers-IsCommand (in_one_delete path h) = omega (arith, h)
Delivers-IsCommand (in_pieces path numeral part chunks content d) = record {
  framed = d.framed;
  numeral_fine = d.numeral_fine;
  covered = omega (arith, d.counted);
  within_int = omega (arith, d.counted, d.within_int);
}

module _ {D : Type 0} (fd : ℕ) (rest : List (Option Bytes)) (w : World D) where
  -- The reader gets the whole command, and leaves what follows it.
  read_wire :
      {c : Command} {stream : List (Option Bytes)}
      → Delivers c stream
      → read_request fd (record w { recvs = stream ++ rest })
        ≡ (ok (wire c), record w { recvs = rest })
  unfolding continue_request starts_with pure
  read_wire (in_one_get path h) = read_first fd b'G' _ rest w h
  read_wire (in_one_delete path h) = read_first fd b'D' _ rest w h
  read_wire (in_pieces path numeral part chunks content d) =
      read_request-put_wire path numeral part chunks content d fd rest w

-- No command is the empty request.
respond-wire :
    (fs : FileSystem) (storage_path : Bytes) (fd : ℕ) (c : Command) (w : World fs.Disk)
    → respond fs storage_path fd (wire c) w
      ≡ (handle_request fs storage_path (wire c) >>= λ response.
            send_all fd response >>= λ _. pure tt)
          w
unfolding respond
respond-wire fs storage_path fd (get path) w = refl
respond-wire fs storage_path fd (put path numeral content) w = refl
respond-wire fs storage_path fd (delete path) w = refl

-- What sending leaves alone.
abbrev pub Rest : {D : Type 0} → World D → World D → Type 0
Rest w v = (v.disk ≡ w.disk) × (v.recvs ≡ w.recvs) × (v.opens ≡ w.opens)

send-Rest : {D : Type 0} (w : World D) (fd : ℕ) (bs : Bytes) (n : ℕ) → Keeps (Rest w) (send fd bs n)
unfolding send
send-Rest w fd bs n = record { at = λ v h. ground arith }

module _ (fs : FileSystem) (laws : FileSystemLaws fs) (names : FileNames fs) (storage_path : Bytes)
    (flushed : (d : fs.Disk) (p : Bytes) → (fs.flush d p).1 ≡ true) where
  -- A client has been answered: the reply and the files follow the specification; the client has been
  -- sent the reply, or a proper part of it where the kernel then refused a send; and nothing else was
  -- sent.
  pub record Answered (fd : ℕ) (c : Command) (w v : World fs.Disk) : Type 0 where
    pub reply : Bytes
    pub step :
        Step
          (ApartIn fs laws names storage_path flushed)
          (view fs laws names storage_path flushed w.disk)
          (view fs laws names storage_path flushed v.disk)
          c
          reply
    pub delivery : Told fd reply (talk w) (talk v)

  abbrev pub Outcome : ℕ → Command → World fs.Disk → Result (Unit {0}) × World fs.Disk → Type 0
  Outcome fd c w r =
      (v : World fs.Disk) × (r ≡ (ok tt, v))
      × Answered fd c w v
      × (v.recvs ≡ w.recvs)
      × (v.opens ≡ w.opens)

  module _ (fd : ℕ) (c : Command) (w : World fs.Disk) where
    replied :
        (reply : Bytes) (u v : World fs.Disk)
        → Refines fs laws names storage_path flushed c w (ok reply, u)
        → Told fd reply (talk u) (talk v)
        → Rest u v
        → Outcome fd c w (ok tt, v)
    replied reply u v h d k = (
      v,
      refl,
      record {
        reply = reply;
        step =
            subst
              (λ d.
                Step (ApartIn fs laws names storage_path flushed)
                  (view fs laws names storage_path flushed w.disk)
                  (view fs laws names storage_path flushed d) c reply)
              (sym k.0) h.1;
        delivery = subst (λ t. Told fd reply t (talk v)) (λ i. talk (h.0 i)) d;
      },
      k.1 ∙ (λ i. (h.0 i).recvs),
      k.2 ∙ (λ i. (h.0 i).opens),
    )

    after_reply :
        (reply : Bytes) (u : World fs.Disk) (r : Result ℤ) (v : World fs.Disk)
        → Refines fs laws names storage_path flushed c w (ok reply, u)
        → Tells fd reply (talk u) (r, v)
        → Rest u v
        → Outcome fd c w (proceed r (λ _. pure tt) v)
    unfolding pure
    after_reply reply u (ok (pos n)) v h d k = replied reply u v h (inl d.1) k
    after_reply reply u (ok (negsuc n)) v h d k = replied reply u v h (inr d.1) k
    after_reply reply u (throws x) v h d k = absurd d

    after_handling :
        (r : Result Bytes) (u : World fs.Disk)
        → Refines fs laws names storage_path flushed c w (r, u)
        → Outcome fd c w (proceed r (λ response. send_all fd response >>= λ _. pure tt) u)
    unfolding ◌>>=◌
    after_handling (ok reply) u h =
        after_reply reply u (send_all fd reply u).0 (send_all fd reply u).1 h
          (send_all-Tells fd reply u)
          ((send_all-Keeps (Rest u) (send-Rest u) fd reply).at u (refl, refl, refl))
    after_handling (throws x) u h = absurd h

    answers : IsCommand c → Outcome fd c w (respond fs storage_path fd (wire c) w)
    unfolding ◌>>=◌
    answers h = rw (respond-wire fs storage_path fd c w) (
        after_handling (handle_request fs storage_path (wire c) w).0
          (handle_request fs storage_path (wire c) w).1
          (handle_request-Refines fs laws names storage_path flushed c w h))

  pub serve-Outcome :
      (fd : ℕ) (c : Command) (stream rest : List (Option Bytes)) (w : World fs.Disk)
      → Delivers c stream
      → Outcome fd c
          (record w { recvs = rest })
          (serve fs storage_path fd (record w { recvs = stream ++ rest }))
  unfolding serve ◌>>=◌
  serve-Outcome fd c stream rest w d =
      rw (read_wire fd rest w d) (answers fd c (record w { recvs = rest }) (Delivers-IsCommand d))
