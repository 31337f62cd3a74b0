-- ===== src/Tests/Requests.antt =====
-- The requests of the storage protocol (FileStorageServer.cpp) on concrete bytes: runs, and the
-- theorems at the same inputs.
use network_all_in_one.Prelude.{◌≡◌, refl, true, [], ◌∷◌, ◌++◌, none, some, arith, take}
use network_all_in_one.Text.{
  Bytes, ok, of_int, stoi, ◌>>=◌, is_digit, value_from, find, substr, starts_with,
}
use network_all_in_one.Text.Numeral.{IsNumeral}
use network_all_in_one.Kernel
use network_all_in_one.Kernel.{World, lift}
use network_all_in_one.Storage.Disk.{
  Files, memory, memory_laws, memory_flush, memory_open, memory_write, memory_remove,
}
use network_all_in_one.Storage.Request.{put_prefix, parse_put, resolve_path}
use network_all_in_one.Storage.Request.Wire.{put_wire, IsFramed, parse_put-put_wire}
use network_all_in_one.Storage.Reader.{read_request}
use network_all_in_one.Storage.Reader.Framing.{IsDelivered, read_request-put_wire}
use network_all_in_one.Storage.Reader.Bounds.{Bounded, read_request-Bounded}
use network_all_in_one.Storage.Reader.Gathering.{Reads, read_request-Reads}
use network_all_in_one.Storage.Handlers.{
  handle_request, put_file, write_file, write_open, delete_file, remove_file, ok_reply,
}
use network_all_in_one.Storage.Handlers.Replies.{
  IsPut, get_wire, delete_wire, get_after_put, get_after_put_no_content,
}
use network_all_in_one.Storage.Handlers.Effects.{
  OnlyDisk, ThrowsBy, handle_request-OnlyDisk, handle_request_reads, handle_request-ThrowsBy,
}
use network_all_in_one.Storage.Sender.{send_all}
use network_all_in_one.Storage.Sender.Delivery.{received_by, Delivered, send_all-Delivered}

-- A file "a" with the content "hi", and its PUT request, "PUT a 2 hi".
abbrev pub a_path : Bytes
a_path = b'a' ∷ []

abbrev pub two : Bytes
two = b'2' ∷ []

abbrev pub hi : Bytes
hi = b'h' ∷ b'i' ∷ []

abbrev pub storage : Bytes
storage = b'.' ∷ []

abbrev pub calm : World Files
calm = record {
  disk = [];
  recvs = [];
  sends = some 1 ∷ none ∷ [];
  opens = [];
  statuses = [];
  flags = λ fd. 0;
  watched = [];
  opened = [];
  closed = [];
  sent = [];
}

a-IsFramed : IsFramed a_path two hi
a-IsFramed = omega arith

a-IsFramed-short : IsFramed a_path two []
a-IsFramed-short = omega arith

two-IsNumeral : IsNumeral two
unfolding is_digit
two-IsNumeral = record { digits = (refl, tt); nonempty = λ e. cc }

pub a-IsPut : IsPut a_path two hi
unfolding value_from
a-IsPut = record {
  framed = a-IsFramed;
  numeral_fine = two-IsNumeral;
  covered = omega arith;
  within_int = omega arith;
}

pub a-IsDelivered : IsDelivered a_path two [] ((b'h' ∷ []) ∷ (b'i' ∷ []) ∷ []) hi
unfolding value_from
a-IsDelivered = record {
  framed = a-IsFramed;
  numeral_fine = two-IsNumeral;
  counted = refl;
  within_int = omega arith;
  whole = refl;
  first_fits = omega arith;
  pieces = omega arith;
}

-- A run: "PUT a 2 hi" is taken apart.
parse_put_a : parse_put (put_wire a_path two hi) ≡ ok (a_path, hi)
unfolding parse_put find substr stoi
parse_put_a = refl

parse_put-put_wire_example :
    parse_put (put_wire a_path two hi) ≡ (stoi two >>= λ n. ok (a_path, take (of_int n) hi))
parse_put-put_wire_example = parse_put-put_wire a_path two hi a-IsFramed

read_request-put_wire_example :
    read_request 4 (record calm {
      recvs = some (put_wire a_path two []) ∷ some (b'h' ∷ []) ∷ some (b'i' ∷ []) ∷ none ∷ [];
    })
    ≡ (ok (put_wire a_path two hi), record calm { recvs = none ∷ [] })
read_request-put_wire_example =
    read_request-put_wire a_path two [] ((b'h' ∷ []) ∷ (b'i' ∷ []) ∷ []) hi a-IsDelivered 4
      (none ∷ []) calm

-- The stream fails behind the first byte of the content.
read_request-Reads_example :
    Reads a_path two [] a-IsFramed-short (some (b'h' ∷ []) ∷ none ∷ []) calm (
      read_request 4
        (record calm { recvs = some (put_wire a_path two []) ∷ some (b'h' ∷ []) ∷ none ∷ [] }))
unfolding value_from
read_request-Reads_example =
    read_request-Reads a_path two [] a-IsFramed-short 4 (some (b'h' ∷ []) ∷ none ∷ []) calm
      two-IsNumeral (omega arith) (omega arith)

-- The length field is 2, and two pieces follow, of which the second is not taken.
read_request-Bounded_example : Bounded a_path two [] a-IsFramed-short (
    read_request 4 (record calm { recvs = some (put_wire a_path two []) ∷ some hi ∷ some hi ∷ [] }))
unfolding value_from
read_request-Bounded_example =
    read_request-Bounded a_path two [] a-IsFramed-short 4 (some hi ∷ some hi ∷ []) calm
      two-IsNumeral (omega arith) (omega arith)

pub flushed : (d : Files) (p : Bytes) → (memory_flush d p).1 ≡ true
unfolding memory_flush
flushed d p = refl

-- The runs of a PUT and of a DELETE over the disk in memory.
put_a_runs :
    handle_request memory storage (put_wire a_path two hi) calm
    ≡ (ok ok_reply, record calm { disk = (a_path, hi) ∷ [] })
unfolding handle_request put_file write_file write_open parse_put find substr stoi starts_with
    resolve_path memory_open memory_write memory_flush lift Kernel.◌>>=◌
put_a_runs = refl

delete_a_runs :
    handle_request memory storage (delete_wire a_path) (record calm { disk = (a_path, hi) ∷ [] })
    ≡ (ok ok_reply, calm)
unfolding handle_request delete_file remove_file substr starts_with resolve_path memory_remove lift
    Kernel.◌>>=◌
delete_a_runs = refl

get_after_put_example :
    handle_request memory storage (get_wire a_path) (record calm { disk = (a_path, hi) ∷ [] })
    ≡ (ok hi, record calm { disk = (a_path, hi) ∷ [] })
get_after_put_example =
    get_after_put memory memory_laws storage a_path two hi calm
      (record calm { disk = (a_path, hi) ∷ [] }) a-IsPut flushed put_a_runs

send_all-Delivered_example : Delivered 4 [] hi (send_all 4 hi calm)
unfolding received_by
send_all-Delivered_example = send_all-Delivered 4 hi calm

handle_request-OnlyDisk_example :
    OnlyDisk memory calm (handle_request memory storage (put_wire a_path two hi) calm).1
handle_request-OnlyDisk_example =
    handle_request-OnlyDisk memory storage (put_wire a_path two hi) calm

handle_request_reads_example : (handle_request memory storage (get_wire a_path) calm).1 ≡ calm
unfolding starts_with
handle_request_reads_example = handle_request_reads memory storage (get_wire a_path) calm refl refl

handle_request-ThrowsBy_example :
    ThrowsBy memory
      (put_prefix ++ a_path)
      calm
      (handle_request memory storage (put_prefix ++ a_path) calm)
handle_request-ThrowsBy_example = handle_request-ThrowsBy memory storage (put_prefix ++ a_path) calm

-- "PUT a 2" is answered "OK", and what is stored is "PU".
abbrev with_pu : World Files
with_pu = record calm { disk = (a_path, b'P' ∷ b'U' ∷ []) ∷ [] }

put_nothing_runs :
    handle_request memory storage (put_prefix ++ (a_path ++ b' ' ∷ two)) calm
    ≡ (ok ok_reply, with_pu)
unfolding handle_request put_file write_file write_open parse_put find substr stoi starts_with
    resolve_path memory_open memory_write memory_flush lift Kernel.◌>>=◌
put_nothing_runs = refl

get_after_put_no_content_example :
    handle_request memory storage (get_wire a_path) with_pu ≡ (ok (b'P' ∷ b'U' ∷ []), with_pu)
unfolding value_from
get_after_put_no_content_example =
    get_after_put_no_content memory memory_laws storage a_path two calm with_pu (omega arith)
      two-IsNumeral (omega arith) flushed put_nothing_runs
