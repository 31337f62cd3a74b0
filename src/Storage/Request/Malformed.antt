-- ===== src/Storage/Request/Malformed.antt =====
-- What parse_put (putFile of FileStorageServer.cpp) makes of requests that lack a field: the tests
-- for npos that readRequest has are missing there.
use network_all_in_one.Prelude.{
  ◌^◌, ◌≤◌, ◌<◌, ◌≡◌, refl, [], ◌∷◌, ◌++◌, append_assoc, arith, length, take, length-append,
}
use network_all_in_one.Text.{
  Bytes, ok, throws, invalid_argument, pos, npos, add_size, sub_size, of_int, int_max, find, substr,
  stoi,
}
use network_all_in_one.Text.Search.{
  Without, find_field, find_missing, substr_field, substr_rest, substr-append,
}
use network_all_in_one.Text.Numeral.{
  IsNumeral, value, stoi_numeral, stoi_junk, letter-IsJunk, digits-Without,
}
use network_all_in_one.Storage.Request.{put_prefix, length_field, parse_put}
use network_all_in_one.Storage.Request.Wire.{path_end}

module _ (path : Bytes) (plain : Without b' ' path) (small : length path < 2 ^ 62) where
  wrapped : find (put_prefix ++ path) b' ' (add_size npos 1) ≡ 3
  wrapped = find_field b' ' 0 [] (b'P' ∷ b'U' ∷ b'T' ∷ []) path refl (omega arith)

  word : length_field (put_prefix ++ path) npos 3 ≡ ok (b'P' ∷ b'U' ∷ b'T' ∷ [])
  unfolding length_field
  word = substr_field 0 3 [] (b'P' ∷ b'U' ∷ b'T' ∷ []) (b' ' ∷ path) refl refl

  not_number : stoi (b'P' ∷ b'U' ∷ b'T' ∷ []) ≡ throws invalid_argument
  not_number = stoi_junk b'P' (b'U' ∷ b'T' ∷ []) (letter-IsJunk b'P' (omega arith))

  -- Of "PUT " and a path without a space and with nothing behind it, below 2 ^ 62 bytes: parse_put
  -- throws std::invalid_argument. (The first search fails, npos + 1 is 0, and the length is read from
  -- the command word.)
  pub parse_put_no_length : parse_put (put_prefix ++ path) ≡ throws invalid_argument
  unfolding parse_put
  parse_put_no_length = rw (find_missing b' ' 4 put_prefix path refl plain) (
      rw (
        wrapped,
        substr_rest 4 (sub_size npos 4) put_prefix path refl (omega arith),
        word,
        not_number,
      ))

  module _ (numeral : Bytes) (h : IsNumeral numeral) (fits : value numeral ≤ int_max)
      (short : length numeral < 2 ^ 62) where
    front : Bytes
    front = put_prefix ++ (path ++ b' ' ∷ [])

    request : Bytes
    request = put_prefix ++ (path ++ b' ' ∷ numeral)

    cut : request ≡ front ++ numeral
    unfolding request front
    cut = simp append_assoc

    after_path : add_size (path_end path) 1 ≡ length front
    unfolding front
    after_path = omega (arith, small, length-append path (b' ' ∷ []))

    second_find : find request b' ' (add_size (path_end path) 1) ≡ npos
    second_find =
        rw cut (find_missing b' ' _ front numeral after_path (digits-Without numeral h.digits))

    field : length_field request (path_end path) npos ≡ ok numeral
    unfolding length_field
    field = rw cut (substr_rest _ _ front numeral after_path (omega (arith, small, short)))

    path_piece : substr request 4 (sub_size (path_end path) 4) ≡ ok path
    unfolding request
    path_piece = substr_field 4 _ put_prefix path (b' ' ∷ numeral) refl (omega (arith, small))

    content :
        substr request (add_size npos 1) (of_int (pos (value numeral)))
        ≡ ok (take (value numeral) request)
    content = substr-append 0 (value numeral) [] request refl

    -- Of "PUT ", a path without a space, a space and a length field of digits that is an int, with
    -- nothing behind it, path and field each below 2 ^ 62 bytes: parse_put gives the path, and the first bytes of the
    -- request itself, as many as the field says, for the content. (The second search fails, and
    -- npos + 1 is 0.)
    pub parse_put_no_content :
        parse_put (put_prefix ++ (path ++ b' ' ∷ numeral))
        ≡ ok (path, take (value numeral) (put_prefix ++ (path ++ b' ' ∷ numeral)))
    unfolding parse_put request
    parse_put_no_content =
        rw
          (
            find_field b' ' 4 put_prefix path numeral refl plain,
            second_find,
            path_piece,
            field,
            stoi_numeral numeral h fits,
          )
          (rw content)
