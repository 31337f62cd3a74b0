-- ===== src/Storage/Request/Wire.antt =====
-- The wire form of a PUT request, and how parse_put takes it apart.
use network_all_in_one.Prelude.{
  ℕ, ◌+◌, ◌^◌, ◌<◌, ◌≡◌, refl, ◌∙◌, [], ◌∷◌, ◌++◌, append_assoc, arith, length, take, length-append,
}
use network_all_in_one.Text.{
  Bytes, ◌>>=◌, ℤ, Result, ok, throws, add_size, sub_size, of_int, find, substr, stoi,
}
use network_all_in_one.Text.Search.{Without, find_field, substr_field, substr-append}
use network_all_in_one.Storage.Request.{put_prefix, length_field, parse_put}

-- "PUT " path " " field " "
abbrev pub put_header : Bytes → Bytes → Bytes
put_header path field = put_prefix ++ (path ++ b' ' ∷ (field ++ b' ' ∷ []))

-- A PUT request in the form of the protocol: the header, and the bytes behind it.
abbrev pub put_wire : Bytes → Bytes → Bytes → Bytes
put_wire path field body = put_prefix ++ (path ++ b' ' ∷ (field ++ b' ' ∷ body))

-- Where the two spaces stand.
abbrev pub path_end : Bytes → ℕ
path_end path = 4 + length path

abbrev pub length_end : Bytes → Bytes → ℕ
length_end path field = 4 + length path + 1 + length field

-- No space in the first two fields, and a size that a memory can have.
pub record IsFramed (path field body : Bytes) : Type 0 where
  pub path_plain : Without b' ' path
  pub field_plain : Without b' ' field
  pub size_fits : length path + length field + length body < 2 ^ 62

module _ (path field body : Bytes) where
  pub length-put_wire :
      length (put_wire path field body) ≡ length path + length field + length body + 6
  length-put_wire =
      omega (
        arith,
        length-append path (b' ' ∷ (field ++ b' ' ∷ body)),
        length-append field (b' ' ∷ body),
      )

  pub length-put_header : length (put_header path field) ≡ length path + length field + 6
  length-put_header =
      omega
        (arith, length-append path (b' ' ∷ (field ++ b' ' ∷ [])), length-append field (b' ' ∷ []))

  -- The request, cut before the length field and before the body.
  pub cut_field :
      put_wire path field body ≡ (put_prefix ++ (path ++ b' ' ∷ [])) ++ (field ++ b' ' ∷ body)
  cut_field = simp append_assoc

  pub cut_body : put_wire path field body ≡ put_header path field ++ body
  cut_body = simp append_assoc

module _ (path field body : Bytes) (h : IsFramed path field body) where
  pub find-path_end : find (put_wire path field body) b' ' 4 ≡ path_end path
  find-path_end = find_field b' ' 4 put_prefix path (field ++ b' ' ∷ body) refl h.path_plain

  after_path : add_size (path_end path) 1 ≡ length (put_prefix ++ (path ++ b' ' ∷ []))
  after_path = omega (arith, h.size_fits, length-append path (b' ' ∷ []))

  pub find-length_end :
      find (put_wire path field body) b' ' (add_size (path_end path) 1) ≡ length_end path field
  find-length_end = rw (cut_field path field body) (
      find_field b' ' _ (put_prefix ++ (path ++ b' ' ∷ [])) field body after_path h.field_plain
      ∙ omega (arith, h.size_fits))

  pub length_field-put_wire :
      length_field (put_wire path field body) (path_end path) (length_end path field) ≡ ok field
  unfolding length_field
  length_field-put_wire = rw (cut_field path field body) (
      substr_field _ _ (put_prefix ++ (path ++ b' ' ∷ [])) field (b' ' ∷ body) after_path
        (omega (arith, h.size_fits)))

  pub after_length : add_size (length_end path field) 1 ≡ length (put_header path field)
  after_length = omega (
    arith,
    h.size_fits,
    length-append path (b' ' ∷ (field ++ b' ' ∷ [])),
    length-append field (b' ' ∷ []),
  )

  path_piece : substr (put_wire path field body) 4 (sub_size (path_end path) 4) ≡ ok path
  path_piece =
      substr_field 4 _ put_prefix path (b' ' ∷ (field ++ b' ' ∷ body)) refl
        (omega (arith, h.size_fits))

  body_piece :
      (n : ℤ)
      → substr (put_wire path field body) (add_size (length_end path field) 1) (of_int n)
        ≡ ok (take (of_int n) body)
  body_piece n =
      rw (cut_body path field body)
        (substr-append _ (of_int n) (put_header path field) body after_length)

  finish :
      (r : Result ℤ)
      → stoi field ≡ r
      → parse_put (put_wire path field body) ≡ (r >>= λ n. ok (path, take (of_int n) body))
  unfolding parse_put
  finish (ok n) e =
      rw (find-path_end, find-length_end, path_piece, length_field-put_wire, e) (rw (body_piece n))
  finish (throws x) e = rw (find-path_end, find-length_end, path_piece, length_field-put_wire, e)

  -- Of a request with the frame of the protocol (no space in the path and in the length field, a size
  -- below 2 ^ 62), whatever its length field holds: parse_put reads the field by stoi, fails as stoi
  -- fails, and otherwise gives the path and as much of the body as the number says once it is a
  -- size_t.
  pub parse_put-put_wire :
      parse_put (put_wire path field body) ≡ (stoi field >>= λ n. ok (path, take (of_int n) body))
  parse_put-put_wire = finish (stoi field) refl
