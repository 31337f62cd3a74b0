-- ===== src/Storage/Request/Paths.antt =====
-- resolvePath of FileStorageServer.cpp: it keeps files apart, and a slash behind the storage path does
-- not matter.
use network_all_in_one.Prelude.{
  ℕ, ◌≡◌, refl, ap, false, arith, append_assoc, ◌||◌, [], ◌∷◌, ◌++◌, bytes_eq, Bool-cases, inl, inr,
}
use network_all_in_one.Text.{Bytes}
use network_all_in_one.Storage.Request.{resolve_path, last_byte, ends_in_slash, is_empty}

append_cancel : (front xs ys : Bytes) → front ++ xs ≡ front ++ ys → xs ≡ ys
append_cancel [] xs ys e = e
append_cancel (b ∷ front) xs ys e = append_cancel front xs ys (cc)

-- Two request paths that are resolved to the same name are the same, whatever the storage path is.
resolve_path_injective :
    (storage_path p q : Bytes) → resolve_path storage_path p ≡ resolve_path storage_path q → p ≡ q
unfolding resolve_path
resolve_path_injective storage_path p q e =
    elim (Bool-cases (is_empty storage_path || bytes_eq storage_path (b'.' ∷ []))) [
      | inl here ↦ rw here at e
      | inr elsewhere ↦ (elim (Bool-cases (ends_in_slash storage_path)) [
        | inl slash ↦ append_cancel storage_path p q (rw (elsewhere, slash) at e)
        | inr plain ↦
            after_slash
              (append_cancel storage_path (b'/' ∷ p) (b'/' ∷ q) (rw (elsewhere, plain) at e))
      ])
    ]
  where
    after_slash : b'/' ∷ p ≡ b'/' ∷ q → p ≡ q
    after_slash k = cc

last_byte-append : (b : ℕ) (xs : Bytes) → last_byte b (xs ++ b'/' ∷ []) ≡ b'/'
unfolding last_byte
last_byte-append b [] = refl
last_byte-append b (c ∷ xs) = last_byte-append c xs

not_here : (b : ℕ) (xs : Bytes) → bytes_eq (b ∷ (xs ++ b'/' ∷ [])) (b'.' ∷ []) ≡ false
not_here b [] = ground arith
not_here b (c ∷ xs) = ground arith

-- It does not matter whether the storage path ends in a slash: where it is neither empty nor "." and
-- does not end in one, every request path is resolved to the same name with a slash behind the
-- storage path as without, and that name is the request path behind the storage path and one slash.
pub resolve_path_slash :
    (storage_path p : Bytes)
    → is_empty storage_path ≡ false
    → bytes_eq storage_path (b'.' ∷ []) ≡ false
    → ends_in_slash storage_path ≡ false
    → (resolve_path (storage_path ++ b'/' ∷ []) p ≡ resolve_path storage_path p)
      × (resolve_path storage_path p ≡ storage_path ++ b'/' ∷ p)
unfolding resolve_path is_empty ends_in_slash
resolve_path_slash [] p e h k = cc
resolve_path_slash (b ∷ xs) p e h k = (
  rw (h, k, not_here b xs, last_byte-append b xs) (ap (◌∷◌ b) (append_assoc xs (b'/' ∷ []) p)),
  rw (h, k) refl,
)
