-- ===== src/Bip44/Path.antt =====
-- `PathItem` (bip_44.go): an index of a derivation path is a uint32 whose upper half is hardened.
use leafy.Prelude.{
  ℕ, ◌+◌, ◌-◌, ◌%◌, ◌^◌, Bool, [], ◌∷◌, ◌++◌, leb, if◌then◌else◌, take, length, Bytes, Result, ok,
  ◌>>=◌, map_err, Error,
}
use leafy.Text.{ends_with, parse_uint32, format_uint32}

-- `hdkeychain.HardenedKeyStart`
abbrev pub hardened_key_start : ℕ
hardened_key_start = 2 ^ 31

pub record PathItem : Type 0 where
  pub path : ℕ

unfoldable pub is_hardened : ℕ → Bool
is_hardened path = leb hardened_key_start path

unfoldable pub get_path : ℕ → ℕ
get_path path = if leb hardened_key_start path then path - hardened_key_start else path

-- `Path`
unfoldable pub path_item : ℕ → PathItem
unfolding is_hardened
path_item path =
    if is_hardened path then record { path = path - hardened_key_start } else record { path = path }

-- `PathHardened`; the sum stays below 2 ^ 32.
unfoldable pub path_hardened : ℕ → PathItem
unfolding is_hardened
path_hardened path =
    if is_hardened path
    then record { path = path }
    else record { path = (path + hardened_key_start) % 2 ^ 32 }

unfoldable pub copy : PathItem → PathItem
copy p = record { path = p.path }

unfoldable pub get_derivation_value : PathItem → Bytes
get_derivation_value p =
    format_uint32 (get_path p.path) ++ (if is_hardened p.path then b'\'' ∷ [] else [])

-- `pathDerivation[0:len(pathDerivation)-1]`, where the text ends with a quote.
unfoldable pub without_last : Bytes → Bytes
without_last s = take (length s - 1) s

unfoldable pub parse_path : Bytes → Bytes → Result PathItem
parse_path path_derivation derivation_level =
    if ends_with path_derivation b'\''
    then (do
      path_val ←
          map_err (Error.invalid_path derivation_level)
            (parse_uint32 (without_last path_derivation))
      ok (path_hardened path_val))
    else (do
      path_val ← map_err (Error.invalid_path derivation_level) (parse_uint32 path_derivation)
      ok (path_item path_val))

-- `b.index.path + 1` is a uint32 and wraps.
unfoldable pub sibling_index : PathItem → PathItem
sibling_index index =
    if is_hardened index.path
    then path_hardened ((index.path + 1) % 2 ^ 32)
    else path_item ((index.path + 1) % 2 ^ 32)
