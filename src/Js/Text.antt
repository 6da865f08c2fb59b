-- ===== src/Js/Text.antt =====
-- JavaScript strings as sequences of UTF-16 code units, and the regular expressions that several
-- files of compiler/src share, as tests on those units.
pub mod Order
use Prim.Native.Char.{code}
use xmcl_shared_node_agent.Base.{
  ℕ, ◌+◌, ◌-◌, ◌/◌, ◌%◌, String, Bool, true, false, not, ◌&&◌, ◌||◌, List, [], ◌∷◌, ◌++◌, leb, ltb,
  ◌==◌, if◌then◌else◌, length, all, str_eq,
}

abbrev encode_unit : ℕ → List ℕ → List ℕ
encode_unit c rest =
    if leb 0x10000 c
    then (0xd800 + (c - 0x10000) / 0x400) ∷ (0xdc00 + (c - 0x10000) % 0x400) ∷ rest
    else c ∷ rest

unfoldable pub units : String → List ℕ
units String.[] = []
units (String.◌∷◌ c s) = encode_unit (code c) (units s)

-- `s.length`
unfoldable pub js_length : String → ℕ
unfolding units
js_length s = length (units s)

-- `s` as a condition: the empty string is falsy.
abbrev pub nonempty : String → Bool
nonempty s = not (str_eq s "")

abbrev pub between : ℕ → ℕ → ℕ → Bool
between lo hi c = leb lo c && leb c hi

abbrev pub is_digit : ℕ → Bool
is_digit = between b'0' b'9'

abbrev pub is_upper : ℕ → Bool
is_upper = between b'A' b'Z'

abbrev pub is_alnum : ℕ → Bool
is_alnum c = is_digit c || is_upper c || between b'a' b'z' c

-- `[a-f0-9]`
abbrev pub is_hex : ℕ → Bool
is_hex c = is_digit c || between b'a' b'f' c

-- `[a-f0-9]` under the flag `i`
abbrev pub is_hex_any : ℕ → Bool
is_hex_any c = is_hex c || between b'A' b'F' c

-- `/^[a-f0-9]{64}$/`
unfoldable pub hex64 : String → Bool
unfolding units
hex64 s = length (units s) == 64 && all is_hex (units s)

-- `validSha256`: `/^[a-f0-9]{64}$/i`
unfoldable pub valid_sha256 : String → Bool
unfolding units
valid_sha256 s = length (units s) == 64 && all is_hex_any (units s)

-- `validId`: 1 to 255 units, none of them a control character
unfoldable pub valid_id : String → Bool
unfolding units
valid_id s =
    ltb 0 (length (units s))
    && leb (length (units s)) 255
    && all (λ c. not (leb c 0x1f || c == 0x7f)) (units s)

-- `[A-Za-z0-9._-]`
abbrev pub is_segment_unit : ℕ → Bool
is_segment_unit c = is_alnum c || c == b'.' || c == b'_' || c == b'-'

abbrev pub segment_units : ℕ → List ℕ → Bool
segment_units most [] = false
segment_units most (c ∷ cs) = is_alnum c && all is_segment_unit cs && leb (length cs) most

-- `/^[A-Za-z0-9][A-Za-z0-9._-]{0,most}$/`: `validKeySegment`, `validIdentifier` and
-- `validCallbackDeploymentId`
unfoldable pub segment : ℕ → String → Bool
unfolding units
segment most s = segment_units most (units s)

-- `left < right` on strings, by code units
abbrev pub lt_units : List ℕ → List ℕ → Bool
lt_units [] [] = false
lt_units [] (_ ∷ _) = true
lt_units (_ ∷ _) [] = false
lt_units (a ∷ as') (b ∷ bs) = if a == b then lt_units as' bs else ltb a b

unfoldable pub lt_string : String → String → Bool
unfolding units
lt_string a b = lt_units (units a) (units b)

-- `Array.prototype.sort` on strings
insert_sorted : String → List String → List String
unfolding lt_string
insert_sorted s [] = s ∷ []
insert_sorted s (t ∷ ts) =
    let rest = insert_sorted s ts in if lt_string t s then t ∷ rest else s ∷ t ∷ ts

unfoldable pub sort : List String → List String
unfolding insert_sorted
sort [] = []
sort (s ∷ ss) = insert_sorted s (sort ss)

-- `path.split("/")`
split_from : ℕ → List ℕ → List ℕ → List (List ℕ)
split_from sep cur [] = cur ∷ []
split_from sep cur (c ∷ cs) =
    let closed = split_from sep [] cs in
    let longer = split_from sep (cur ++ c ∷ []) cs in if c == sep then cur ∷ closed else longer

unfoldable pub split : ℕ → List ℕ → List (List ℕ)
unfolding split_from
split sep cs = split_from sep [] cs

abbrev pub eq_units : List ℕ → List ℕ → Bool
eq_units [] [] = true
eq_units (a ∷ as') (b ∷ bs) = a == b && eq_units as' bs
eq_units _ _ = false

-- `s.startsWith(prefix)`
abbrev pub starts_units : List ℕ → List ℕ → Bool
starts_units cs [] = true
starts_units [] (_ ∷ _) = false
starts_units (c ∷ cs) (p ∷ ps) = c == p && starts_units cs ps

unfoldable pub starts_with : String → String → Bool
unfolding units
starts_with s prefix = starts_units (units s) (units prefix)
