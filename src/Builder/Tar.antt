-- ===== src/Builder/Tar.antt =====
-- `packageTar` and `unpackTar`, over the bytes of a tar.
pub mod Total
use Prim.Native.String.{◌++◌ as append_text}
use xmcl_shared_node_agent.Base.{
  ℕ, zero, suc, ◌+◌, ◌-◌, ◌*◌, ◌/◌, ◌%◌, ◌^◌, String, Bool, true, false, not, ◌&&◌, ◌||◌, List, [],
  ◌∷◌, ◌++◌, Option, none, some, leb, ltb, ◌==◌, length, take, drop, all, sum, if◌then◌else◌,
  str_eq,
}
use xmcl_shared_node_agent.Base.Dict
use xmcl_shared_node_agent.Base.Dict.{Dict}
use xmcl_shared_node_agent.Js.Text.{units, between, split, nonempty, lt_string}
use xmcl_shared_node_agent.Js.Value.{Value, max_safe}
use xmcl_shared_node_agent.Js.Fault.{Result, ok, err, ensure, of_option, ◌>>=◌, ◌>>◌}
use xmcl_shared_node_agent.Limits.{max_package_tar_bytes}
use xmcl_shared_node_agent.Builder.Path.{safe_output_path, valid_output_mode}
use xmcl_shared_node_agent.Builder.Zstd.{invalid_output, settled}

-- `TextEncoder.encode`, on the units of a text, `TextDecoder.decode`, which throws on some bytes,
-- `String(value)`, and `toLowerCase` and `normalize("NFKC")` of a string.
pub record Texts : Type 0 where
  pub print : Value → String
  pub encode : List ℕ → List ℕ
  pub decode : List ℕ → Option String
  pub lower : String → String
  pub nfkc : String → String

-- A file of a build.
pub record File : Type 0 where
  pub bytes : List ℕ
  pub mode : ℕ

-- `entries.sort` by the path
unfoldable pub insert_entry {ℓ} : {V : Type ℓ} → String → V → Dict V → Dict V
insert_entry k v [] = (k, v) ∷ []
insert_entry k v ((j, w) ∷ m) =
    let rest = insert_entry k v m in if lt_string j k then (j, w) ∷ rest else (k, v) ∷ (j, w) ∷ m

unfoldable pub sort_entries {ℓ} : {V : Type ℓ} → Dict V → Dict V
unfolding insert_entry
sort_entries [] = []
sort_entries ((k, v) ∷ m) = insert_entry k v (sort_entries m)

unfoldable pub zeros : ℕ → List ℕ
zeros zero = []
zeros (suc n) = 0 ∷ zeros n

-- `target.set(bytes, offset)`
unfoldable pub set_at : List ℕ → ℕ → List ℕ → List ℕ
set_at target offset bytes = take offset target ++ bytes ++ drop (offset + length bytes) target

-- `writeTarText`, on bytes
unfoldable pub write_text : List ℕ → ℕ → ℕ → List ℕ → Result (List ℕ)
unfolding set_at
write_text target offset n bytes =
    if leb (length bytes) n then ok (set_at target offset bytes) else err invalid_output

-- A number below 8 ^ width as so many octal digits.
unfoldable pub octal : ℕ → ℕ → List ℕ
octal zero n = []
octal (suc width) n = (b'0' + n / 8 ^ width % 8) ∷ octal width n

-- `writeTarOctal`, for a number of digits that leaves one byte
unfoldable pub write_octal : List ℕ → ℕ → ℕ → ℕ → Result (List ℕ)
unfolding octal set_at
write_octal target offset digits n =
    if ltb n (8 ^ digits) then ok (set_at target offset (octal digits n)) else err invalid_output

abbrev pub join_parts : List (List ℕ) → List ℕ
join_parts [] = []
join_parts (p ∷ []) = p
join_parts (p ∷ q ∷ ps) = p ++ b'/' ∷ join_parts (q ∷ ps)

-- The loop of `splitTarPath`: the parts before the cut, joined, and those behind it.
unfoldable pub split_parts : Texts → List ℕ → List (List ℕ) → Option (List ℕ × List ℕ)
split_parts texts prefix [] = none
split_parts texts prefix (p ∷ ps) =
    let later = split_parts texts (prefix ++ b'/' ∷ p) ps in
    if leb (length (texts.encode prefix)) 155
      && leb (length (texts.encode (join_parts (p ∷ ps)))) 100
    then some (join_parts (p ∷ ps), prefix)
    else later

abbrev pub split_long : Texts → List (List ℕ) → Option (List ℕ × List ℕ)
split_long texts [] = none
split_long texts (p ∷ ps) = split_parts texts p ps

-- `splitTarPath`: the name and the prefix
unfoldable pub split_tar_path : Texts → String → Result (List ℕ × List ℕ)
unfolding split_parts units split
split_tar_path texts path =
    if leb (length (texts.encode (units path))) 100
    then ok (units path, [])
    else of_option (split_long texts (split b'/' (units path))) invalid_output

abbrev pub spaces : ℕ → List ℕ
spaces zero = []
spaces (suc n) = 32 ∷ spaces n

-- The header of a file.
unfoldable pub tar_header : Texts → String → File → Result (List ℕ)
unfolding split_tar_path write_text write_octal units zeros
tar_header texts path file = do
  parts ← split_tar_path texts path
  named ← write_text (zeros 512) 0 100 (texts.encode parts.0)
  moded ← write_octal named 100 7 file.mode
  owned ← write_octal moded 108 7 0
  grouped ← write_octal owned 116 7 0
  sized ← write_octal grouped 124 11 (length file.bytes)
  timed ← write_octal sized 136 11 0
  let typed = set_at (set_at timed 148 (spaces 8)) 156 (0x30 ∷ [])
  magic ← write_text typed 257 6 (units "ustar")
  versioned ← write_text magic 263 2 (units "00")
  user ← write_text versioned 265 32 (units "root")
  group ← write_text user 297 32 (units "root")
  whole ← write_text group 345 155 (texts.encode parts.1)
  ensure (ltb (sum whole) (8 ^ 6)) invalid_output
  ok (set_at whole 148 (octal 6 (sum whole) ++ 0 ∷ 32 ∷ []))

abbrev pub padding : ℕ → ℕ
padding size = (512 - size % 512) % 512

-- The loop over the sorted files, with the size of the tar so far, and what follows it.
unfoldable pub pack_files : Texts → Dict File → ℕ → Result (List ℕ)
unfolding tar_header zeros
pack_files texts [] total = do
  ensure (leb (total + 1024) max_package_tar_bytes) invalid_output
  ok (zeros 1024)
pack_files texts ((path, file) ∷ files) total = do
  header ← tar_header texts path file
  ensure (leb (total + 512 + length file.bytes + padding (length file.bytes)) max_package_tar_bytes)
      invalid_output
  rest ← pack_files texts files (total + 512 + length file.bytes + padding (length file.bytes))
  ok (header ++ file.bytes ++ zeros (padding (length file.bytes)) ++ rest)

-- `packageTar`
unfoldable pub package_tar : Texts → Dict File → Result (List ℕ)
unfolding pack_files sort_entries
package_tar texts files = pack_files texts (sort_entries files) 0

unfoldable pub before_zero : List ℕ → List ℕ
before_zero [] = []
before_zero (c ∷ cs) = if c == 0 then [] else c ∷ before_zero cs

-- `tarText`
unfoldable pub tar_text : Texts → List ℕ → ℕ → ℕ → Result String
unfolding before_zero
tar_text texts header offset n =
    of_option (texts.decode (before_zero (take n (drop offset header)))) invalid_output

-- White space, as `trim` takes it off both ends.
abbrev pub is_white : ℕ → Bool
is_white c =
    between 9 13 c
    || c == 32
    || c == 0xa0
    || c == 0x1680
    || between 0x2000 0x200a c
    || c == 0x2028
    || c == 0x2029
    || c == 0x202f
    || c == 0x205f
    || c == 0x3000
    || c == 0xfeff

unfoldable pub trim_start : List ℕ → List ℕ
trim_start [] = []
trim_start (c ∷ cs) = if is_white c then trim_start cs else c ∷ cs

unfoldable pub trim_end : List ℕ → List ℕ
trim_end [] = []
trim_end (c ∷ cs) =
    let rest = trim_end cs in if is_white c && length rest == 0 then [] else c ∷ rest

abbrev pub octal_from : ℕ → List ℕ → ℕ
octal_from n [] = n
octal_from n (c ∷ cs) = octal_from (n * 8 + (c - b'0')) cs

-- `/^[0-7]+$/`
abbrev pub is_octal : List ℕ → Bool
is_octal cs = ltb 0 (length cs) && all (between b'0' b'7') cs

-- `parseTarOctal`
unfoldable pub parse_octal : Texts → List ℕ → ℕ → ℕ → Result ℕ
unfolding tar_text trim_start trim_end units
parse_octal texts header offset n = do
  text ← tar_text texts header offset n
  let digits = trim_end (trim_start (units text))
  ensure (is_octal digits && leb (octal_from 0 digits) max_safe) invalid_output
  ok (octal_from 0 digits)

-- What a header says: the path, the size and the mode.
pub record Header : Type 0 where
  pub path : String
  pub size : ℕ
  pub mode : ℕ

abbrev pub byte_at : List ℕ → ℕ → ℕ
byte_at bytes offset = elim (drop offset bytes) [ [] ↦ 0 | b ∷ _ ↦ b ]

unfoldable pub read_header : Texts → List ℕ → Result Header
unfolding tar_text parse_octal
read_header texts header = do
  magic ← tar_text texts header 257 6
  ensure (str_eq magic "ustar" && (byte_at header 156 == 0 || byte_at header 156 == 0x30))
      invalid_output
  name ← tar_text texts header 0 100
  prefix ← tar_text texts header 345 155
  size ← parse_octal texts header 124 12
  mode ← parse_octal texts header 100 8
  let path = if nonempty prefix then append_text prefix (append_text "/" name) else name
  ensure (safe_output_path path && valid_output_mode mode) invalid_output
  ok (record { path = path; size = size; mode = mode })

abbrev pub is_zero : List ℕ → Bool
is_zero bytes = all (λ b. b == 0) bytes

-- The loop of `unpackTar`, from what is left of the tar; `none` is a loop that needs more fuel.
unfoldable pub unpack_files : Texts → ℕ → List ℕ → Dict File → Option (Result (Dict File))
unfolding read_header
unpack_files texts zero rest files = none
unpack_files texts (suc fuel) rest files =
    let body = drop 512 rest in
    let next = λ (h : Header).
      unpack_files texts fuel (drop (h.size + padding h.size) body)
        (Dict.put files h.path (record { bytes = take h.size body; mode = h.mode })) in
    if leb 512 (length rest)
    then if is_zero (take 512 rest)
      then some (if length rest == 1024 && is_zero body then ok files else err invalid_output)
      else elim (read_header texts (take 512 rest)) [
        | err e ↦ some (err e)
        | ok h ↦
            if Dict.has files h.path || ltb (length body) h.size
            then some (err invalid_output)
            else next h
      ]
    else some (err invalid_output)

-- `unpackTar`
unfoldable pub unpack_tar : Texts → List ℕ → Result (Dict File)
unfolding unpack_files
unpack_tar texts tar = settled (unpack_files texts (suc (length tar)) tar [])
