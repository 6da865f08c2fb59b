-- ===== src/Js/Stream.antt =====
-- Reading a stream of chunks into memory within a limit: the loop that compiler.mjs and
-- http-worker.mjs write out for each body that they read.
use mathlib.Core.List.{append_assoc, append-nil}
use xmcl_shared_node_agent.Base.{
  ℕ, ◌+◌, ◌≤◌, ◌≡◌, refl, ap, sym, ◌∙◌, ◌↔◌, false, List, [], ◌∷◌, ◌++◌, map, length, ltb,
  if◌then◌else◌, arith, length-append, Bool-cases, inl, inr,
}
use xmcl_shared_node_agent.Js.Fault.{Fault, Result, ok, err}

-- What one `read` gives: bytes, something that is no `Uint8Array`, or a rejection.
pub data Chunk : Type 0 where
  bytes : List ℕ → Chunk
  alien : Chunk
  broken : Fault → Chunk

-- How a reader reports a body over its limit, and a chunk that is no bytes.
pub record Complaints : Type 0 where
  pub too_large : Fault
  pub not_bytes : Fault

unfoldable pub read_from : ℕ → Complaints → List ℕ → List Chunk → Result (List ℕ)
read_from limit c read [] = ok read
read_from limit c read (alien ∷ chunks) = err c.not_bytes
read_from limit c read (broken e ∷ chunks) = err e
read_from limit c read (bytes b ∷ chunks) =
    let rest = read_from limit c (read ++ b) chunks in
    if ltb limit (length read + length b) then err c.too_large else rest

unfoldable pub read_stream : ℕ → Complaints → List Chunk → Result (List ℕ)
unfolding read_from
read_stream limit c chunks = read_from limit c [] chunks

abbrev pub flatten : List (List ℕ) → List ℕ
flatten [] = []
flatten (b ∷ bs) = b ++ flatten bs

-- The chunks are all bytes, which together make the body.
pub record Carries (limit : ℕ) (read : List ℕ) (chunks : List Chunk) (body : List ℕ) : Type 0 where
  pub parts : List (List ℕ)
  pub same : chunks ≡ map bytes parts
  pub whole : body ≡ read ++ flatten parts
  pub bounded : length body ≤ limit

read_from-Carries :
    (limit : ℕ) (c : Complaints) (read : List ℕ) (chunks : List Chunk) (body : List ℕ)
    → length read ≤ limit
    → read_from limit c read chunks ≡ ok body
    → Carries limit read chunks body
unfolding read_from
read_from-Carries limit c read [] body fits h =
    let same : read ≡ body = ground arith in
    record {
      parts = [];
      same = refl;
      whole = sym same ∙ sym (append-nil read);
      bounded = rw (← same) fits;
    }
read_from-Carries limit c read (alien ∷ chunks) body fits h = cc
read_from-Carries limit c read (broken e ∷ chunks) body fits h = cc
read_from-Carries limit c read (bytes b ∷ chunks) body fits h =
    elim (Bool-cases (ltb limit (length read + length b))) [
      | inl large ↦ ground arith
      | inr small ↦
          let later =
            read_from-Carries limit c (read ++ b) chunks body (ground (arith, length-append read b))
              (ground arith) in
          record {
            parts = b ∷ later.parts;
            same = ap (λ r. bytes b ∷ r) later.same;
            whole = later.whole ∙ append_assoc read b (flatten later.parts);
            bounded = later.bounded;
          }
    ]

read_from_complete :
    (limit : ℕ) (c : Complaints) (read : List ℕ) (parts : List (List ℕ))
    → length (read ++ flatten parts) ≤ limit
    → read_from limit c read (map bytes parts) ≡ ok (read ++ flatten parts)
unfolding read_from
read_from_complete limit c read [] fits = ap ok (sym (append-nil read))
read_from_complete limit c read (b ∷ parts) fits =
    let later =
      read_from_complete limit c (read ++ b) parts
        (rw (append_assoc read b (flatten parts)) fits) in
    let small : ltb limit (length read + length b) ≡ false =
      ground (arith, length-append read (b ++ flatten parts), length-append b (flatten parts)) in
    rw small (later ∙ ap ok (append_assoc read b (flatten parts)))

-- A read within a limit succeeds exactly when every chunk is bytes and together they are within the
-- limit, and then gives them in order.
pub read_stream_iff :
    (limit : ℕ) (c : Complaints) (chunks : List Chunk) (body : List ℕ)
    → (read_stream limit c chunks ≡ ok body) ↔ Carries limit [] chunks body
unfolding read_stream
read_stream_iff limit c chunks body = (
  read_from-Carries limit c [] chunks body (omega arith),
  λ carries. rw carries.same (
      read_from_complete limit c [] carries.parts (rw (← carries.whole) carries.bounded)
      ∙ ap ok (sym carries.whole)),
)
