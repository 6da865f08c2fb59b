-- ===== src/Builder/Content/Listed.antt =====
-- The entries of a description that is read: where they may be, and their order.
use xmcl_shared_node_agent.Base.{
  String, true, List, [], ◌∷◌, ◌≡◌, refl, sym, arith, str_eq, eq_iff, Bool-cases, inl, inr, All,
  subst,
}
use xmcl_shared_node_agent.Js.Text.{nonempty, lt_string}
use xmcl_shared_node_agent.Js.Text.Order.{lt_string_trans}
use xmcl_shared_node_agent.Js.Value.{Value, get}
use xmcl_shared_node_agent.Js.Fault.{ok, of_option, bind_parts, ensure_parts, Result-cases}
use xmcl_shared_node_agent.Compiler.Job.{text}
use xmcl_shared_node_agent.Bundle.Manifest.{lower_hex}
use xmcl_shared_node_agent.Builder.Path.{safe_output_path, valid_output_mode}
use xmcl_shared_node_agent.Builder.Zstd.{invalid_output}
use xmcl_shared_node_agent.Builder.Content.{
  Entry, natural_of, output_path, entry_ok, read_entries, validate_entries,
}

-- Each path stands behind the one before it.
abbrev pub Behind : String → List Entry → Type 0
Behind previous [] = Unit {0}
Behind previous (e ∷ es) = (lt_string previous e.path ≡ true) × Behind e.path es

abbrev pub Ordered : List Entry → Type 0
Ordered [] = Unit {0}
Ordered (e ∷ es) = Behind e.path es

-- A path and a mode that a file of a build may have.
abbrev pub Allowed : Entry → Type 0
Allowed e = (output_path e.path ≡ true) × (valid_output_mode e.mode ≡ true)

pub Behind-earlier :
    (a b : String) (es : List Entry) → lt_string a b ≡ true → Behind b es → Behind a es
Behind-earlier a b [] h k = tt
Behind-earlier a b (e ∷ es) h (next, k) = (lt_string_trans a b e.path h next, k)

-- What one round of the loop has read.
record Round (previous : String) (entry : Value) (entries : List Value) (es : List Entry)
    : Type 0 where
  first : Entry
  rest : List Entry
  whole : es ≡ first ∷ rest
  path : first.path ≡ text (get entry "path")
  accepted : entry_ok previous entry ≡ true
  mode : valid_output_mode first.mode ≡ true
  later : read_entries (text (get entry "path")) entries ≡ ok rest

read_entries-Round :
    (previous : String) (entry : Value) (entries : List Value) (es : List Entry)
    → read_entries previous (entry ∷ entries) ≡ ok es
    → Round previous entry entries es
unfolding read_entries
read_entries-Round previous entry entries es h =
    let (accepted, sized) = ensure_parts (entry_ok previous entry) invalid_output _ es h in
    let (size, size_read, moded) =
      bind_parts (of_option (natural_of (get entry "sizeBytes")) invalid_output) _ es sized in
    let (mode, mode_read, checked) =
      bind_parts (of_option (natural_of (get entry "mode")) invalid_output) _ es moded in
    let (good, read) = ensure_parts (valid_output_mode mode) invalid_output _ es checked in
    let (rest, later, same) =
      bind_parts (read_entries (text (get entry "path")) entries) _ es read in
    record {
      first = record {
        path = text (get entry "path");
        sha256 = lower_hex (text (get entry "sha256"));
        size = size;
        mode = mode;
      };
      rest = rest;
      whole = cc;
      path = refl;
      accepted = accepted;
      mode = good;
      later = later;
    }

-- What the tests on an entry say of its path.
path_lem :
    (previous : String) (entry : Value)
    → entry_ok previous entry ≡ true
    → (output_path (text (get entry "path")) ≡ true)
      × (nonempty previous ≡ true → lt_string previous (text (get entry "path")) ≡ true)
path_lem previous entry h = ground arith

no_empty_path : output_path "" ≡ true → ⊥
unfolding output_path
no_empty_path e = cc

output_path-nonempty : (path : String) → output_path path ≡ true → nonempty path ≡ true
unfolding output_path safe_output_path
output_path-nonempty path h = elim (Bool-cases (str_eq path "")) [
  | inr other ↦ rw other
  | inl empty ↦
      absurd (no_empty_path (subst (λ p. output_path p ≡ true) ((eq_iff path "").0 empty) h))
]

pub read_entries-Behind :
    (values : List Value) (previous : String) (es : List Entry)
    → read_entries previous values ≡ ok es
    → (nonempty previous ≡ true → Behind previous es) × Ordered es × All Allowed es
unfolding read_entries
read_entries-Behind [] previous [] h = (λ _. tt, tt, tt)
read_entries-Behind [] previous (e ∷ es) h = cc
read_entries-Behind (entry ∷ values) previous es h =
    let r = read_entries-Round previous entry values es h in
    let (fine, behind) = path_lem previous entry r.accepted in
    let (later, ordered, allowed) =
      read_entries-Behind values (text (get entry "path")) r.rest r.later in
    let rest_behind : Behind r.first.path r.rest =
      subst (λ p. Behind p r.rest) (sym r.path) (later (output_path-nonempty _ fine)) in
    let all_allowed : Allowed r.first =
      (subst (λ p. output_path p ≡ true) (sym r.path) fine, r.mode) in
    rw r.whole (
      λ some_path.
          (subst (λ p. lt_string previous p ≡ true) (sym r.path) (behind some_path), rest_behind),
      rest_behind,
      (all_allowed, allowed),
    )

-- A description that is accepted gives allowed paths and modes, each path behind the one before it.
pub validate_entries-Ordered :
    (values : List Value) (es : List Entry)
    → validate_entries values ≡ ok es
    → Ordered es × All Allowed es
unfolding validate_entries
validate_entries-Ordered values es h = elim (Result-cases (read_entries "" values)) [
  | inr (e, bad) ↦ ground arith
  | inl (read, found) ↦
      let same : read ≡ es = ground arith in
      let facts = read_entries-Behind values "" read found in
      subst (λ l. Ordered l × All Allowed l) same (facts.1, facts.2)
]
