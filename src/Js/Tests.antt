-- ===== src/Js/Tests.antt =====
-- Reading two chunks within a limit.
use xmcl_shared_node_agent.Base.{◌≡◌, ◌↔◌, [], ◌∷◌}
use xmcl_shared_node_agent.Js.Fault.{ok, plain_error, type_error}
use xmcl_shared_node_agent.Js.Stream.{bytes, Complaints, Carries, read_stream, read_stream_iff}

abbrev complaints : Complaints
complaints = record { too_large = plain_error; not_bytes = type_error }

read_stream_iff_example :
    (read_stream 4 complaints (bytes (1 ∷ 2 ∷ []) ∷ bytes (3 ∷ []) ∷ []) ≡ ok (1 ∷ 2 ∷ 3 ∷ []))
    ↔ Carries 4 [] (bytes (1 ∷ 2 ∷ []) ∷ bytes (3 ∷ []) ∷ []) (1 ∷ 2 ∷ 3 ∷ [])
read_stream_iff_example =
    read_stream_iff 4 complaints (bytes (1 ∷ 2 ∷ []) ∷ bytes (3 ∷ []) ∷ []) (1 ∷ 2 ∷ 3 ∷ [])
