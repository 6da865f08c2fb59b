-- ===== src/Queue/Tests.antt =====
-- The delay of a retry at a concrete number of attempts.
use xmcl_shared_node_agent.Base.{◌*◌, ◌≡◌, min, leb, arith, if◌then◌else◌}
use xmcl_shared_node_agent.Queue.{retry_delay}
use xmcl_shared_node_agent.Queue.Delay.{retry_delay_doubles}

retry_delay_doubles_example :
    (retry_delay 5000 1 ≡ min 5000 300000)
    × (retry_delay 5000 4
        ≡ (if leb 3 8 then min (2 * retry_delay 5000 3) 300000 else retry_delay 5000 3))
retry_delay_doubles_example = retry_delay_doubles 5000 3 (omega arith)
