-- ===== src/Monitor/Tests.antt =====
-- Examples for the theorems on the health monitor of ws/pool.rs.
use polymarket_orderbook_col.Base.{◌≡◌, refl, List, [], ◌∷◌, ok}
use polymarket_orderbook_col.Base.HashMap
use polymarket_orderbook_col.Connection.{connected, disconnected}
use polymarket_orderbook_col.Monitor.{Monitor, start}
use polymarket_orderbook_col.Monitor.Turn.{Notice, status, mapping, run_health_monitor}
use polymarket_orderbook_col.Monitor.Reports.{Watches, run_health_monitor_lem}

abbrev some_notices : List Notice
some_notices =
    status 0 connected 1
    ∷ mapping (("y1", (0, 1)) ∷ ("n1", (1, 0)) ∷ [])
    ∷ status 1 connected 2
    ∷ status 1 disconnected 3
    ∷ status 0 disconnected 4
    ∷ []

run_health_monitor_lem_example :
    (m : Monitor) × (run_health_monitor some_notices start ≡ ok m) × Watches some_notices m
unfolding HashMap.get
run_health_monitor_lem_example =
    run_health_monitor_lem some_notices (tt, ((refl, (refl, tt)), (tt, (tt, (tt, tt)))))
