-- ===== src/Pool/Shutdown.antt =====
-- `shutdown` of ws/pool.rs, as the sequence of what it does to the tasks. How a task ended only shows in
-- log lines.
use polymarket_orderbook_col.Base.{ℕ, List, [], ◌∷◌}
use polymarket_orderbook_col.Pool.{ConnHandle, Pool}

pub data ShutdownStep : Type 0 where
  abort_monitor : ShutdownStep
  close_commands : ℕ → ShutdownStep
  await_task : ℕ → ShutdownStep

unfoldable pub drain_connections : List ConnHandle → List ShutdownStep
drain_connections [] = []
drain_connections (h ∷ hs) = close_commands h.conn_id ∷ await_task h.conn_id ∷ drain_connections hs

-- The monitor first, then the connections one by one.
unfoldable pub shutdown : Pool → List ShutdownStep
unfolding drain_connections
shutdown p = abort_monitor ∷ drain_connections p.connections
