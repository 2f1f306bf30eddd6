-- ===== src/Tests/Mcp.antt =====
-- The MCP guard on concrete inputs.
use mailserver.Prelude.{◌≤◌, true, false, List, [], ◌∷◌, Text, codes, arith}
use mailserver.Mcp.Guard.{rate_limit_per_min, destructive_rate_limit_per_min}
use mailserver.Mcp.Guard.Limits.{Event, call, outcome, history, no_history, history-few}
use mailserver.Mcp.Guard.Window.{count_in}

abbrev run : List (Text × Event)
run =
    (codes "a", call true 1 2)
    ∷ (codes "b", call false 3 4)
    ∷ (codes "a", outcome false)
    ∷ (codes "a", call false 70_000_000_000 70_000_000_001)
    ∷ []

history-few_example :
    (count_in 0 (history (codes "a") run [] no_history).calls ≤ rate_limit_per_min)
    × (count_in 0 (history (codes "a") run [] no_history).destructive
        ≤ destructive_rate_limit_per_min)
history-few_example = history-few (codes "a") run 0 (omega arith)
