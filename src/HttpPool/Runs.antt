-- ===== src/HttpPool/Runs.antt =====
-- Runs of the pool's theorems on a concrete pool.
use exhy.Common.{ℕ, Bool, true, false, ◌≡◌, ◌⊎◌, refl, [], ◌∷◌, Option, none, some, arith}
use exhy.HttpPool.{HttpConnection, HttpConnectionPool, get_connection}
use exhy.HttpPool.Balance.{Balanced, NoneFits, FirstFit, get_connection_lem}

-- A young connection and one that is older than the limit of 100.
abbrev young : HttpConnection
young = record { number = 1; create_time = 950; request = 0 }

abbrev old : HttpConnection
old = record { number = 2; create_time = 10; request = 3 }

abbrev pool : HttpConnectionPool
pool = record {
  port = 80;
  max_size = 10;
  max_alive_time = 100;
  max_request = 5;
  is_https = false;
  conns = young ∷ old ∷ [];
  total = 3;
}

abbrev nothing_made : Option HttpConnection
nothing_made = none

abbrev all_connected : ℕ → Bool
all_connected n = true

get_connection_lem_example :
    (((get_connection all_connected 1000 nothing_made pool).0 ≡ none)
      × (nothing_made ≡ none)
      × NoneFits all_connected 1000 100 pool.conns
      × ((get_connection all_connected 1000 nothing_made pool).1.conns ≡ [])
      × Balanced 1 (get_connection all_connected 1000 nothing_made pool).1)
    ⊎ ((c : HttpConnection) × ((get_connection all_connected 1000 nothing_made pool).0 ≡ some c)
        × Balanced 2 (get_connection all_connected 1000 nothing_made pool).1
        × (FirstFit all_connected 1000 100 pool.conns c
              (get_connection all_connected 1000 nothing_made pool).1.conns
            ⊎ ((nothing_made ≡ some c)
                × NoneFits all_connected 1000 100 pool.conns
                × ((get_connection all_connected 1000 nothing_made pool).1.conns ≡ []))))
get_connection_lem_example =
    get_connection_lem all_connected 1000 1 nothing_made pool refl (omega arith)
