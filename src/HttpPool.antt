-- ===== src/HttpPool.antt =====
-- exhy/http/http_connection.h and exhy/http/http_connection.cpp: the pool of HTTP connections.
--
-- The socket and the clock are not code of the repository: `is_connected` says of a connection's number
-- whether its socket is connected, `now` is what GetCurrentMS returns, and `made` is the connection that
-- LookupAnyIPAddress, CreateTCP and connect lead to, or none where one of them fails.
pub mod Balance
mod Runs
use exhy.Common.{
  ℕ, ◌+◌, ◌-◌, ◌%◌, ◌^◌, Bool, true, false, not, ◌||◌, List, [], ◌∷◌, ◌++◌, Option, none, some,
  if◌then◌else◌, ltb, leb, ◌==◌, length, add_size, size_mod, up,
}

pub record HttpConnection : Type 0 where
  pub number : ℕ
  pub create_time : ℕ
  pub request : ℕ

pub record HttpConnectionPool : Type 0 where
  pub port : ℕ
  pub max_size : ℕ
  pub max_alive_time : ℕ
  pub max_request : ℕ
  pub is_https : Bool
  pub conns : List HttpConnection
  -- The pattern of the int32_t m_total.
  pub total : ℕ

-- m_port and the limits, as the constructor sets them.
pub new_pool : ℕ → Bool → ℕ → ℕ → ℕ → HttpConnectionPool
new_pool port is_https max_size max_alive_time max_request = record {
  port = if port == 0 then (if is_https then 443 else 80) else port;
  max_size = max_size;
  max_alive_time = max_alive_time;
  max_request = max_request;
  is_https = is_https;
  conns = [];
  total = 0;
}

-- m_total -= k and ++m_total on 32 bits.
abbrev pub less : ℕ → ℕ → ℕ
less n k = (n + 2 ^ 32 - k) % 2 ^ 32

abbrev pub more : ℕ → ℕ
more n = (n + 1) % 2 ^ 32

-- What the loop of getConnection leaves: how many connections it dropped, the one it takes, and the rest.
pub record Taken : Type 0 where
  pub invalid : ℕ
  pub ptr : Option HttpConnection
  pub rest : List HttpConnection

pub take_conn : (ℕ → Bool) → ℕ → ℕ → List HttpConnection → Taken
take_conn is_connected now alive [] = record { invalid = 0; ptr = none; rest = [] }
take_conn is_connected now alive (c ∷ cs) =
    let next = take_conn is_connected now alive cs in
    let dropped = record next { invalid = next.invalid + 1 } in
    if not (is_connected c.number)
    then dropped
    else (if ltb now (add_size c.create_time alive)
        then dropped
        else record { invalid = 0; ptr = some c; rest = cs })

pub get_connection :
    (ℕ → Bool)
    → ℕ
    → Option HttpConnection
    → HttpConnectionPool
    → Option HttpConnection × HttpConnectionPool
get_connection is_connected now made p =
    let t = take_conn is_connected now p.max_alive_time p.conns in
    let q = record p { conns = t.rest; total = less p.total t.invalid } in
    elim t.ptr [
      | some c ↦ (some c, q)
      | none ↦ elim made [ none ↦ (none, q) | some c ↦ (some c, record q { total = more q.total }) ]
    ]

-- ReleasePtr, for the connection that getConnection gave out.
pub release_ptr : (ℕ → Bool) → ℕ → HttpConnection → HttpConnectionPool → HttpConnectionPool
release_ptr is_connected now c p =
    let used = record c { request = up c.request } in
    if not (is_connected c.number)
      || leb now (add_size c.create_time p.max_alive_time)
      || leb p.max_request used.request
    then record p { total = less p.total 1 }
    else record p { conns = p.conns ++ used ∷ [] }
